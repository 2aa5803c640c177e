-- ===== src/Cli/ConfigFile.antt =====
-- The settings file of cmd/kbeaconctl/cli_config.go: where it is, and how it is read and written.
use kbeacon.Prelude.{
  Bool, Option, none, some, Outcome, ok, err, ◌>>=◌, [], ◌∷◌, ◌++◌, if◌then◌else◌,
}
use kbeacon.Text.{Text, str, ◌==◌, trim_space}
use kbeacon.Cli.Settings.{CliConfig, empty_config}

-- What `os.ReadFile` finds: `os.ErrNotExist`, another error, or the contents.
pub data FileRead : Type 0 where
  absent : FileRead
  unreadable : Text → FileRead
  contents : Text → FileRead

-- What the commands call: the environment, the file system in a state of it, and the JSON package.
-- A call that changes files leaves a state also where it fails. `remove` fails as not existing or
-- with a message.
pub record System {ℓ} (S : Type ℓ) : Type ℓ where
  pub program : Text
  pub getenv : Text → Text
  pub home : Outcome Text Text
  pub config_in_home : Text → Text
  pub directory : Text → Text
  pub read_file : S → Text → FileRead
  pub mkdir_all : S → Text → S × Option Text
  pub write_file : S → Text → Text → S × Option Text
  pub remove : S → Text → S × Option (Bool × Text)
  pub quote : Text → Text
  pub unmarshal : Text → Outcome Text CliConfig
  pub marshal : CliConfig → Outcome Text Text
  pub encode_view : Text → CliConfig → Outcome Text Text

module _ {ℓ} {S : Type ℓ} (sys : System S) where
  abbrev pub home_path : Text → Outcome Text Text
  home_path home =
      if trim_space home == []
      then err (str "home directory is empty")
      else ok (sys.config_in_home home)

  unfoldable pub cli_config_path : Text → Outcome Text Text
  cli_config_path explicit =
      if trim_space explicit == []
      then if trim_space (sys.getenv (str "KBEACONCTL_CONFIG")) == []
        then sys.home >>= home_path
        else ok (trim_space (sys.getenv (str "KBEACONCTL_CONFIG")))
      else ok (trim_space explicit)

  abbrev pub parsed : Text → Outcome Text CliConfig → Outcome Text (CliConfig × Text)
  parsed path (ok cfg) = ok (cfg, path)
  parsed path (err message) = err (str "parse " ++ (path ++ (str ": " ++ message)))

  abbrev pub read_config : Text → FileRead → Outcome Text (CliConfig × Text)
  read_config path absent = ok (empty_config, path)
  read_config path (unreadable message) = err message
  read_config path (contents raw) =
      if trim_space raw == [] then ok (empty_config, path) else parsed path (sys.unmarshal raw)

  unfoldable pub load_cli_config : S → Text → Outcome Text (CliConfig × Text)
  unfolding cli_config_path
  load_cli_config s config_path =
      cli_config_path config_path >>= λ path. read_config path (sys.read_file s path)

  abbrev pub written : Text → S × Option Text → S × Outcome Text Text
  written path (s, none) = (s, ok path)
  written path (s, some message) = (s, err message)

  abbrev pub write_config : Text → S × Option Text → Outcome Text Text → S × Outcome Text Text
  write_config path (s, some message) raw = (s, err message)
  write_config path (s, none) (err message) = (s, err message)
  write_config path (s, none) (ok raw) = written path (sys.write_file s path (raw ++ (b'\n' ∷ [])))

  abbrev pub save_at : S → CliConfig → Outcome Text Text → S × Outcome Text Text
  save_at s cfg (err message) = (s, err message)
  save_at s cfg (ok path) =
      write_config path (sys.mkdir_all s (sys.directory path)) (sys.marshal cfg)

  unfoldable pub save_cli_config : S → Text → CliConfig → S × Outcome Text Text
  unfolding cli_config_path
  save_cli_config s config_path cfg = save_at s cfg (cli_config_path config_path)
