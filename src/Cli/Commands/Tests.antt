-- ===== src/Cli/Commands/Tests.antt =====
-- Tests of the commands on the settings, in a file system that holds the namespace alone, and their
-- theorem at it.
use kbeacon.Prelude.{
  ◌≡◌, refl, ap, subst, true, Option, none, some, ok, ok_injective, [], ◌∷◌, ◌++◌,
}
use kbeacon.Text.{
  Text, str, has_byte, strip_prefix, ◌==◌, ==_refl, elem, trim_space, trim_left, trim_right,
  is_space, to_lower, lower_byte, join, replace_byte,
}
use kbeacon.Dict.{Dict, get, put, get-put}
use kbeacon.Cli.Settings.{
  CliConfig, empty_config, normalize_cli_config_key, set_cli_config_value, unset_cli_config_value,
  cli_config_value,
}
use kbeacon.Cli.ConfigFile.{
  System, FileRead, absent, contents, cli_config_path, load_cli_config, save_cli_config,
}
use kbeacon.Cli.Usage.{after_last_slash, trim_suffix, command_usage_name}
use kbeacon.Cli.Commands.{done, run_config}
use kbeacon.Cli.Commands.SetGet.{ReadsBack, Decodes, run_config-set_get}

abbrev found : Option Text → FileRead
found none = absent
found (some raw) = contents raw

abbrev files : System (Dict Text)
files = record {
  program = str "kbeaconctl";
  getenv = λ name. [];
  home = ok (str "/root");
  config_in_home = λ home. home ++ str "/.kbeaconctl/config.json";
  directory = λ path. path;
  read_file = λ s path. found (get path s);
  mkdir_all = λ s path. (s, none);
  write_file = λ s path raw. (put path raw s, none);
  remove = λ s path. (s, some (true, []));
  quote = λ t. t;
  unmarshal = λ raw. ok (record empty_config { namespace = trim_space raw });
  marshal = λ cfg. ok cfg.namespace;
  encode_view = λ path cfg. ok [];
}

abbrev state_of : Dict Text × Option Text → Dict Text
state_of (s, failure) = s

files-ReadsBack : ReadsBack files
files-ReadsBack = record {
  written = λ s t path raw e.
      let state : put path raw s ≡ t = ap state_of e in
      rw (← state, get-put path path raw s, ==_refl path) refl;
}

-- Its unfolding line opens the commands.
commands : Unit {0}
unfolding ◌==◌ elem trim_space trim_left trim_right is_space to_lower lower_byte join replace_byte
    get put normalize_cli_config_key set_cli_config_value unset_cli_config_value cli_config_value
    cli_config_path load_cli_config save_cli_config after_last_slash trim_suffix command_usage_name
    has_byte strip_prefix run_config
commands = tt

abbrev prod_config : CliConfig
prod_config = record empty_config { namespace = str "prod" }

prod-Decodes : (raw : Text) → files.marshal prod_config ≡ ok raw → Decodes files prod_config raw
unfolding commands
prod-Decodes raw e =
    subst (Decodes files prod_config) (ok_injective refl e)
      (record { not_blank = refl; decoded = refl })

release_name : command_usage_name (str "/opt/bin/kbeacon_linux_amd64") ≡ str "kbeacon"
unfolding commands
release_name = refl

run_config-set_get_example :
    (run_config files
      (run_config files [] [] (str "set" ∷ str "NS" ∷ str " prod " ∷ [])).state
      []
      (str "get" ∷ str "namespace" ∷ [])).exit
    ≡ done (str "prod")
unfolding commands
run_config-set_get_example =
    run_config-set_get files files-ReadsBack [] [] (str "NS") (str "namespace") (str " prod ")
      empty_config (str "/root/.kbeaconctl/config.json") refl refl prod-Decodes (str "namespace")
      (str "namespace") refl refl
