-- ===== src/Cli/Commands.antt =====
-- `runConfig` of cmd/kbeaconctl/cli_config.go: the commands on the settings.
pub mod SetGet
mod Tests
use kbeacon.Prelude.{
  Bool, true, false, Option, none, some, Outcome, ok, err, List, [], ◌∷◌, ◌++◌, if◌then◌else◌,
}
use kbeacon.Text.{Text, str, ◌==◌, trim_space, to_lower, elem}
use kbeacon.Cli.Usage.{command_usage_name, usage}
use kbeacon.Cli.Render.{line}
use kbeacon.Cli.Run.{Exit, failed}
use kbeacon.Cli.Settings.{
  CliConfig, supported_cli_config_keys, normalize_cli_config_key, set_cli_config_value,
  unset_cli_config_value, cli_config_value,
}
use kbeacon.Cli.ConfigFile.{System, cli_config_path, load_cli_config, save_cli_config}

-- The new state and what the command returns.
pub record Ran {ℓ} (S : Type ℓ) : Type ℓ where
  pub state : S
  pub exit : Exit

abbrev pub done : Text → Exit
done output = record { status = 0; stdout = line output; stderr = [] }

module _ {ℓ} {S : Type ℓ} (sys : System S) where
  abbrev pub stay : S → Exit → Ran S
  stay s exit = record { state = s; exit = exit }

  abbrev pub config_usage : Text
  config_usage =
      let cmd = command_usage_name sys.program in
      line (str "usage: " ++ (cmd ++ str " config <path|view|get|set|unset|reset> [args]"))
      ++ (line []
          ++ (line (str "Examples:")
              ++ (line (str "  " ++ (cmd ++ str " config set namespace kbeacon-system"))
                  ++ (line (str "  " ++ (cmd ++ str " config get namespace"))
                      ++ (line (str "  " ++ (cmd ++ str " config view"))
                          ++ (line (str "  " ++ (cmd ++ str " config unset namespace"))
                              ++ (line []
                                  ++ line
                                      (str "Supported keys: " ++ supported_cli_config_keys))))))))

  abbrev pub wrong_use : Text → Exit
  wrong_use command = failed 2 (usage sys.program command)

  abbrev pub wrong_use_of_key : Text → Exit
  wrong_use_of_key command = record {
    status = 2;
    stdout = [];
    stderr =
        line (usage sys.program command)
        ++ line (str "supported keys: " ++ supported_cli_config_keys);
  }

  abbrev pub show_path : Outcome Text Text → Exit
  show_path (ok path) = done path
  show_path (err message) = failed 1 (str "resolve config path: " ++ message)

  abbrev pub viewed : Outcome Text Text → Exit
  viewed (ok output) = record { status = 0; stdout = output; stderr = [] }
  viewed (err message) = failed 1 (str "encode CLI config: " ++ message)

  abbrev pub view : Outcome Text (CliConfig × Text) → Exit
  view (err message) = failed 1 (str "load CLI config: " ++ message)
  view (ok (cfg, path)) = viewed (sys.encode_view path cfg)

  abbrev pub get_loaded : Text → Outcome Text (CliConfig × Text) → Exit
  get_loaded key (err message) = failed 1 (str "load CLI config: " ++ message)
  get_loaded key (ok (cfg, path)) = done (cli_config_value cfg key)

  abbrev pub run_get : S → Text → Outcome Text Text → Ran S
  run_get s config_path (err message) = stay s (failed 2 message)
  run_get s config_path (ok key) = stay s (get_loaded key (load_cli_config sys s config_path))

  abbrev pub saved : (Text → Text) → S × Outcome Text Text → Ran S
  saved report (s, err message) = stay s (failed 1 (str "save CLI config: " ++ message))
  saved report (s, ok path) = stay s (done (report path))

  -- What `set` and `unset` do with the settings that were loaded.
  abbrev pub change :
      S → Text → (CliConfig → CliConfig) → (Text → Text) → Outcome Text (CliConfig × Text) → Ran S
  change s config_path update report (err message) =
      stay s (failed 1 (str "load CLI config: " ++ message))
  change s config_path update report (ok (cfg, path)) =
      saved report (save_cli_config sys s config_path (update cfg))

  abbrev pub set_report : Text → Text → Text → Text
  set_report key value path = str "set " ++ (key ++ (str "=" ++ (value ++ (str " in " ++ path))))

  abbrev pub run_set : S → Text → Text → Outcome Text Text → Ran S
  run_set s config_path value (err message) = stay s (failed 2 message)
  run_set s config_path value (ok key) =
      if value == []
      then stay s (failed 2 (str "config value for " ++ (key ++ str " cannot be empty")))
      else change s config_path (λ cfg. set_cli_config_value cfg key value) (set_report key value)
          (load_cli_config sys s config_path)

  abbrev pub run_unset : S → Text → Outcome Text Text → Ran S
  run_unset s config_path (err message) = stay s (failed 2 message)
  run_unset s config_path (ok key) =
      change s config_path (λ cfg. unset_cli_config_value cfg key)
        (λ path. str "unset " ++ (key ++ (str " in " ++ path))) (load_cli_config sys s config_path)

  abbrev pub removed : Text → S × Option (Bool × Text) → Ran S
  removed path (s, none) = stay s (done (str "reset " ++ path))
  removed path (s, some (true, message)) = stay s (done (str "reset " ++ path))
  removed path (s, some (false, message)) =
      stay s (failed 1 (str "remove CLI config " ++ (path ++ (str ": " ++ message))))

  abbrev pub run_reset : S → Outcome Text Text → Ran S
  run_reset s (err message) = stay s (failed 1 (str "resolve config path: " ++ message))
  run_reset s (ok path) = removed path (sys.remove s path)

  abbrev pub path_command : S → Text → List Text → Ran S
  path_command s config_path [] = stay s (show_path (cli_config_path sys config_path))
  path_command s config_path (_ ∷ _) = stay s (wrong_use (str "config path"))

  abbrev pub view_command : S → Text → List Text → Ran S
  view_command s config_path [] = stay s (view (load_cli_config sys s config_path))
  view_command s config_path (_ ∷ _) = stay s (wrong_use (str "config view"))

  abbrev pub get_command : S → Text → List Text → Ran S
  get_command s config_path (name ∷ []) =
      run_get s config_path (normalize_cli_config_key sys.quote name)
  get_command s config_path _ = stay s (wrong_use (str "config get <key>"))

  abbrev pub set_command : S → Text → List Text → Ran S
  set_command s config_path (name ∷ value ∷ []) =
      run_set s config_path (trim_space value) (normalize_cli_config_key sys.quote name)
  set_command s config_path _ = stay s (wrong_use_of_key (str "config set <key> <value>"))

  abbrev pub unset_command : S → Text → List Text → Ran S
  unset_command s config_path (name ∷ []) =
      run_unset s config_path (normalize_cli_config_key sys.quote name)
  unset_command s config_path _ = stay s (wrong_use_of_key (str "config unset <key>"))

  abbrev pub reset_command : S → Text → List Text → Ran S
  reset_command s config_path [] = run_reset s (cli_config_path sys config_path)
  reset_command s config_path (_ ∷ _) = stay s (wrong_use (str "config reset"))

  abbrev pub print_config_usage : S → Ran S
  print_config_usage s = stay s (record { status = 2; stdout = []; stderr = config_usage })

  -- The `switch` on the command, given the arguments after it.
  abbrev pub dispatch : S → Text → Text → List Text → Ran S
  dispatch s config_path command args =
      if command == str "path"
      then path_command s config_path args
      else if elem command (str "view" ∷ str "current" ∷ [])
      then view_command s config_path args
      else if command == str "get"
      then get_command s config_path args
      else if command == str "set"
      then set_command s config_path args
      else if command == str "unset"
      then unset_command s config_path args
      else if command == str "reset"
      then reset_command s config_path args
      else print_config_usage s

  unfoldable pub run_config : S → Text → List Text → Ran S
  run_config s config_path [] = print_config_usage s
  run_config s config_path (command ∷ args) =
      dispatch s config_path (to_lower (trim_space command)) args
