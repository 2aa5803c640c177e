-- ===== src/Config/Load.antt =====
-- `Load`, `ApplyEnv`, `Normalize` and `DiscoveryMode` of internal/config/config.go.
pub mod Complete
use kbeacon.Prelude.{
  ℕ, Bool, Option, none, some, Outcome, ok, err, ◌>>=◌, List, [], ◌∷◌, ◌++◌, eqb, if◌then◌else◌,
  some_or,
}
use kbeacon.Text.{Text, str, ◌==◌, trim_space, to_lower, decimal}
use kbeacon.Graph.Types.{DiscoveryMode, mode_text, infer, explicit, hybrid, disabled}
use kbeacon.Discovery.Objects.{default_metadata_label_key_config}
use kbeacon.Discovery.Metadata.{or_list}
use kbeacon.Config.Types.{Config, MetadataLabelsConfig, default_config, default_excluded}
use kbeacon.Config.Csv.{split_csv}

-- A setting that is kept unless it is empty.
abbrev pub or_default : Text → Text → Text
or_default [] default = default
or_default (c ∷ s) default = c ∷ s

abbrev pub or_port : ℕ → ℕ → ℕ
or_port port default = if eqb port 0 then default else port

unfoldable pub normalize_metadata_labels : MetadataLabelsConfig → MetadataLabelsConfig
normalize_metadata_labels labels =
    let defaults = default_metadata_label_key_config in
    record {
      enabled = labels.enabled;
      owner_team = or_list labels.owner_team defaults.owner_team;
      service = or_list labels.service defaults.service;
      environment = or_list labels.environment defaults.environment;
      criticality = or_list labels.criticality defaults.criticality;
    }

unfoldable pub normalize : Config → Config
unfolding normalize_metadata_labels
normalize c =
    let d = c.discovery in
    record c {
      cluster = record c.cluster { name = or_default c.cluster.name (str "dev-cluster") };
      log = record { level = or_default c.log.level (str "info") };
      agent = record {
        http = record { port = or_port c.agent.http.port 8080 };
        shutdown_grace_period = or_default c.agent.shutdown_grace_period (str "15s");
      };
      discovery = record d {
        default_mode = or_default d.default_mode (mode_text hybrid);
        metadata_labels = normalize_metadata_labels d.metadata_labels;
        resync_interval = or_default d.resync_interval (str "10h");
        reconcile = record { debounce = or_default d.reconcile.debounce (str "250ms") };
        namespaces = record {
          include = d.namespaces.include;
          exclude = or_list d.namespaces.exclude default_excluded;
        };
      };
    }

-- A setting that a variable of the environment replaces, unless the variable is empty.
abbrev pub over : Text → Text → Text
over value old = or_default value old

abbrev pub over_list : Text → List Text → List Text
over_list value old = if value == [] then old else split_csv value

-- `fmt.Errorf("… config file %q: %w", …)`
abbrev pub in_file {ℓ} :
    {A : Type ℓ} → (Text → Text) → Text → Text → Outcome Text A → Outcome Text A
in_file quote what path (ok a) = ok a
in_file quote what path (err message) =
    err (what ++ (str " config file " ++ (quote path ++ (str ": " ++ message))))

-- `os.Getenv` and `strconv.ParseBool`.
module _ (getenv : Text → Text) (parse_bool : Text → Option Bool) where
  abbrev pub over_bool : Text → Bool → Bool
  over_bool value old = if value == [] then old else some_or old (parse_bool value)

  unfoldable pub apply_env : Config → Config
  apply_env c =
      let d = c.discovery in
      record c {
        cluster = record c.cluster {
          name = over (getenv (str "KBEACON_CLUSTER_NAME")) c.cluster.name;
        };
        log = record { level = over (getenv (str "KBEACON_LOG_LEVEL")) c.log.level };
        discovery = record d {
          resync_interval = over (getenv (str "KBEACON_RESYNC_INTERVAL")) d.resync_interval;
          reconcile = record {
            debounce = over (getenv (str "KBEACON_REBUILD_DEBOUNCE")) d.reconcile.debounce;
          };
          namespaces = record {
            include = over_list (getenv (str "KBEACON_INCLUDE_NAMESPACES")) d.namespaces.include;
            exclude = over_list (getenv (str "KBEACON_EXCLUDE_NAMESPACES")) d.namespaces.exclude;
          };
          include_image_pull_secrets =
              over_bool (getenv (str "KBEACON_INCLUDE_IMAGE_PULL_SECRETS"))
                d.include_image_pull_secrets;
        };
        privacy = record {
          redaction = record {
            secret_keys =
                over_bool (getenv (str "KBEACON_REDACT_SECRET_KEYS"))
                  c.privacy.redaction.secret_keys;
          };
        };
      }

  -- `%q`, `os.ReadFile` and `yaml.Unmarshal` into a configuration that has values.
  module _ (quote : Text → Text) (read_file : Text → Outcome Text Text)
      (unmarshal : Text → Config → Outcome Text Config) where
    abbrev pub load_file : Text → Outcome Text Config
    load_file path = do
      raw ← in_file quote (str "read") path (read_file path)
      cfg ← in_file quote (str "parse") path (unmarshal raw default_config)
      ok (apply_env (normalize cfg))

    unfoldable pub load : Text → Outcome Text Config
    unfolding normalize apply_env
    load path = if trim_space path == [] then ok (apply_env default_config) else load_file path

unfoldable pub http_bind_address : Config → Text
http_bind_address c = str ":" ++ decimal c.agent.http.port

unfoldable pub discovery_mode : Config → DiscoveryMode
discovery_mode c =
    let mode = to_lower (trim_space c.discovery.default_mode) in
    if mode == str "infer"
    then infer
    else if mode == str "explicit"
    then explicit
    else if mode == str "disabled"
    then disabled
    else hybrid
