-- ===== src/Config/Types.antt =====
-- The records of internal/config/config.go, and the defaults.
use kbeacon.Prelude.{ℕ, Bool, true, false, List, [], ◌∷◌}
use kbeacon.Text.{Text, str}
use kbeacon.Graph.Types.{mode_text, hybrid}
use kbeacon.Discovery.Objects.{MetadataLabelKeyConfig, default_metadata_label_key_config}

pub record ClusterConfig : Type 0 where
  pub name : Text
  pub environment : Text
  pub region : Text

pub record LogConfig : Type 0 where
  pub level : Text

-- A negative port is not represented.
pub record HttpConfig : Type 0 where
  pub port : ℕ

pub record AgentConfig : Type 0 where
  pub http : HttpConfig
  pub shutdown_grace_period : Text

pub record MetadataLabelsConfig : Type 0 where
  pub enabled : Bool
  pub owner_team : List Text
  pub service : List Text
  pub environment : List Text
  pub criticality : List Text

pub record NamespaceSelectorConfig : Type 0 where
  pub include : List Text
  pub exclude : List Text

pub record ReconcileConfig : Type 0 where
  pub debounce : Text

pub record DiscoveryConfig : Type 0 where
  pub default_mode : Text
  pub include_image_pull_secrets : Bool
  pub include_init_containers : Bool
  pub include_ephemeral_containers : Bool
  pub read_pod_template_annotations : Bool
  pub metadata_labels : MetadataLabelsConfig
  pub namespaces : NamespaceSelectorConfig
  pub resync_interval : Text
  pub reconcile : ReconcileConfig

-- `Edge.Enabled` and `Runtime.Enabled`.
pub record MetricsConfig : Type 0 where
  pub edge_enabled : Bool
  pub runtime_enabled : Bool

pub record RedactionConfig : Type 0 where
  pub secret_keys : Bool

pub record PrivacyConfig : Type 0 where
  pub redaction : RedactionConfig

-- The fields of all its groups: `Core`, `Apps`, `Networking`, `CertManager` and so on.
pub record ResourcesToWatchConfig : Type 0 where
  pub secrets : Bool
  pub service_accounts : Bool
  pub pods : Bool
  pub deployments : Bool
  pub replica_sets : Bool
  pub stateful_sets : Bool
  pub daemon_sets : Bool
  pub ingresses : Bool
  pub certificates : Bool
  pub external_secrets : Bool
  pub secret_provider_classes : Bool
  pub kafka_connectors : Bool
  pub connectors : Bool
  pub jobs : Bool
  pub cron_jobs : Bool

pub record Config : Type 0 where
  pub api_version : Text
  pub kind : Text
  pub cluster : ClusterConfig
  pub log : LogConfig
  pub agent : AgentConfig
  pub discovery : DiscoveryConfig
  pub metrics : MetricsConfig
  pub privacy : PrivacyConfig
  pub resources_to_watch : ResourcesToWatchConfig

abbrev pub default_excluded : List Text
default_excluded = str "kube-system" ∷ str "kube-public" ∷ str "kube-node-lease" ∷ []

abbrev default_labels : MetadataLabelKeyConfig
default_labels = default_metadata_label_key_config

-- `Default`
abbrev pub default_config : Config
default_config = record {
  api_version = str "kbeacon.io/v1alpha1";
  kind = str "AgentConfig";
  cluster = record { name = str "dev-cluster"; environment = []; region = [] };
  log = record { level = str "info" };
  agent = record { http = record { port = 8080 }; shutdown_grace_period = str "15s" };
  discovery = record {
    default_mode = mode_text hybrid;
    include_image_pull_secrets = true;
    include_init_containers = true;
    include_ephemeral_containers = true;
    read_pod_template_annotations = true;
    metadata_labels = record {
      enabled = true;
      owner_team = default_labels.owner_team;
      service = default_labels.service;
      environment = default_labels.environment;
      criticality = default_labels.criticality;
    };
    namespaces = record { include = []; exclude = default_excluded };
    resync_interval = str "10h";
    reconcile = record { debounce = str "250ms" };
  };
  metrics = record { edge_enabled = true; runtime_enabled = true };
  privacy = record { redaction = record { secret_keys = false } };
  resources_to_watch = record {
    secrets = true;
    service_accounts = true;
    pods = true;
    deployments = true;
    replica_sets = true;
    stateful_sets = true;
    daemon_sets = true;
    ingresses = true;
    certificates = false;
    external_secrets = false;
    secret_provider_classes = false;
    kafka_connectors = false;
    connectors = false;
    jobs = true;
    cron_jobs = true;
  };
}
