-- ===== src/Discovery/Objects.antt =====
-- The fields of the Kubernetes API objects that internal/discovery reads, and its options. A pointer
-- that may be nil is an `Option`.
use kbeacon.Prelude.{ℕ, Bool, Option, List, [], ◌∷◌}
use kbeacon.Text.{Text, str}
use kbeacon.Dict.{Dict}
use kbeacon.Graph.Types.{DiscoveryMode}

pub record SecretKeySelector : Type 0 where
  pub name : Text
  pub key : Text
  pub optional : Option Bool

pub record EnvVarSource : Type 0 where
  pub secret_key_ref : Option SecretKeySelector

pub record EnvVar : Type 0 where
  pub name : Text
  pub value_from : Option EnvVarSource

pub record NamedSecret : Type 0 where
  pub name : Text
  pub optional : Option Bool

pub record EnvFromSource : Type 0 where
  pub secret_ref : Option NamedSecret

pub record Container : Type 0 where
  pub name : Text
  pub env : List EnvVar
  pub env_from : List EnvFromSource

pub record Projection : Type 0 where
  pub secret : Option NamedSecret

pub record Volume : Type 0 where
  pub name : Text
  pub secret : Option NamedSecret
  pub projected : Option (List Projection)

pub record PodSpec : Type 0 where
  pub containers : List Container
  pub init_containers : List Container
  pub ephemeral_containers : List Container
  pub volumes : List Volume
  pub image_pull_secrets : List Text
  pub service_account_name : Text

pub record ObjectMeta : Type 0 where
  pub namespace : Text
  pub name : Text
  pub uid : Text
  pub annotations : Dict Text
  pub labels : Dict Text

-- A workload with a pod template: Deployment, StatefulSet, DaemonSet, Job and CronJob.
pub record Templated : Type 0 where
  pub meta : ObjectMeta
  pub template_annotations : Dict Text
  pub template_labels : Dict Text
  pub spec : PodSpec

pub record Pod : Type 0 where
  pub meta : ObjectMeta
  pub spec : PodSpec

-- `tls` holds the Secret names of `spec.tls`.
pub record Ingress : Type 0 where
  pub meta : ObjectMeta
  pub tls : List Text

pub record Secret : Type 0 where
  pub meta : ObjectMeta
  pub type : Text
  pub resource_version : Text
  pub creation_timestamp : ℕ

pub record MetadataLabelKeyConfig : Type 0 where
  pub owner_team : List Text
  pub service : List Text
  pub environment : List Text
  pub criticality : List Text

unfoldable pub default_metadata_label_key_config : MetadataLabelKeyConfig
default_metadata_label_key_config = record {
  owner_team =
      str "app.kubernetes.io/team"
      ∷ str "team"
      ∷ str "owner-team"
      ∷ str "ownerTeam"
      ∷ str "technical-owner"
      ∷ str "technicalOwner"
      ∷ str "business-owner"
      ∷ str "businessOwner"
      ∷ [];
  service =
      str "app.kubernetes.io/name"
      ∷ str "app"
      ∷ str "service"
      ∷ str "service-name"
      ∷ str "serviceName"
      ∷ [];
  environment =
      str "app.kubernetes.io/environment" ∷ str "environment" ∷ str "env" ∷ str "stage" ∷ [];
  criticality =
      str "app.kubernetes.io/criticality"
      ∷ str "criticality"
      ∷ str "priority"
      ∷ str "tier"
      ∷ str "slo-tier"
      ∷ [];
}

pub record Options : Type 0 where
  pub cluster : Text
  pub default_mode : DiscoveryMode
  pub include_image_pull_secrets : Bool
  pub service_account_image_pull_secrets : Dict (List Text)
  pub include_init_containers : Bool
  pub include_ephemeral_containers : Bool
  pub read_pod_template_annotations : Bool
  pub redact_secret_keys : Bool
  pub metadata_labels_enabled : Bool
  pub metadata_label_keys : MetadataLabelKeyConfig

abbrev pub default_options : Text → Options
default_options cluster = record {
  cluster = cluster;
  default_mode = DiscoveryMode.hybrid;
  include_image_pull_secrets = Bool.true;
  service_account_image_pull_secrets = [];
  include_init_containers = Bool.true;
  include_ephemeral_containers = Bool.true;
  read_pod_template_annotations = Bool.true;
  redact_secret_keys = Bool.false;
  metadata_labels_enabled = Bool.true;
  metadata_label_keys = default_metadata_label_key_config;
}
