-- ===== src/Graph/Types.antt =====
-- internal/graph/types.go: the records of the dependency graph.
-- A time is a number, and 0 is the zero time of Go (`IsZero`). `float64` scores are whole numbers.
use kbeacon.Prelude.{ℕ, Bool, false, List, []}
use kbeacon.Text.{Text, str}

-- The named string type; `unset` is the empty string.
pub data DiscoveryMode : Type 0 where
  unset infer explicit hybrid disabled : DiscoveryMode

abbrev pub mode_text : DiscoveryMode → Text
mode_text unset = []
mode_text infer = str "infer"
mode_text explicit = str "explicit"
mode_text hybrid = str "hybrid"
mode_text disabled = str "disabled"

abbrev pub mode_eq : DiscoveryMode → DiscoveryMode → Bool
mode_eq unset unset = Bool.true
mode_eq infer infer = Bool.true
mode_eq explicit explicit = Bool.true
mode_eq hybrid hybrid = Bool.true
mode_eq disabled disabled = Bool.true
mode_eq _ _ = false

abbrev pub Time : Type 0
Time = ℕ

pub record SecretRef : Type 0 where
  pub cluster : Text
  pub namespace : Text
  pub name : Text
  pub key : Text

pub record WorkloadRef : Type 0 where
  pub cluster : Text
  pub namespace : Text
  pub api_version : Text
  pub kind : Text
  pub name : Text
  pub uid : Text

pub record DependencySource : Type 0 where
  pub type : Text
  pub path : Text
  pub container : Text
  pub init_container : Text
  pub ephemeral : Bool
  pub volume : Text
  pub env_var : Text
  pub annotation : Text
  pub resource_field : Text

pub record DependencyEdge : Type 0 where
  pub id : Text
  pub cluster : Text
  pub workload : WorkloadRef
  pub secret : SecretRef
  pub discovery_mode : DiscoveryMode
  pub sources : List DependencySource
  pub optional : Bool
  pub resolved : Bool
  pub owner_team : Text
  pub criticality : Text
  pub purpose : Text
  pub first_observed_at : Time
  pub last_observed_at : Time

pub record SecretSummary : Type 0 where
  pub ref : SecretRef
  pub present : Bool
  pub type : Text
  pub owner_team : Text
  pub criticality : Text
  pub last_observed_change_time : Time
  pub observed_change_count : ℕ
  pub affected_workload_count : ℕ
  pub affected_team_count : ℕ
  pub affected_namespace_count : ℕ
  pub unresolved_reference_count : ℕ
  pub impact_score : ℕ

pub record WorkloadSummary : Type 0 where
  pub ref : WorkloadRef
  pub owner_team : Text
  pub service : Text
  pub environment : Text
  pub criticality : Text
  pub discovery_mode : DiscoveryMode
  pub dependency_count : ℕ
  pub unresolved_count : ℕ

pub record SecretInput : Type 0 where
  pub ref : SecretRef
  pub type : Text
  pub owner_team : Text
  pub criticality : Text
  pub resource_version : Text
  pub creation_timestamp : Time

pub record WorkloadInput : Type 0 where
  pub ref : WorkloadRef
  pub owner_team : Text
  pub service : Text
  pub environment : Text
  pub criticality : Text
  pub discovery_mode : DiscoveryMode
  pub edges : List DependencyEdge

pub record Snapshot : Type 0 where
  pub cluster : Text
  pub generated_at : Time
  pub secrets : List SecretSummary
  pub workloads : List WorkloadSummary
  pub edges : List DependencyEdge

-- The `Ref any` of a node.
pub data NodeRef : Type 0 where
  workload : WorkloadRef → NodeRef
  secret : SecretRef → NodeRef

pub record DependencyMapNode : Type 0 where
  pub id : Text
  pub type : Text
  pub label : Text
  pub ref : NodeRef
  pub owner_team : Text
  pub criticality : Text
  pub impact_score : ℕ

pub record DependencyMap : Type 0 where
  pub nodes : List DependencyMapNode
  pub edges : List DependencyEdge

pub record AffectedTeam : Type 0 where
  pub owner_team : Text
  pub workload_count : ℕ

pub record SecretImpactSummary : Type 0 where
  pub affected_workload_count : ℕ
  pub affected_team_count : ℕ
  pub affected_namespace_count : ℕ
  pub unresolved_reference_count : ℕ
  pub discovery_modes : List (Text × ℕ)

pub record SecretImpact : Type 0 where
  pub secret : SecretSummary
  pub summary : SecretImpactSummary
  pub affected_teams : List AffectedTeam
  pub affected_workloads : List WorkloadSummary
  pub edges : List DependencyEdge

pub record WorkloadDependency : Type 0 where
  pub secret : SecretSummary
  pub discovery_mode : DiscoveryMode
  pub resolved : Bool
  pub optional : Bool
  pub sources : List DependencySource

pub record WorkloadDependencies : Type 0 where
  pub workload : WorkloadSummary
  pub dependencies : List WorkloadDependency
