-- ===== src/Metrics/Collector.antt =====
-- The graph collector of internal/metrics/collector.go. A description keeps its name and its variable
-- labels; the help texts are left out. What `Collect` sends on its channel is a list.
pub mod Fits
pub mod Series
pub mod Labels
pub mod Distinct
use kbeacon.Prelude.{
  ℕ, ◌+◌, Bool, true, false, List, [], ◌∷◌, ◌++◌, if◌then◌else◌, eqb, length, loop,
}
use kbeacon.Text.{Text, str}
use kbeacon.Graph.Types.{Time, mode_text, DependencyEdge, SecretSummary, WorkloadSummary, Snapshot}
use kbeacon.Graph.Observe.{Cache}
use kbeacon.Graph.Queries.{snapshot}

-- `prometheus.Desc`, and the two kinds of values.
pub record Desc : Type 0 where
  pub name : Text
  pub labels : List Text

pub data ValueType : Type 0 where
  gauge_value counter_value : ValueType

-- The arguments of `prometheus.MustNewConstMetric`.
pub record Metric : Type 0 where
  pub desc : Desc
  pub value_type : ValueType
  pub value : ℕ
  pub labels : List Text

pub record GraphCollector : Type 0 where
  pub graph : Cache
  pub cluster : Text
  pub version : Text
  pub commit : Text
  pub emit_edges : Bool

abbrev pub build_info : Desc
build_info = record {
  name = str "kbeacon_build_info";
  labels = str "version" ∷ str "commit" ∷ str "go_version" ∷ [];
}

abbrev pub cluster_desc : Text → Desc
cluster_desc name = record { name = name; labels = str "cluster" ∷ [] }

abbrev pub cluster_dependency_count : Desc
cluster_dependency_count = cluster_desc (str "kbeacon_cluster_dependency_count")

abbrev pub cluster_secret_count : Desc
cluster_secret_count = cluster_desc (str "kbeacon_cluster_secret_count")

abbrev pub cluster_workload_count : Desc
cluster_workload_count = cluster_desc (str "kbeacon_cluster_workload_count")

abbrev pub dependency_edges : Desc
dependency_edges = record {
  name = str "kbeacon_dependency_edges";
  labels =
      str "cluster"
      ∷ str "workload_namespace"
      ∷ str "workload_kind"
      ∷ str "workload_name"
      ∷ str "secret_namespace"
      ∷ str "secret_name"
      ∷ str "discovery_mode"
      ∷ str "owner_team"
      ∷ str "criticality"
      ∷ str "resolved"
      ∷ str "optional"
      ∷ [];
}

abbrev pub workload_dependency_count : Desc
workload_dependency_count = record {
  name = str "kbeacon_workload_dependency_count";
  labels =
      str "cluster"
      ∷ str "namespace"
      ∷ str "workload_kind"
      ∷ str "workload_name"
      ∷ str "owner_team"
      ∷ str "criticality"
      ∷ [];
}

-- The labels of a Secret's metrics, and of those that also tell its owner.
abbrev pub secret_desc : Text → List Text → Desc
secret_desc name more = record {
  name = name;
  labels = str "cluster" ∷ str "namespace" ∷ str "secret_name" ∷ more;
}

abbrev pub owner_labels : List Text
owner_labels = str "owner_team" ∷ str "criticality" ∷ str "exists" ∷ []

abbrev pub secret_affected_workload_count : Desc
secret_affected_workload_count =
    secret_desc (str "kbeacon_secret_affected_workload_count") owner_labels

abbrev pub secret_impact_score : Desc
secret_impact_score = secret_desc (str "kbeacon_secret_impact_score") owner_labels

abbrev pub secret_last_changed_timestamp : Desc
secret_last_changed_timestamp = secret_desc (str "kbeacon_secret_last_changed_timestamp_seconds") []

abbrev pub secret_changes_total : Desc
secret_changes_total = secret_desc (str "kbeacon_secret_changes_total") []

abbrev pub secret_info : Desc
secret_info = secret_desc (str "kbeacon_secret_info") (str "type" ∷ owner_labels)

abbrev pub unresolved_secret_references : Desc
unresolved_secret_references = secret_desc (str "kbeacon_unresolved_secret_references") []

unfoldable pub describe : GraphCollector → List Desc
describe c =
    build_info
    ∷ cluster_dependency_count
    ∷ cluster_secret_count
    ∷ cluster_workload_count
    ∷ ((if c.emit_edges then dependency_edges ∷ [] else [])
        ++ (workload_dependency_count ∷ secret_affected_workload_count ∷ secret_impact_score
            ∷ secret_last_changed_timestamp ∷ secret_changes_total ∷ secret_info
            ∷ unresolved_secret_references ∷ []))

abbrev pub gauge : Desc → ℕ → List Text → Metric
gauge desc value labels = record {
  desc = desc;
  value_type = ValueType.gauge_value;
  value = value;
  labels = labels;
}

-- `strconv.FormatBool`
abbrev pub format_bool : Bool → Text
format_bool b = if b then str "true" else str "false"

unfoldable pub observed_secret_count : List SecretSummary → ℕ
observed_secret_count secrets = loop (λ n s. if s.present then n + 1 else n) 0 secrets

unfoldable pub edge_metric : DependencyEdge → Metric
edge_metric e = gauge dependency_edges 1 (
    e.cluster
    ∷ e.workload.namespace
    ∷ e.workload.kind
    ∷ e.workload.name
    ∷ e.secret.namespace
    ∷ e.secret.name
    ∷ mode_text e.discovery_mode
    ∷ e.owner_team
    ∷ e.criticality
    ∷ format_bool e.resolved
    ∷ format_bool e.optional
    ∷ [])

unfoldable pub workload_metric : WorkloadSummary → Metric
workload_metric w =
    gauge workload_dependency_count w.dependency_count (
      w.ref.cluster ∷ w.ref.namespace ∷ w.ref.kind ∷ w.ref.name ∷ w.owner_team ∷ w.criticality ∷ [])

abbrev pub secret_labels : SecretSummary → List Text → List Text
secret_labels s more = s.ref.cluster ∷ s.ref.namespace ∷ s.ref.name ∷ more

abbrev pub owned_labels : SecretSummary → List Text
owned_labels s = s.owner_team ∷ s.criticality ∷ format_bool s.present ∷ []

-- `unix` gives the Unix seconds of a time.
unfoldable pub secret_metrics : (Time → ℕ) → SecretSummary → List Metric
secret_metrics unix s =
    gauge secret_affected_workload_count s.affected_workload_count
      (secret_labels s (owned_labels s))
    ∷ gauge secret_impact_score s.impact_score (secret_labels s (owned_labels s))
    ∷ gauge secret_info 1 (secret_labels s (s.type ∷ owned_labels s))
    ∷ ((if eqb s.last_observed_change_time 0
          then []
          else gauge secret_last_changed_timestamp (unix s.last_observed_change_time)
              (secret_labels s [])
            ∷ [])
        ++ (record {
          desc = secret_changes_total;
          value_type = ValueType.counter_value;
          value = s.observed_change_count;
          labels = secret_labels s [];
        }
            ∷ (if eqb s.unresolved_reference_count 0
                then []
                else gauge unresolved_secret_references s.unresolved_reference_count
                    (secret_labels s [])
                  ∷ [])))

-- A loop that sends what each element gives.
abbrev pub send {ℓ} : {A : Type ℓ} → (A → List Metric) → List A → List Metric
send f [] = []
send f (x ∷ xs) = f x ++ send f xs

-- The metrics of the cluster. `go_version` is `runtime.Version()`.
unfoldable pub cluster_metrics : Text → GraphCollector → Snapshot → List Metric
unfolding observed_secret_count
cluster_metrics go_version c snap =
    gauge build_info 1 (c.version ∷ c.commit ∷ go_version ∷ [])
    ∷ gauge cluster_dependency_count (length snap.edges) (c.cluster ∷ [])
    ∷ gauge cluster_secret_count (observed_secret_count snap.secrets) (c.cluster ∷ [])
    ∷ gauge cluster_workload_count (length snap.workloads) (c.cluster ∷ [])
    ∷ []

-- `now` is the time of the snapshot.
unfoldable pub collect : (Time → ℕ) → Text → Time → GraphCollector → List Metric
collect unix go_version now c =
    let snap = snapshot c.graph now in
    cluster_metrics go_version c snap
    ++ ((if c.emit_edges then send (λ e. edge_metric e ∷ []) snap.edges else [])
        ++ (send (λ w. workload_metric w ∷ []) snap.workloads
            ++ send (secret_metrics unix) snap.secrets))
