-- ===== src/Metrics/Runtime.antt =====
-- The collector of internal/metrics/runtime.go.
pub mod Described
use kbeacon.Prelude.{ℕ, Bool, Option, none, some, List, [], ◌∷◌, ◌++◌, if◌then◌else◌, length}
use kbeacon.Text.{Text, str}
use kbeacon.Dict.{Dict}
use kbeacon.Graph.Types.{Time, Snapshot}
use kbeacon.Graph.Observe.{Cache}
use kbeacon.Graph.Queries.{snapshot}
use kbeacon.Metrics.Collector.{Desc, Metric, gauge, send}

pub record RuntimeCollector : Type 0 where
  pub graph : Cache
  pub cluster : Text
  pub version : Text
  pub commit : Text

abbrev pub agent_info : Desc
agent_info = record {
  name = str "kbeacon_agent_info";
  labels = str "cluster" ∷ str "version" ∷ str "commit" ∷ [];
}

abbrev pub cache_sync_desc : Desc
cache_sync_desc = record {
  name = str "kbeacon_cache_sync_status";
  labels = str "cluster" ∷ str "resource" ∷ [];
}

abbrev pub cache_objects : Desc
cache_objects = record {
  name = str "kbeacon_cache_objects";
  labels = str "cluster" ∷ str "resource" ∷ [];
}

abbrev pub runtime_describe : List Desc
runtime_describe = agent_info ∷ cache_sync_desc ∷ cache_objects ∷ []

module _ (c : RuntimeCollector) where
  unfoldable pub sync_metric : Text × Bool → Metric
  sync_metric (resource, synced) =
      gauge cache_sync_desc (if synced then 1 else 0) (c.cluster ∷ resource ∷ [])

  unfoldable pub objects_metric : Text × ℕ → Metric
  objects_metric (resource, count) = gauge cache_objects count (c.cluster ∷ resource ∷ [])

  -- The counts of a snapshot, for a collector without a function that tells them.
  abbrev pub counts_of : Snapshot → Dict ℕ
  counts_of snap =
      (str "Secret", length snap.secrets)
      ∷ (str "Workload", length snap.workloads)
      ∷ (str "DependencyEdge", length snap.edges)
      ∷ []

  abbrev pub some_counts : Time → Option (Dict ℕ) → Dict ℕ
  some_counts now none = counts_of (snapshot c.graph now)
  some_counts now (some counts) = counts

  abbrev pub no_statuses : Option (Dict Bool) → Dict Bool
  no_statuses none = []
  no_statuses (some statuses) = statuses

  -- What the functions `status` and `counts` return, in the order in which the maps are ranged over,
  -- `none` for one that is nil.
  unfoldable pub runtime_collect : Time → Option (Dict Bool) → Option (Dict ℕ) → List Metric
  unfolding sync_metric objects_metric
  runtime_collect now statuses counts =
      gauge agent_info 1 (c.cluster ∷ c.version ∷ c.commit ∷ [])
      ∷ (send (λ s. sync_metric s ∷ []) (no_statuses statuses)
          ++ send (λ n. objects_metric n ∷ []) (some_counts now counts))
