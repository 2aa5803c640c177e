-- ===== src/Graph/Cache.antt =====
-- `ApplySnapshot` of internal/graph/cache.go: one rebuild of the cache from what was listed.
pub mod Counts
pub mod History
pub mod Keyed
pub mod Links
use kbeacon.Prelude.{Option, List}
use kbeacon.Text.{Text}
use kbeacon.Dict.{Dict, values, map_values}
use kbeacon.Graph.Types.{Time, DependencyEdge, SecretSummary, SecretInput, WorkloadInput}
use kbeacon.Graph.Observe.{Cache, observe_secrets, observe_workloads}
use kbeacon.Graph.Aggregate.{
  Index, index_edges, add_placeholders, complete_secret, complete_workload,
}

-- `order` is the order in which the Go runtime ranges over the map of the new edges.
unfoldable pub apply_snapshot :
    (List DependencyEdge → List DependencyEdge)
    → Cache
    → List SecretInput
    → List WorkloadInput
    → Time
    → Cache
apply_snapshot order c secret_inputs workload_inputs now =
    let (new_secrets, new_versions) = observe_secrets c now secret_inputs in
    let (new_workloads, new_edges) = observe_workloads c now new_secrets workload_inputs in
    let ranged = order (values new_edges) in
    let index = index_edges ranged in
    record c {
      secrets = map_values (complete_secret index) (add_placeholders new_secrets ranged);
      workloads = map_values (complete_workload index) new_workloads;
      edges = new_edges;
      secret_versions = new_versions;
    }
