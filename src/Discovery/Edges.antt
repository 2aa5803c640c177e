-- ===== src/Discovery/Edges.antt =====
-- What every edge that internal/discovery gives to a workload has in common, wherever it was found.
pub mod Found
pub mod Workloads
pub mod Customs
use kbeacon.Prelude.{◌≡◌, ◌≢◌, refl, Bool, [], All, List, ◌∷◌, subst, sym}
use kbeacon.Text.{Text}
use kbeacon.Graph.Types.{DiscoveryMode, WorkloadRef, SecretRef, DependencySource, DependencyEdge}
use kbeacon.Graph.Keys.{edge_id}
use kbeacon.Discovery.Infer.{new_edge}
use kbeacon.Discovery.Infer.Sound.{IsInferred}
use kbeacon.Discovery.Merge.{merge}

-- The edge joins the workload to a Secret that can exist, one of the cluster with a namespace and a
-- name, under the id of the two, and the Secret's key is not recorded.
pub record IsEdgeOf (cluster : Text) (workload : WorkloadRef) (e : DependencyEdge) : Type 0 where
  pub of_workload : e.workload ≡ workload
  pub of_cluster : (e.cluster ≡ cluster) × (e.secret.cluster ≡ cluster)
  pub has_namespace : e.secret.namespace ≢ []
  pub has_name : e.secret.name ≢ []
  pub keyless : e.secret.key ≡ []
  pub keyed : e.id ≡ edge_id workload e.secret

module _ (cluster : Text) (workload : WorkloadRef) where
  pub new_edge-IsEdgeOf :
      (namespace name : Text) (optional : Bool) (mode : DiscoveryMode) (source : DependencySource)
      → namespace ≢ []
      → name ≢ []
      → IsEdgeOf cluster workload (new_edge cluster workload namespace name optional mode source)
  unfolding new_edge
  new_edge-IsEdgeOf namespace name optional mode source hn hm = record {
    of_workload = refl;
    of_cluster = (refl, refl);
    has_namespace = hn;
    has_name = hm;
    keyless = refl;
    keyed = refl;
  }

  -- What is inferred from a pod spec, in a workload that has a namespace.
  inferred-IsEdgeOf :
      (e : DependencyEdge)
      → workload.namespace ≢ []
      → IsInferred cluster workload e
      → IsEdgeOf cluster workload e
  inferred-IsEdgeOf e there h = record {
    of_workload = h.of_workload;
    of_cluster = h.of_cluster;
    has_namespace = subst (λ n. n ≢ []) (sym h.same_namespace) there;
    has_name = h.named;
    keyless = h.keyless;
    keyed = h.keyed;
  }

  pub All-inferred-IsEdgeOf :
      (es : List DependencyEdge)
      → workload.namespace ≢ []
      → All (IsInferred cluster workload) es
      → All (IsEdgeOf cluster workload) es
  All-inferred-IsEdgeOf [] there h = tt
  All-inferred-IsEdgeOf (e ∷ es) there (p, h) =
      (inferred-IsEdgeOf e there p, All-inferred-IsEdgeOf es there h)

  pub merge-IsEdgeOf :
      (old e : DependencyEdge)
      → IsEdgeOf cluster workload old
      → IsEdgeOf cluster workload (merge old e)
  unfolding merge
  merge-IsEdgeOf old e h = record {
    of_workload = h.of_workload;
    of_cluster = h.of_cluster;
    has_namespace = h.has_namespace;
    has_name = h.has_name;
    keyless = h.keyless;
    keyed = h.keyed;
  }
