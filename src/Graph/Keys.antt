-- ===== src/Graph/Keys.antt =====
-- The keys of the graph's maps: `SecretID`, `WorkloadID` and `EdgeID` of internal/graph/cache.go.
pub mod Injective
use kbeacon.Prelude.{◌≡◌, refl, List, [], ◌∷◌, ◌++◌}
use kbeacon.Text.{Text, str, to_lower, join}
use kbeacon.Graph.Types.{SecretRef, WorkloadRef}

unfoldable pub edge_id : WorkloadRef → SecretRef → Text
edge_id w s =
    join (str "|") (w.cluster ∷ w.namespace ∷ to_lower w.kind ∷ w.name ∷ s.namespace ∷ s.name ∷ [])

unfoldable pub secret_id : SecretRef → Text
secret_id s = s.namespace ++ (str "/" ++ s.name)

unfoldable pub workload_id : WorkloadRef → Text
workload_id w = w.namespace ++ (str "/" ++ (to_lower w.kind ++ (str "/" ++ w.name)))
