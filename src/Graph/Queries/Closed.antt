-- ===== src/Graph/Queries/Closed.antt =====
-- The dependency map after a rebuild: each edge has the node of its Secret.
use kbeacon.Prelude.{
  ◌≡◌, refl, ap, ◌∙◌, true, ◌||◌, some, List, [], ◌∷◌, ◌++◌, map, arith, All, Bool-cases, inl, inr,
}
use kbeacon.Rearrange.{elem-map-perm, All-perm}
use kbeacon.Sort.{sort_by, sort_by-perm}
use kbeacon.Text.{Text, str, ◌==◌, ==_iff, elem}
use kbeacon.Dict.{Dict, get, values, Entries, All-values}
use kbeacon.Graph.Types.{
  Time, DependencyEdge, SecretSummary, WorkloadInput, SecretInput, DependencyMapNode,
}
use kbeacon.Graph.Keys.{secret_id}
use kbeacon.Graph.Observe.{Cache}
use kbeacon.Graph.Cache.{apply_snapshot}
use kbeacon.Graph.Cache.Counts.{Rearranges}
use kbeacon.Graph.Cache.Keyed.{SecretAt, IsKeyed, apply_snapshot-IsKeyed}
use kbeacon.Graph.Cache.Links.{LinksTo, InputIsPipeFree, apply_snapshot-LinksTo}
use kbeacon.Graph.Queries.{
  snapshot, secret_key_of, edge_key_of, workload_node, secret_node, dependency_map,
}

abbrev pub id_of : DependencyMapNode → Text
id_of n = n.id

-- The id of the node of a Secret.
abbrev pub secret_node_id : Text → Text
secret_node_id key = str "secret:" ++ key

abbrev node_id_of : SecretSummary → Text
node_id_of s = secret_node_id (secret_id s.ref)

elem-nodes :
    (i : Text) (nodes : List DependencyMapNode) (ss : List SecretSummary)
    → elem i (map id_of (nodes ++ map secret_node ss))
      ≡ elem i (map id_of nodes) || elem i (map node_id_of ss)
unfolding elem
elem-nodes i [] [] = refl
elem-nodes i [] (s ∷ ss) = ground (arith, elem-nodes i [] ss)
elem-nodes i (n ∷ nodes) ss = ground (arith, elem-nodes i nodes ss)

elem-values :
    (cluster key : Text) (m : Dict SecretSummary) (s : SecretSummary)
    → Entries (SecretAt cluster) m
    → get key m ≡ some s
    → elem (secret_node_id key) (map node_id_of (values m)) ≡ true
unfolding elem get values
elem-values cluster key [] s h e = cc
elem-values cluster key ((k, v) ∷ m) s (at, h) e = elim (Bool-cases (k == key)) [
  | inl same ↦
      let here : node_id_of v == secret_node_id key ≡ true =
        (==_iff _ _).1 (ap secret_node_id (at.id ∙ (==_iff k key).0 same)) in
      rw here refl
  | inr other ↦ let rest = elem-values cluster key m s h (rw other at e) in ground arith
]

-- A listed Secret has a node.
elem-secret_node :
    (c : Cache) (later : Time) (key : Text) (s : SecretSummary)
    → IsKeyed c
    → get key c.secrets ≡ some s
    → elem (secret_node_id key) (map id_of (dependency_map c later).nodes) ≡ true
unfolding dependency_map snapshot
elem-secret_node c later key s keyed found =
    let listed = sort_by secret_key_of (values c.secrets) in
    let nodes = map workload_node (snapshot c later).workloads in
    let in_values = elem-values c.cluster key c.secrets s keyed.secrets found in
    let in_list =
      elem-map-perm node_id_of (secret_node_id key)
        (sort_by-perm secret_key_of (values c.secrets)) in
    elem-nodes (secret_node_id key) nodes listed ∙ ground (arith, in_list, in_values)

-- In the dependency map of a cache that was rebuilt from edges whose key parts hold no `|`, each edge
-- has the node of its Secret.
pub dependency_map-closed :
    (order : List DependencyEdge → List DependencyEdge) (c : Cache) (sis : List SecretInput)
    (wis : List WorkloadInput) (now later : Time)
    → Rearranges order
    → All InputIsPipeFree wis
    → All
        (λ e.
          elem
            (secret_node_id (secret_id e.secret))
            (map id_of (dependency_map (apply_snapshot order c sis wis now) later).nodes)
          ≡ true)
        (dependency_map (apply_snapshot order c sis wis now) later).edges
unfolding dependency_map snapshot
dependency_map-closed order c sis wis now later ok free =
    let built = apply_snapshot order c sis wis now in
    let keyed = apply_snapshot-IsKeyed order c sis wis now ok in
    All-perm _ (sort_by-perm edge_key_of (values built.edges)) (
      All-values (λ k e. LinksTo built.secrets e) _
        (λ k e links. elem-secret_node built later (secret_id e.secret) links.0 keyed links.1)
        built.edges (apply_snapshot-LinksTo order c sis wis now ok free))
