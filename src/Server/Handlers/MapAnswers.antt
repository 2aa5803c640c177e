-- ===== src/Server/Handlers/MapAnswers.antt =====
-- What the handler of the dependency map answers.
use kbeacon.Prelude.{
  Outcome, ok, err, ℕ, zero, suc, ◌≤◌, ◌≡◌, ◌⊎◌, refl, ap, ◌∙◌, Bool, true, ◌&&◌, ◌||◌, Option,
  List, [], ◌∷◌, ◌++◌, map, arith, length, take, drop, keep, loop, All, Bool-cases, inl, inr,
}
use kbeacon.Text.{Text, str, ◌==◌, ==_iff, elem}
use kbeacon.Dict.Sets.{add, elem-add}
use kbeacon.Graph.Types.{Time, DependencyEdge, DependencyMapNode, DependencyMap}
use kbeacon.Graph.Keys.{secret_id, workload_id}
use kbeacon.Graph.Observe.{Cache}
use kbeacon.Graph.Queries.{dependency_map}
use kbeacon.Server.Page.{PaginationRequest, PaginationResponse, paginate}
use kbeacon.Server.Page.Walk.{paginate-returned}
use kbeacon.Server.Query.{Values, max_limit, parse_pagination, bool_query_param}
use kbeacon.Server.Query.Accepted.{parse_pagination-bounds}
use kbeacon.Server.Handlers.{
  map_page, failure, edge_matches, needed_nodes, nodes_for_edges, dependency_map_handler,
}

module _ {ℓ} {A : Type ℓ} (p : A → Bool) where
  abbrev Passes : A → Type 0
  Passes x = p x ≡ true

  All-keep : (xs : List A) → All Passes (keep p xs)
  All-keep [] = tt
  All-keep (x ∷ xs) = elim (Bool-cases (p x)) [
    | inl e ↦ rw e (e, All-keep xs)
    | inr e ↦ rw e (All-keep xs)
  ]

  All-take : (n : ℕ) (xs : List A) → All Passes xs → All Passes (take n xs)
  All-take zero xs h = tt
  All-take (suc n) [] h = tt
  All-take (suc n) (x ∷ xs) (q, h) = (q, All-take n xs h)

  All-drop : (n : ℕ) (xs : List A) → All Passes xs → All Passes (drop n xs)
  All-drop zero xs h = h
  All-drop (suc n) [] h = tt
  All-drop (suc n) (x ∷ xs) (q, h) = All-drop n xs h

-- A page of the listed items that pass a test: it holds only such items, says how many it holds, at
-- most as many as its limit, which is at most 1000, and says how many there are in all.
pub record IsPage {ℓ} {A : Type ℓ} (p : A → Bool) (listed page : List A)
    (pagination : PaginationResponse) : Type ℓ where
  pub passing : All (λ x. p x ≡ true) page
  pub counted : length page ≡ pagination.returned
  pub limited : (pagination.returned ≤ pagination.limit) × (pagination.limit ≤ max_limit)
  pub total : pagination.total ≡ length (keep p listed)

paginate-IsPage {ℓ} :
    {A : Type ℓ} (p : A → Bool) (listed : List A) (request : PaginationRequest)
    → request.limit ≤ max_limit
    → IsPage p listed (paginate (keep p listed) request).0 (paginate (keep p listed) request).1
unfolding paginate
paginate-IsPage p listed request h =
    let (counted, bounded, total) = paginate-returned (keep p listed) request in
    record {
      passing = All-take p _ _ (All-drop p _ (keep p listed) (All-keep p listed));
      counted = counted;
      limited = (omega (arith, bounded), h);
      total = total;
    }

abbrev pub endpoints : List DependencyEdge → List Text
endpoints [] = []
endpoints (e ∷ es) =
    (str "workload:" ++ workload_id e.workload)
    ∷ (str "secret:" ++ secret_id e.secret)
    ∷ endpoints es

abbrev node_id : DependencyMapNode → Text
node_id n = n.id

elem-loop :
    (i : Text) (s : List Text) (es : List DependencyEdge)
    → elem i (
        loop
          (λ needed e.
            add
              (add needed (str "workload:" ++ workload_id e.workload))
              (str "secret:" ++ secret_id e.secret))
          s
          es)
      ≡ elem i s || elem i (endpoints es)
unfolding elem
elem-loop i s [] = ground arith
elem-loop i s (e ∷ es) =
    let w = str "workload:" ++ workload_id e.workload in
    let k = str "secret:" ++ secret_id e.secret in
    ground (arith, elem-loop i (add (add s w) k) es, elem-add (add s w) k i, elem-add s w i)

elem-needed_nodes :
    (i : Text) (edges : List DependencyEdge)
    → elem i (needed_nodes edges) ≡ elem i (endpoints edges)
unfolding needed_nodes
elem-needed_nodes i edges = unfold elem in elem-loop i [] edges

elem-keep :
    (i : Text) (ids : List Text) (nodes : List DependencyMapNode)
    → elem i (map node_id (keep (λ n. elem n.id ids) nodes))
      ≡ elem i (map node_id nodes) && elem i ids
unfolding elem
elem-keep i ids [] = refl
elem-keep i ids (n ∷ nodes) = elim (Bool-cases (n.id == i)) [
  | inl e ↦
      let same = ap (λ x. elem x ids) ((==_iff n.id i).0 e) in ground (arith, elem-keep i ids nodes)
  | inr e ↦ ground (arith, elem-keep i ids nodes)
]

-- The nodes given with some edges are, among the given nodes, exactly those that stand for the
-- workload or the Secret of one of the edges.
pub elem-nodes_for_edges :
    (i : Text) (nodes : List DependencyMapNode) (edges : List DependencyEdge)
    → elem i (map node_id (nodes_for_edges nodes edges))
      ≡ elem i (map node_id nodes) && elem i (endpoints edges)
unfolding nodes_for_edges
elem-nodes_for_edges i nodes edges =
    elem-keep i (needed_nodes edges) nodes
    ∙ ap (λ b. elem i (map node_id nodes) && b) (elem-needed_nodes i edges)

-- What the dependency map may be answered.
abbrev pub MapAnswer : Cache → Time → Values → Type 0
MapAnswer c now q =
    ((message : Text) × (dependency_map_handler c now q
        ≡ failure 400 (str "invalid_query") message))
    ⊎ ((resolved : Option Bool) × (page : DependencyMap) × (pagination : PaginationResponse)
        × (bool_query_param q (str "resolved") ≡ ok resolved)
        × (dependency_map_handler c now q ≡ map_page page pagination)
        × IsPage (edge_matches q resolved) (dependency_map c now).edges page.edges pagination
        × ((i : Text)
            → elem i (map node_id page.nodes)
              ≡ elem i (map node_id (dependency_map c now).nodes) && elem i (endpoints page.edges)))

-- The dependency map is answered by status 400, or by a page of the edges of the cache that match the
-- query, together with exactly those nodes of the map that stand for an end of an edge of the page,
-- where the parameter `resolved` was read without error.
dependency_map_handler-IsPage : (c : Cache) (now : Time) (q : Values) → MapAnswer c now q
unfolding dependency_map_handler
dependency_map_handler-IsPage c now q =
    go (parse_pagination q) refl (bool_query_param q (str "resolved")) refl
  where
    go :
        (r : Outcome Text PaginationRequest)
        → parse_pagination q ≡ r
        → (b : Outcome Text (Option Bool)) → bool_query_param q (str "resolved") ≡ b
        → MapAnswer c now q
    go (err m) h b k = inl (m, rw h refl)
    go (ok request) h (err m) k = inl (m, rw (h, k) refl)
    go (ok request) h (ok resolved) k =
        let dep_map = dependency_map c now in
        let page = paginate (keep (edge_matches q resolved) dep_map.edges) request in
        inr (
          resolved,
          record { nodes = nodes_for_edges dep_map.nodes page.0; edges = page.0 },
          page.1,
          k,
          rw (h, k) refl,
          paginate-IsPage (edge_matches q resolved) dep_map.edges request
              (parse_pagination-bounds q request h).1,
          λ i. elem-nodes_for_edges i dep_map.nodes page.0,
        )
