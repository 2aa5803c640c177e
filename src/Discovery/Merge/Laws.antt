-- ===== src/Discovery/Merge/Laws.antt =====
-- What the merged edges of a workload are, for each edge id.
use mathlib.Core.List.{Permᴰ}
use kbeacon.Prelude.{
  ◌≡◌, refl, sym, ap, ◌∙◌, Bool, true, false, ◌&&◌, not, Option, none, some, List, [], ◌∷◌, ◌++◌,
  arith, append_assoc, append-nil, if◌then◌else◌, loop, loop_inv, keep, All, Bool-cases, inl, inr,
  Option-cases,
}
use kbeacon.Text.{Text, ◌==◌, ==_iff, elem}
use kbeacon.Dict.{Dict, get, get-put, values, Entries, Entries-put, Entries-get, All-values}
use kbeacon.Rearrange.{All-perm}
use kbeacon.Graph.Types.{DiscoveryMode, hybrid, mode_eq, DependencySource, DependencyEdge}
use kbeacon.Graph.Keys.{secret_id}
use kbeacon.Discovery.Merge.{
  merge, merge_into, filter_and_merge_edge, merged_edges, filter_and_merge_edges,
}

-- The edges that are merged under an id: those that carry it and whose Secret is not ignored.
abbrev pub contributes : List Text → Text → DependencyEdge → Bool
contributes ignore i edge = edge.id == i && not (elem (secret_id edge.secret) ignore)

abbrev absorb : Option DependencyEdge → DependencyEdge → Option DependencyEdge
absorb o edge = some (merge_into o edge)

get-filter_and_merge_edge :
    (ignore : List Text) (m : Dict DependencyEdge) (edge : DependencyEdge) (i : Text)
    → get i (filter_and_merge_edge ignore m edge)
      ≡ (if contributes ignore i edge then absorb (get i m) edge else get i m)
unfolding filter_and_merge_edge
get-filter_and_merge_edge ignore m edge i = elim (Bool-cases (edge.id == i)) [
  | inl e ↦
      let same = (==_iff edge.id i).0 e in
      ground (arith, get-put edge.id i (merge_into (get edge.id m) edge) m, ap (λ k. get k m) same)
  | inr e ↦ ground (arith, get-put edge.id i (merge_into (get edge.id m) edge) m)
]

get-loop :
    (ignore : List Text) (i : Text) (m : Dict DependencyEdge) (edges : List DependencyEdge)
    → get i (loop (filter_and_merge_edge ignore) m edges)
      ≡ loop absorb (get i m) (keep (contributes ignore i) edges)
get-loop ignore i m [] = refl
get-loop ignore i m (edge ∷ edges) =
    let rest = get-loop ignore i (filter_and_merge_edge ignore m edge) edges in
    let first = get-filter_and_merge_edge ignore m edge i in
    elim (Bool-cases (contributes ignore i edge)) [
      | inl e ↦
          rw e (rest ∙ ap (λ o. loop absorb o (keep (contributes ignore i) edges)) (rw e at first))
      | inr e ↦
          rw e (rest ∙ ap (λ o. loop absorb o (keep (contributes ignore i) edges)) (rw e at first))
    ]

abbrev pub all_sources : List DependencyEdge → List DependencySource
all_sources [] = []
all_sources (e ∷ es) = e.sources ++ all_sources es

abbrev pub all_optional : List DependencyEdge → Bool
all_optional [] = true
all_optional (e ∷ es) = e.optional && all_optional es

abbrev pub all_of_mode : DiscoveryMode → List DependencyEdge → Bool
all_of_mode mode [] = true
all_of_mode mode (e ∷ es) = mode_eq mode e.discovery_mode && all_of_mode mode es

-- An edge with the merged fields put in.
abbrev pub with_merged :
    DependencyEdge → List DependencySource → Bool → DiscoveryMode → DependencyEdge
with_merged e sources optional mode = record e {
  sources = sources;
  optional = optional;
  discovery_mode = mode;
}

-- What a list of edges with one id stands for: the first of them, with every source in order, hybrid
-- unless they all have one mode, and optional only if each of them is.
abbrev pub combined : List DependencyEdge → Option DependencyEdge
combined [] = none
combined (e ∷ es) = some (
    with_merged e (e.sources ++ all_sources es) (e.optional && all_optional es)
      (if all_of_mode e.discovery_mode es then e.discovery_mode else hybrid))

with_merged-ap :
    (e : DependencyEdge) {ss ts : List DependencySource} {b c : Bool} {m n : DiscoveryMode}
    → ss ≡ ts
    → b ≡ c
    → m ≡ n
    → some (with_merged e ss b m) ≡ some (with_merged e ts c n)
with_merged-ap e p q r = rw (p, q, r) refl

mode_of_merged :
    (mode : DiscoveryMode) (same : Bool) (rest : DiscoveryMode → Bool)
    → (if rest (if same then mode else hybrid) then (if same then mode else hybrid) else hybrid)
      ≡ (if same && rest mode then mode else hybrid)
mode_of_merged mode true rest = refl
mode_of_merged mode false rest = ground arith

loop-absorb :
    (e : DependencyEdge) (es : List DependencyEdge) → loop absorb (some e) es ≡ combined (e ∷ es)
unfolding merge
loop-absorb e [] = with_merged-ap e (sym (append-nil e.sources)) (ground arith) refl
loop-absorb e (f ∷ es) =
    loop-absorb (merge e f) es
    ∙ with_merged-ap e (append_assoc e.sources f.sources (all_sources es)) (ground arith) (
        mode_of_merged e.discovery_mode (mode_eq e.discovery_mode f.discovery_mode)
          (λ m. all_of_mode m es))

loop-combined : (es : List DependencyEdge) → loop absorb none es ≡ combined es
loop-combined [] = refl
loop-combined (e ∷ es) = loop-absorb e es

-- The merged edge of an id is the combination of the edges with this id whose Secrets are not
-- ignored, in the order in which they were found: there is none if there are no such edges, and
-- otherwise it has all their sources, is optional only if each of them is, and has their mode if they
-- agree on it and the hybrid mode if they do not.
pub get-merged_edges :
    (ignore : List Text) (edges : List DependencyEdge) (i : Text)
    → get i (merged_edges ignore edges) ≡ combined (keep (contributes ignore i) edges)
unfolding merged_edges
get-merged_edges ignore edges i =
    unfold get in get-loop ignore i [] edges ∙ loop-combined (keep (contributes ignore i) edges)

-- The Secret of a stored edge is not ignored.
abbrev Kept : List Text → Text → DependencyEdge → Type 0
Kept ignore i e = elem (secret_id e.secret) ignore ≡ false

filter_and_merge_edge-Kept :
    (ignore : List Text) (m : Dict DependencyEdge) (edge : DependencyEdge)
    → Entries (Kept ignore) m
    → Entries (Kept ignore) (filter_and_merge_edge ignore m edge)
unfolding filter_and_merge_edge merge
filter_and_merge_edge-Kept ignore m edge h =
    elim (Bool-cases (elem (secret_id edge.secret) ignore)) [
      | inl e ↦ rw e h
      | inr e ↦ elim (Option-cases (get edge.id m)) [
        | inl o ↦ rw (e, o) (Entries-put (Kept ignore) edge.id edge m e h)
        | inr (old, o) ↦
            let kept : Kept ignore edge.id old = Entries-get (Kept ignore) edge.id old m h o in
            rw (e, o) (Entries-put (Kept ignore) edge.id (merge old edge) m kept h)
      ]
    ]

-- No edge to an ignored Secret is among the merged edges, in whatever order these are given out.
pub filter_and_merge_edges-ignored :
    (order : List DependencyEdge → List DependencyEdge) (edges : List DependencyEdge)
    (ignore : List Text)
    → ((xs : List DependencyEdge) → Permᴰ (order xs) xs)
    → All
        (λ e. elem (secret_id e.secret) ignore ≡ false)
        (filter_and_merge_edges order edges ignore)
unfolding filter_and_merge_edges merged_edges
filter_and_merge_edges-ignored order edges ignore rearranges =
    let NotIgnored : DependencyEdge → Type 0 = λ e. elem (secret_id e.secret) ignore ≡ false in
    let inv =
      loop_inv (Entries (Kept ignore)) (filter_and_merge_edge ignore)
        (filter_and_merge_edge-Kept ignore) [] edges tt in
    All-perm NotIgnored (rearranges (values (merged_edges ignore edges)))
      (All-values (Kept ignore) NotIgnored (λ k v h. h) (merged_edges ignore edges) inv)
