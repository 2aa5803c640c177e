-- ===== src/Graph/Aggregate/Reads.antt =====
-- What the index holds at a key after the loop over the edges: each map is a loop over the edges
-- that concern the key.
use kbeacon.Prelude.{
  ℕ, ◌+◌, ◌≡◌, refl, ap, ◌∙◌, Bool, ◌&&◌, not, List, [], ◌∷◌, map, arith, length, if◌then◌else◌,
  Bool-cases, inl, inr, loop, keep,
}
use kbeacon.Text.{Text, ◌==◌, ==_iff}
use kbeacon.Dict.{get, get-put}
use kbeacon.Dict.Sets.{add, set_of}
use kbeacon.Graph.Types.{DependencyEdge}
use kbeacon.Graph.Keys.{secret_id, workload_id}
use kbeacon.Graph.Criticality.{max_criticality}
use kbeacon.Graph.Aggregate.{Index, empty_index, set_at, count_at, text_at, index_edge, index_edges}

-- The edges to one Secret, and those of one workload.
abbrev pub to_secret : Text → DependencyEdge → Bool
to_secret k e = secret_id e.secret == k

abbrev pub of_workload : Text → DependencyEdge → Bool
of_workload k e = workload_id e.workload == k

abbrev pub has_team : DependencyEdge → Bool
has_team e = not (e.owner_team == [])

abbrev pub unresolved : DependencyEdge → Bool
unresolved e = not e.resolved

abbrev pub workload_key : DependencyEdge → Text
workload_key e = workload_id e.workload

abbrev pub secret_key : DependencyEdge → Text
secret_key e = secret_id e.secret

abbrev pub team : DependencyEdge → Text
team e = e.owner_team

abbrev pub workload_namespace : DependencyEdge → Text
workload_namespace e = e.workload.namespace

-- A part of the index that a step changes for some edges only.
module _ {ℓ} {S : Type ℓ} (read : Index → S) (p : DependencyEdge → Bool)
    (step : S → DependencyEdge → S)
    (one : (i : Index) (e : DependencyEdge)
      → read (index_edge i e) ≡ (if p e then step (read i) e else read i)) where
  read-loop :
      (i : Index) (es : List DependencyEdge)
      → read (loop index_edge i es) ≡ loop step (read i) (keep p es)
  read-loop i [] = refl
  read-loop i (e ∷ es) = elim (Bool-cases (p e)) [
    | inl h ↦
        rw h (read-loop (index_edge i e) es ∙ ap (λ s. loop step s (keep p es)) (rw h at (one i e)))
    | inr h ↦
        rw h (read-loop (index_edge i e) es ∙ ap (λ s. loop step s (keep p es)) (rw h at (one i e)))
  ]

loop-map :
    (f : DependencyEdge → Text) (s : List Text) (es : List DependencyEdge)
    → loop (λ s e. add s (f e)) s es ≡ loop add s (map f es)
loop-map f s [] = refl
loop-map f s (e ∷ es) = loop-map f (add s (f e)) es

module _ (k : Text) where
  -- The edges to the Secret that name a team, and those that are not resolved.
  abbrev pub with_team : DependencyEdge → Bool
  with_team e = to_secret k e && has_team e

  abbrev pub unresolved_to : DependencyEdge → Bool
  unresolved_to e = to_secret k e && unresolved e

  abbrev pub unresolved_of : DependencyEdge → Bool
  unresolved_of e = of_workload k e && unresolved e

  workloads_one :
      (i : Index) (e : DependencyEdge)
      → set_at k (index_edge i e).affected_workloads ≡ (
          if to_secret k e
          then add (set_at k i.affected_workloads) (workload_key e)
          else set_at k i.affected_workloads)
  unfolding index_edge
  workloads_one i e =
      let s = add (set_at (secret_key e) i.affected_workloads) (workload_key e) in
      ground (arith, get-put (secret_key e) k s i.affected_workloads, ==_iff (secret_key e) k)

  teams_one :
      (i : Index) (e : DependencyEdge)
      → set_at k (index_edge i e).affected_teams ≡ (
          if with_team e
          then add (set_at k i.affected_teams) (team e)
          else set_at k i.affected_teams)
  unfolding index_edge
  teams_one i e =
      let s = set_at (secret_key e) i.affected_teams in
      ground (
        arith,
        get-put (secret_key e) k s i.affected_teams,
        get-put (secret_key e) k (add s (team e)) i.affected_teams,
        ==_iff (secret_key e) k,
      )

  namespaces_one :
      (i : Index) (e : DependencyEdge)
      → set_at k (index_edge i e).affected_namespaces ≡ (
          if to_secret k e
          then add (set_at k i.affected_namespaces) (workload_namespace e)
          else set_at k i.affected_namespaces)
  unfolding index_edge
  namespaces_one i e =
      let s = add (set_at (secret_key e) i.affected_namespaces) (workload_namespace e) in
      ground (arith, get-put (secret_key e) k s i.affected_namespaces, ==_iff (secret_key e) k)

  derived_teams_one :
      (i : Index) (e : DependencyEdge)
      → set_at k (index_edge i e).derived_owner_teams ≡ (
          if with_team e
          then add (set_at k i.derived_owner_teams) (team e)
          else set_at k i.derived_owner_teams)
  unfolding index_edge
  derived_teams_one i e =
      let s = add (set_at (secret_key e) i.derived_owner_teams) (team e) in
      ground (arith, get-put (secret_key e) k s i.derived_owner_teams, ==_iff (secret_key e) k)

  criticality_one :
      (i : Index) (e : DependencyEdge)
      → text_at k (index_edge i e).derived_criticality ≡ (
          if to_secret k e
          then max_criticality (text_at k i.derived_criticality) e.criticality
          else text_at k i.derived_criticality)
  unfolding index_edge
  criticality_one i e =
      let s = max_criticality (text_at (secret_key e) i.derived_criticality) e.criticality in
      ground (arith, get-put (secret_key e) k s i.derived_criticality, ==_iff (secret_key e) k)

  unresolved_one :
      (i : Index) (e : DependencyEdge)
      → count_at k (index_edge i e).unresolved_refs ≡ (
          if unresolved_to e
          then count_at k i.unresolved_refs + 1
          else count_at k i.unresolved_refs)
  unfolding index_edge
  unresolved_one i e =
      let s = count_at (secret_key e) i.unresolved_refs + 1 in
      ground (arith, get-put (secret_key e) k s i.unresolved_refs, ==_iff (secret_key e) k)

  deps_one :
      (i : Index) (e : DependencyEdge)
      → set_at k (index_edge i e).workload_deps ≡ (
          if of_workload k e
          then add (set_at k i.workload_deps) (secret_key e)
          else set_at k i.workload_deps)
  unfolding index_edge
  deps_one i e =
      let s = add (set_at (workload_key e) i.workload_deps) (secret_key e) in
      ground (arith, get-put (workload_key e) k s i.workload_deps, ==_iff (workload_key e) k)

  workload_unresolved_one :
      (i : Index) (e : DependencyEdge)
      → count_at k (index_edge i e).workload_unresolved ≡ (
          if unresolved_of e
          then count_at k i.workload_unresolved + 1
          else count_at k i.workload_unresolved)
  unfolding index_edge
  workload_unresolved_one i e =
      let s = count_at (workload_key e) i.workload_unresolved + 1 in
      ground (arith, get-put (workload_key e) k s i.workload_unresolved, ==_iff (workload_key e) k)

-- A set of the index is the set of one text for each edge that concerns the key.
set_loop :
    (read : Index → List Text) (p : DependencyEdge → Bool) (f : DependencyEdge → Text)
    → read empty_index ≡ []
    → ((i : Index) (e : DependencyEdge)
        → read (index_edge i e) ≡ (if p e then add (read i) (f e) else read i))
    → (es : List DependencyEdge) → read (index_edges es) ≡ set_of (map f (keep p es))
unfolding index_edges set_of
set_loop read p f start one es =
    read-loop read p (λ s e. add s (f e)) one empty_index es
    ∙ ap (λ s. loop (λ s e. add s (f e)) s (keep p es)) start
    ∙ loop-map f [] (keep p es)

count_loop :
    (n : ℕ) (es : List DependencyEdge)
    → loop (λ (m : ℕ) (e : DependencyEdge). m + 1) n es ≡ n + length es
count_loop n [] = omega arith
count_loop n (e ∷ es) = omega (arith, count_loop (n + 1) es)

number_loop :
    (read : Index → ℕ) (p : DependencyEdge → Bool)
    → read empty_index ≡ 0
    → ((i : Index) (e : DependencyEdge)
        → read (index_edge i e) ≡ (if p e then read i + 1 else read i))
    → (es : List DependencyEdge) → read (index_edges es) ≡ length (keep p es)
unfolding index_edges
number_loop read p start one es = omega (
  arith,
  read-loop read p (λ m e. m + 1) one empty_index es,
  count_loop (read empty_index) (keep p es),
)

module _ (k : Text) (es : List DependencyEdge) where
  pub affected_workloads-index :
      set_at k (index_edges es).affected_workloads
      ≡ set_of (map workload_key (keep (to_secret k) es))
  unfolding get
  affected_workloads-index =
      set_loop (λ i. set_at k i.affected_workloads) (to_secret k) workload_key refl
        (workloads_one k) es

  pub affected_teams-index :
      set_at k (index_edges es).affected_teams ≡ set_of (map team (keep (with_team k) es))
  unfolding get
  affected_teams-index =
      set_loop (λ i. set_at k i.affected_teams) (with_team k) team refl (teams_one k) es

  pub affected_namespaces-index :
      set_at k (index_edges es).affected_namespaces
      ≡ set_of (map workload_namespace (keep (to_secret k) es))
  unfolding get
  affected_namespaces-index =
      set_loop (λ i. set_at k i.affected_namespaces) (to_secret k) workload_namespace refl
        (namespaces_one k) es

  pub derived_owner_teams-index :
      set_at k (index_edges es).derived_owner_teams ≡ set_of (map team (keep (with_team k) es))
  unfolding get
  derived_owner_teams-index =
      set_loop (λ i. set_at k i.derived_owner_teams) (with_team k) team refl (derived_teams_one k)
        es

  pub derived_criticality-index :
      text_at k (index_edges es).derived_criticality
      ≡ loop (λ c e. max_criticality c e.criticality) [] (keep (to_secret k) es)
  unfolding index_edges get
  derived_criticality-index =
      read-loop (λ i. text_at k i.derived_criticality) (to_secret k)
        (λ c e. max_criticality c e.criticality) (criticality_one k) empty_index es

  pub unresolved_refs-index :
      count_at k (index_edges es).unresolved_refs ≡ length (keep (unresolved_to k) es)
  unfolding get
  unresolved_refs-index =
      number_loop (λ i. count_at k i.unresolved_refs) (unresolved_to k) refl (unresolved_one k) es

  pub workload_deps-index :
      set_at k (index_edges es).workload_deps ≡ set_of (map secret_key (keep (of_workload k) es))
  unfolding get
  workload_deps-index =
      set_loop (λ i. set_at k i.workload_deps) (of_workload k) secret_key refl (deps_one k) es

  pub workload_unresolved-index :
      count_at k (index_edges es).workload_unresolved ≡ length (keep (unresolved_of k) es)
  unfolding get
  workload_unresolved-index =
      number_loop (λ i. count_at k i.workload_unresolved) (unresolved_of k) refl
        (workload_unresolved_one k) es
