-- ===== src/Graph/Queries/Dependencies.antt =====
-- What `GetWorkloadDependencies` returns, for any state of the cache.
use kbeacon.Prelude.{
  ◌≡◌, refl, sym, ap, ◌∙◌, ◌↔◌, Bool, true, false, Option, none, some, List, [], ◌∷◌, ◌++◌, map,
  arith, loop, keep, Bool-cases, Option-cases, inl, ◌⊎◌, Any, here, there, inr, append_assoc,
  append-nil, All,
}
use kbeacon.Text.{Text, ◌==◌, ==_iff, to_lower, equal_fold}
use kbeacon.Pairs.{Pairwise}
use kbeacon.Dict.{Dict, get, put, get-put}
use kbeacon.Graph.Types.{
  Time, DependencyEdge, SecretSummary, WorkloadSummary, Snapshot, WorkloadDependency,
  WorkloadDependencies,
}
use kbeacon.Graph.Keys.{secret_id, workload_id}
use kbeacon.Graph.Observe.{Cache, zero_summary}
use kbeacon.Graph.Aggregate.Reads.{of_workload}
use kbeacon.Graph.Queries.{
  snapshot, first, index_by, secret_key_of, names_workload, workload_dependency, add_dependency,
  dependencies_of, map_option, get_workload_dependencies,
}

deps_loop :
    (w : WorkloadSummary) (secrets : Dict SecretSummary) (deps : List WorkloadDependency)
    (es : List DependencyEdge)
    → loop (add_dependency w secrets) deps es
      ≡ deps ++ map (workload_dependency secrets) (keep (of_workload (workload_id w.ref)) es)
unfolding add_dependency
deps_loop w secrets deps [] = sym (append-nil deps)
deps_loop w secrets deps (e ∷ es) =
    elim (Bool-cases (workload_id e.workload == workload_id w.ref)) [
      | inl h ↦ rw h (
          deps_loop w secrets (deps ++ workload_dependency secrets e ∷ []) es
          ∙ append_assoc deps (workload_dependency secrets e ∷ []) _)
      | inr h ↦ rw h (deps_loop w secrets deps es)
    ]

dependencies-dependencies_of :
    (snap : Snapshot) (w : WorkloadSummary)
    → (dependencies_of snap w).dependencies
      ≡ map
          (workload_dependency (index_by secret_key_of snap.secrets))
          (keep (of_workload (workload_id w.ref)) snap.edges)
unfolding dependencies_of
dependencies-dependencies_of snap w =
    deps_loop w (index_by secret_key_of snap.secrets) [] snap.edges

-- A workload is the one that is asked for: its namespace and its name are those that are asked for, and
-- its kind is, in any case, unless the asked kind is empty.
abbrev pub IsAsked : Text → Text → Text → WorkloadSummary → Type 0
IsAsked namespace kind name w =
    (w.ref.namespace ≡ namespace)
    × (w.ref.name ≡ name)
    × ((kind ≡ []) ⊎ (to_lower w.ref.kind ≡ to_lower kind))

names_workload_iff :
    (namespace kind name : Text) (w : WorkloadSummary)
    → (names_workload namespace kind name w ≡ true) ↔ IsAsked namespace kind name w
unfolding equal_fold
names_workload_iff namespace kind name w =
    let at_namespace = ==_iff w.ref.namespace namespace in
    let at_name = ==_iff w.ref.name name in
    let at_kind = ==_iff (to_lower w.ref.kind) (to_lower kind) in
    let any_kind = ==_iff kind [] in
    (
      λ h. (
        ground (arith, h),
        ground (arith, h),
        elim (Bool-cases (kind == [])) [
          | inl e ↦ inl (any_kind.0 e)
          | inr e ↦ inr (ground (arith, h, e))
        ],
      ),
      λ (n, m, k). elim k [ inl e ↦ ground arith | inr e ↦ ground arith ],
    )

-- The summary of a Secret that is told of an edge: a summary of the snapshot with the id of the edge's
-- Secret, or the zero summary if the snapshot has none with this id.
abbrev pub ToldSecret : Snapshot → DependencyEdge → SecretSummary → Type 0
ToldSecret snap e s =
    (Any (λ x. x ≡ s) snap.secrets × (secret_id s.ref ≡ secret_id e.secret))
    ⊎ (All (λ x. (secret_id x.ref == secret_id e.secret) ≡ false) snap.secrets × (s ≡ zero_summary))

-- What is told of an edge: its mode, its flags, its sources and the summary of its Secret.
pub record Tells (snap : Snapshot) (e : DependencyEdge) (d : WorkloadDependency) : Type 0 where
  pub mode : d.discovery_mode ≡ e.discovery_mode
  pub resolved : d.resolved ≡ e.resolved
  pub optional : d.optional ≡ e.optional
  pub sources : d.sources ≡ e.sources
  pub secret : ToldSecret snap e d.secret

-- Reading what an index was made of: the last element with the key, or what was there before.
module _ {A : Type 0} (key : A → Text) (k : Text) where
  abbrev Indexed : Dict A → List A → Option A → Type 0
  Indexed m xs o =
      ((x : A) × (o ≡ some x) × (key x ≡ k) × Any (λ y. y ≡ x) xs)
      ⊎ ((o ≡ get k m) × All (λ y. (key y == k) ≡ false) xs)

  get-loop : (m : Dict A) (xs : List A) → Indexed m xs (get k (loop (λ m x. put (key x) x m) m xs))
  get-loop m [] = inr (refl, tt)
  get-loop m (x ∷ xs) = elim (get-loop (put (key x) x m) xs) [
    | inl (y, e, same, a) ↦ inl (y, e, same, there a)
    | inr (e, none_there) ↦ elim (Bool-cases (key x == k)) [
      | inl t ↦ inl (x, e ∙ get-put (key x) k x m ∙ rw t refl, (==_iff (key x) k).0 t, here refl)
      | inr f ↦ inr (e ∙ get-put (key x) k x m ∙ rw f refl, (f, none_there))
    ]
  ]

workload_dependency-Tells :
    (snap : Snapshot) (e : DependencyEdge)
    → Tells snap e (workload_dependency (index_by secret_key_of snap.secrets) e)
workload_dependency-Tells snap e = record {
  mode = refl;
  resolved = refl;
  optional = refl;
  sources = refl;
  secret =
      unfold index_by in
      elim (get-loop secret_key_of (secret_id e.secret) [] snap.secrets) [
        | inl (s, found, same, a) ↦ rw found (inl (a, same))
        | inr (absent, all) ↦ rw absent (unfold get in inr (all, refl))
      ];
}

Pairwise-map {ℓ κ} :
    {A : Type ℓ} {B : Type κ} (R : A → B → Type 0) (f : A → B)
    → ((x : A) → R x (f x))
    → (xs : List A) → Pairwise R xs (map f xs)
Pairwise-map R f h [] = tt
Pairwise-map R f h (x ∷ xs) = (h x, Pairwise-map R f h xs)

-- What a request for the dependencies of a workload may give.
pub data Answered (snap : Snapshot) (namespace kind name : Text) (o : Option WorkloadDependencies)
    : Type 0 where
  unknown :
      All (λ w. ¬ IsAsked namespace kind name w) snap.workloads
      → o ≡ none
      → Answered snap namespace kind name o
  known :
      (d : WorkloadDependencies)
      → o ≡ some d
      → Any (λ w. w ≡ d.workload) snap.workloads
      → IsAsked namespace kind name d.workload
      → Pairwise
          (Tells snap)
          (keep (λ e. workload_id e.workload == workload_id d.workload.ref) snap.edges)
          d.dependencies
      → Answered snap namespace kind name o

first-Any :
    {A : Type 0} (p : A → Bool) (xs : List A) (x : A)
    → first p xs ≡ some x
    → (p x ≡ true) × Any (λ y. y ≡ x) xs
unfolding first
first-Any p [] x h = cc
first-Any p (y ∷ ys) x h = elim (Bool-cases (p y)) [
  | inl b ↦ let same : y ≡ x = ground arith in (ap p (sym same) ∙ b, here same)
  | inr b ↦ let (q, a) = first-Any p ys x (rw b at h) in (q, there a)
]

first-none :
    {A : Type 0} (p : A → Bool) (Q : A → Type 0)
    → ((x : A) → p x ≡ false → Q x)
    → (xs : List A) → first p xs ≡ none
    → All Q xs
unfolding first
first-none p Q f [] h = tt
first-none p Q f (x ∷ xs) h = elim (Bool-cases (p x)) [
  | inl b ↦ absurd (ground arith)
  | inr b ↦ (f x b, first-none p Q f xs (rw b at h))
]

-- A request for the dependencies of a workload gives none exactly if no stored workload has the asked
-- namespace and name and, unless the asked kind is empty, the asked kind in any case. Otherwise it
-- gives such a stored workload, with one dependency for each stored edge of this workload, in the order of
-- the snapshot, which tells the mode, the flags and the sources of the edge and the summary of its
-- Secret.
pub get_workload_dependencies-Answered :
    (c : Cache) (now : Time) (namespace kind name : Text)
    → Answered
        (snapshot c now)
        namespace
        kind
        name
        (get_workload_dependencies c now namespace kind name)
unfolding get_workload_dependencies
get_workload_dependencies-Answered c now namespace kind name =
    let snap = snapshot c now in
    let p = names_workload namespace kind name in
    elim (Option-cases (first p snap.workloads)) [
      | inl absent ↦
          unknown
            (first-none p _
              (λ w e a. ground (arith, e, (names_workload_iff namespace kind name w).1 a))
              snap.workloads absent)
            (ap (map_option (dependencies_of snap)) absent)
      | inr (w, found) ↦
          let (named, stored) = first-Any p snap.workloads w found in
          known (dependencies_of snap w) (ap (map_option (dependencies_of snap)) found)
            (unfold dependencies_of in stored)
            (unfold dependencies_of in (names_workload_iff namespace kind name w).0 named)
            (rw (dependencies-dependencies_of snap w) (
              unfold dependencies_of in
              Pairwise-map (Tells snap) (workload_dependency (index_by secret_key_of snap.secrets))
                (workload_dependency-Tells snap) _))
    ]
