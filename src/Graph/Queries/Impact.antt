-- ===== src/Graph/Queries/Impact.antt =====
-- What `GetSecretImpact` returns, for any state of the cache.
use kbeacon.Prelude.{
  ℕ, ◌+◌, ◌≡◌, refl, sym, ap, ◌∙◌, ◌↔◌, Bool, false, ◌&&◌, not, Option, none, some, List, [], ◌∷◌,
  ◌++◌, arith, length, if◌then◌else◌, some_or, is_some, loop, loop_inv, keep, Bool-cases, inl, inr,
  append_assoc, append-nil, All, length-append,
}
use kbeacon.Text.{Text, ◌==◌}
use kbeacon.Dict.{Dict, get, put}
use kbeacon.Graph.Types.{
  Time, mode_text, DependencyEdge, SecretSummary, WorkloadSummary, SecretImpact,
}
use kbeacon.Graph.Keys.{secret_id, workload_id}
use kbeacon.Graph.Observe.{Cache, zero_summary}
use kbeacon.Graph.Aggregate.{count_at, bump_at}
use kbeacon.Graph.Aggregate.Reads.{to_secret}
use kbeacon.Graph.Queries.{
  snapshot, first, index_by, workload_key_of, ImpactState, no_impact, impact_workload, impact_edge,
  is_empty, secret_impact_of, impact_target, get_secret_impact,
}

abbrev pub same_secret : Text → SecretSummary → Bool
same_secret target s = secret_id s.ref == target

-- The state of the loop of `GetSecretImpact` behind the edges.
abbrev pub impact_state : Cache → Time → Text → ImpactState
impact_state c now target =
    loop (impact_edge target (index_by workload_key_of (snapshot c now).workloads)) no_impact
      (snapshot c now).edges

module _ (target : Text) (workloads : Dict WorkloadSummary) where
  edges_one :
      (st : ImpactState) (e : DependencyEdge)
      → (impact_edge target workloads st e).edges
        ≡ (if to_secret target e then st.edges ++ e ∷ [] else st.edges)
  unfolding impact_edge
  edges_one st e = ground arith

  edges_loop :
      (st : ImpactState) (es : List DependencyEdge)
      → (loop (impact_edge target workloads) st es).edges ≡ st.edges ++ keep (to_secret target) es
  edges_loop st [] = sym (append-nil st.edges)
  edges_loop st (e ∷ es) = elim (Bool-cases (to_secret target e)) [
    | inl h ↦ rw h (
        edges_loop (impact_edge target workloads st e) es
        ∙ ap (λ l. l ++ keep (to_secret target) es) (rw h at (edges_one st e))
        ∙ append_assoc st.edges (e ∷ []) (keep (to_secret target) es))
    | inr h ↦ rw h (
        edges_loop (impact_edge target workloads st e) es
        ∙ ap (λ l. l ++ keep (to_secret target) es) (rw h at (edges_one st e)))
  ]

impact_cases :
    (found : Option SecretSummary) (st : ImpactState) (i : SecretImpact)
    → (if not (is_some found) && is_empty st.edges
        then none
        else some (secret_impact_of (some_or zero_summary found) st))
      ≡ some i
    → i ≡ secret_impact_of (some_or zero_summary found) st
impact_cases none st i h = ground arith
impact_cases (some s) st i h = ground arith

first-none :
    (p : SecretSummary → Bool) (xs : List SecretSummary)
    → (first p xs ≡ none) ↔ All (λ x. p x ≡ false) xs
unfolding first
first-none p [] = (λ h. tt, λ h. refl)
first-none p (x ∷ xs) =
    let (to, from) = first-none p xs in
    elim (Bool-cases (p x)) [
      | inl h ↦ (λ e. ground arith, λ e. ground arith)
      | inr h ↦ (λ e. (h, to (rw h at e)), λ e. rw h (from e.1))
    ]

none_cases :
    (found : Option SecretSummary) (st : ImpactState)
    → ((if not (is_some found) && is_empty st.edges
          then none
          else some (secret_impact_of (some_or zero_summary found) st))
        ≡ none)
      ↔ ((found ≡ none) × (st.edges ≡ []))
none_cases none st = (λ h. ground arith, λ h. ground arith)
none_cases (some s) st = (λ h. ground arith, λ h. ground arith)

module _ (c : Cache) (now : Time) (namespace name : Text) where
  edges-impact_state :
      (impact_state c now (impact_target namespace name)).edges
      ≡ keep (to_secret (impact_target namespace name)) (snapshot c now).edges
  edges-impact_state = edges_loop _ _ no_impact (snapshot c now).edges

  -- The impact of a Secret lists exactly the stored edges to it, in the order of the snapshot.
  pub get_secret_impact-edges :
      (i : SecretImpact)
      → get_secret_impact c now namespace name ≡ some i
      → i.edges ≡ keep (to_secret (impact_target namespace name)) (snapshot c now).edges
  unfolding get_secret_impact
  get_secret_impact-edges i h =
      let target = impact_target namespace name in
      ap (λ (j : SecretImpact). j.edges)
        (impact_cases (first (same_secret target) (snapshot c now).secrets)
          (impact_state c now target) i h)
      ∙ (unfold secret_impact_of in edges-impact_state)

  -- A Secret has no impact exactly when the cache has neither a summary of it nor an edge to it.
  pub get_secret_impact-none_iff : (get_secret_impact c now namespace name ≡ none) ↔ (
      All (λ s. same_secret (impact_target namespace name) s ≡ false) (snapshot c now).secrets
      × (keep (to_secret (impact_target namespace name)) (snapshot c now).edges ≡ []))
  unfolding get_secret_impact
  get_secret_impact-none_iff =
      let target = impact_target namespace name in
      let found = first (same_secret target) (snapshot c now).secrets in
      let (to, from) = none_cases found (impact_state c now target) in
      let (absent, present) = first-none (same_secret target) (snapshot c now).secrets in
      (
        λ h. (absent (to h).0, sym edges-impact_state ∙ (to h).1),
        λ h. from (present h.0, edges-impact_state ∙ h.1),
      )

-- The sum of the counts of a map.
abbrev pub total : Dict ℕ → ℕ
total [] = 0
total ((k, n) ∷ m) = n + total m

total-put : (k : Text) (n : ℕ) (m : Dict ℕ) → total (put k n m) + count_at k m ≡ total m + n
unfolding put get
total-put k n [] = omega arith
total-put k n ((j, w) ∷ m) = ground (arith, total-put k n m)

total-bump_at : (k : Text) (m : Dict ℕ) → total (bump_at k m) ≡ total m + 1
total-bump_at k m = omega (arith, total-put k (count_at k m + 1) m)

mode_counts-impact_workload :
    (wkey : Text) (w : Option WorkloadSummary) (st : ImpactState)
    → ((impact_workload wkey w st).mode_counts ≡ st.mode_counts)
      × ((impact_workload wkey w st).edges ≡ st.edges)
unfolding impact_workload
mode_counts-impact_workload wkey none st = (refl, refl)
mode_counts-impact_workload wkey (some w) st = (refl, refl)

abbrev Counted : ImpactState → Type 0
Counted st = total st.mode_counts ≡ length st.edges

impact_edge-Counted :
    (target : Text) (workloads : Dict WorkloadSummary) (st : ImpactState) (e : DependencyEdge)
    → Counted st
    → Counted (impact_edge target workloads st e)
unfolding impact_edge
impact_edge-Counted target workloads st e h =
    let wkey = workload_id e.workload in
    let mode = mode_text e.discovery_mode in
    let counted : ImpactState = record st {
      edges = st.edges ++ e ∷ [];
      mode_counts = bump_at mode st.mode_counts;
    } in
    ground (
      arith,
      total-bump_at mode st.mode_counts,
      length-append st.edges (e ∷ []),
      mode_counts-impact_workload wkey (get wkey workloads) counted,
    )

-- The counts of the discovery modes of an impact add up to its number of edges.
get_secret_impact-modes :
    (c : Cache) (now : Time) (namespace name : Text) (i : SecretImpact)
    → get_secret_impact c now namespace name ≡ some i
    → total i.summary.discovery_modes ≡ length i.edges
unfolding get_secret_impact secret_impact_of
get_secret_impact-modes c now namespace name i h =
    let target = impact_target namespace name in
    let same =
      impact_cases (first (same_secret target) (snapshot c now).secrets) (impact_state c now target)
        i h in
    rw same (
      loop_inv Counted (impact_edge target (index_by workload_key_of (snapshot c now).workloads))
        (impact_edge-Counted target _) no_impact (snapshot c now).edges refl)
