-- ===== src/Graph/Cache/History.antt =====
-- What a rebuild keeps of the cache before it: the change counts of Secrets and the times of edges.
use kbeacon.Prelude.{
  ℕ, eqb, ◌≡◌, ◌≢◌, refl, sym, ap, ◌∙◌, Option, none, some, List, [], ◌∷◌, arith, if◌then◌else◌,
  Bool-cases, Option-cases, inl, inr, loop, loop_inv,
}
use kbeacon.Text.{Text, ◌==◌, ==_iff, ==_refl}
use kbeacon.Dict.{Dict, get, get-put, Entries, Entries-put, Entries-get, values}
use kbeacon.Graph.Types.{
  Time, DependencyEdge, SecretSummary, WorkloadSummary, SecretInput, WorkloadInput,
}
use kbeacon.Graph.Keys.{secret_id}
use kbeacon.Graph.Observe.{
  Cache, stored_ref, secret_summary, observe_secret, observe_secrets, prepare_edge, merge_edge,
  merged, first_observed, observe_edge, observe_workload, observe_workloads,
}
use kbeacon.Graph.Aggregate.{
  index_edges, add_placeholder, add_placeholders, placeholder, complete_secret,
}
use kbeacon.Graph.Cache.{apply_snapshot}
use kbeacon.Graph.Cache.Counts.{completed}

-- When an edge was first observed, by the edge of the cache before: at the time that this has, unless
-- it is the zero time.
abbrev pub since : Time → Option DependencyEdge → Time
since now none = now
since now (some old) = if eqb old.first_observed_at 0 then now else old.first_observed_at

-- The times of the edge with a key after a rebuild.
abbrev pub Dated : Cache → Time → Text → DependencyEdge → Type 0
Dated c now k e = (e.first_observed_at ≡ since now (get k c.edges)) × (e.last_observed_at ≡ now)

first_observed-since :
    (c : Cache) (now : Time) (o : Option DependencyEdge) → first_observed c now o ≡ since now o
first_observed-since c now none = refl
first_observed-since c now (some old) = refl

merge_edge-Dated :
    (c : Cache) (now : Time) (k : Text) (a b : DependencyEdge)
    → Dated c now k a
    → Dated c now k (merge_edge a b)
unfolding merge_edge
merge_edge-Dated c now k a b h = h

module _ (c : Cache) (now : Time) (new_secrets : Dict SecretSummary) where
  prepare_edge-Dated :
      (input : WorkloadInput) (e : DependencyEdge)
      → Dated c now
          (prepare_edge c now new_secrets input e).id
          (prepare_edge c now new_secrets input e)
  unfolding prepare_edge
  prepare_edge-Dated input e =
      (first_observed-since c now (get (prepare_edge c now new_secrets input e).id c.edges), refl)

  merged-Dated :
      (edges : Dict DependencyEdge) (k : Text) (e : DependencyEdge)
      → Entries (Dated c now) edges
      → Dated c now k e
      → Dated c now k (merged (get k edges) e)
  merged-Dated edges k e h at = elim (Option-cases (get k edges)) [
    | inl absent ↦ rw absent at
    | inr (old, found) ↦
        rw found (merge_edge-Dated c now k old e (Entries-get (Dated c now) k old edges h found))
  ]

  abbrev AllDated : Dict WorkloadSummary × Dict DependencyEdge → Type 0
  AllDated (workloads, edges) = Entries (Dated c now) edges

  observe_edge-Dated :
      (input : WorkloadInput) (edges : Dict DependencyEdge) (e : DependencyEdge)
      → Entries (Dated c now) edges
      → Entries (Dated c now) (observe_edge c now new_secrets input edges e)
  unfolding observe_edge
  observe_edge-Dated input edges e h =
      let ready = prepare_edge c now new_secrets input e in
      Entries-put (Dated c now) ready.id (merged (get ready.id edges) ready) edges
        (merged-Dated edges ready.id ready h (prepare_edge-Dated input e)) h

  observe_workload-Dated :
      (m : Dict WorkloadSummary × Dict DependencyEdge) (input : WorkloadInput)
      → AllDated m
      → AllDated (observe_workload c now new_secrets m input)
  unfolding observe_workload
  observe_workload-Dated (workloads, edges) input h =
      loop_inv (Entries (Dated c now)) (observe_edge c now new_secrets input)
        (observe_edge-Dated input) edges input.edges h

-- After a rebuild every stored edge was last observed now. An edge that the cache before held with
-- a time of its first observation keeps this time, however many inputs gave the edge, and any other
-- edge was first observed now.
pub apply_snapshot-Dated :
    (order : List DependencyEdge → List DependencyEdge) (c : Cache) (sis : List SecretInput)
    (wis : List WorkloadInput) (now : Time)
    → Entries (Dated c now) (apply_snapshot order c sis wis now).edges
unfolding apply_snapshot observe_workloads
apply_snapshot-Dated order c sis wis now =
    let (new_secrets, _) = observe_secrets c now sis in
    loop_inv (AllDated c now new_secrets) (observe_workload c now new_secrets)
      (observe_workload-Dated c now new_secrets) ([], []) wis tt

-- The key under which an input is stored.
abbrev input_key : Cache → Time → SecretInput → Text
input_key c now input = secret_id (stored_ref c now input.ref)

-- The last of the inputs with a key.
abbrev pub last_input :
    Cache → Time → Text → Option SecretInput → List SecretInput → Option SecretInput
last_input c now k = loop (λ o i. if input_key c now i == k then some i else o)

abbrev map_input {ℓ} : {B : Type ℓ} → (SecretInput → B) → Option SecretInput → Option B
map_input f none = none
map_input f (some i) = some (f i)

module _ (c : Cache) (now : Time) (k : Text) where
  abbrev Reads : Option SecretInput → Dict SecretSummary × Dict Text → Type 0
  Reads o (secrets, versions) =
      (get k secrets ≡ map_input (secret_summary c now) o)
      × (get k versions ≡ map_input (λ i. i.resource_version) o)

  observe_secret-Reads :
      (o : Option SecretInput) (m : Dict SecretSummary × Dict Text) (i : SecretInput)
      → Reads o m
      → Reads (if input_key c now i == k then some i else o) (observe_secret c now m i)
  unfolding observe_secret
  observe_secret-Reads o (secrets, versions) i (h, h') =
      let key = input_key c now i in
      elim (Bool-cases (key == k)) [
        | inl e ↦ rw e (
          get-put key k (secret_summary c now i) secrets ∙ (rw e),
          get-put key k i.resource_version versions ∙ (rw e),
        )
        | inr e ↦ rw e (
          get-put key k (secret_summary c now i) secrets ∙ (rw e h),
          get-put key k i.resource_version versions ∙ (rw e h'),
        )
      ]

  loop-Reads :
      (o : Option SecretInput) (m : Dict SecretSummary × Dict Text) (is : List SecretInput)
      → Reads o m
      → Reads (last_input c now k o is) (loop (observe_secret c now) m is)
  loop-Reads o m [] h = h
  loop-Reads o m (i ∷ is) h =
      loop-Reads (if input_key c now i == k then some i else o) (observe_secret c now m i) is
        (observe_secret-Reads o m i h)

  observe_secrets-Reads :
      (is : List SecretInput) → Reads (last_input c now k none is) (observe_secrets c now is)
  unfolding observe_secrets get
  observe_secrets-Reads is = loop-Reads none ([], []) is (refl, refl)

get-add_placeholder :
    (k : Text) (s : SecretSummary) (m : Dict SecretSummary) (e : DependencyEdge)
    → get k m ≡ some s
    → get k (add_placeholder m e) ≡ some s
unfolding add_placeholder
get-add_placeholder k s m e h =
    let skey = secret_id e.secret in ground (arith, get-put skey k (placeholder e) m, ==_iff skey k)

get-add_placeholders :
    (k : Text) (s : SecretSummary) (secrets : Dict SecretSummary) (es : List DependencyEdge)
    → get k secrets ≡ some s
    → get k (add_placeholders secrets es) ≡ some s
unfolding add_placeholders
get-add_placeholders k s secrets es h =
    loop_inv (λ m. get k m ≡ some s) add_placeholder (get-add_placeholder k s) secrets es h

-- The change record of a summary.
abbrev pub changes : SecretSummary → ℕ × Time
changes s = (s.observed_change_count, s.last_observed_change_time)

changes-complete_secret :
    (k : Text) (es : List DependencyEdge) (s : SecretSummary)
    → changes (complete_secret (index_edges es) k s) ≡ changes s
unfolding complete_secret
changes-complete_secret k es s = refl

module _ (order : List DependencyEdge → List DependencyEdge) (c : Cache) (sis : List SecretInput)
    (wis : List WorkloadInput) (now : Time) (k : Text) (i : SecretInput)
    (seen : last_input c now k none sis ≡ some i) where
  -- What a rebuild stores for an observed Secret comes from its last input.
  stored :
      (s : SecretSummary)
      → get k (apply_snapshot order c sis wis now).secrets ≡ some s
      → changes s ≡ changes (secret_summary c now i)
  unfolding apply_snapshot
  stored s h =
      let (secrets, _) = observe_secrets c now sis in
      let ranged = order (values (observe_workloads c now secrets wis).1) in
      let read =
        (observe_secrets-Reads c now k sis).0 ∙ ap (map_input (secret_summary c now)) seen in
      let u = secret_summary c now i in
      let there = get-add_placeholders k u secrets ranged read in
      let (u', found, e) =
        completed (complete_secret (index_edges ranged)) k (add_placeholders secrets ranged) h in
      let same : u' ≡ u = cc (there, found) in
      ap changes e ∙ changes-complete_secret k ranged u' ∙ ap changes same

-- A re-list with an unchanged version keeps the change record of the summary before.
changes-secret_summary :
    (c : Cache) (now : Time) (i : SecretInput) (s : SecretSummary)
    → get (input_key c now i) c.secrets ≡ some s
    → get (input_key c now i) c.secret_versions ≡ some i.resource_version
    → s.last_observed_change_time ≢ 0
    → changes (secret_summary c now i) ≡ changes s
unfolding secret_summary
changes-secret_summary c now i s h v set = ground (arith, h, v, ==_refl i.resource_version)

-- The change time of a stored Secret is set once the clock is.
time-secret_summary :
    (c : Cache) (now : Time) (i : SecretInput)
    → now ≢ 0
    → (secret_summary c now i).last_observed_change_time ≢ 0
unfolding secret_summary
time-secret_summary c now i set = ground arith

last_input-key :
    (c : Cache) (now : Time) (k : Text) (o : Option SecretInput) (is : List SecretInput)
    (i : SecretInput)
    → ((j : SecretInput) → o ≡ some j → input_key c now j ≡ k)
    → last_input c now k o is ≡ some i
    → input_key c now i ≡ k
last_input-key c now k o [] i h e = h i e
last_input-key c now k o (x ∷ is) i h e =
    last_input-key c now k (if input_key c now x == k then some x else o) is i
      (λ j e'. elim (Bool-cases (input_key c now x == k)) [
        | inl t ↦
            let same : x ≡ j = ground arith in
            ap (input_key c now) (sym same) ∙ (==_iff (input_key c now x) k).0 t
        | inr t ↦ h j (rw t at e')
      ])
      e

module _ (order : List DependencyEdge → List DependencyEdge) (c : Cache) (sis : List SecretInput)
    (wis : List WorkloadInput) (now : Time) (k : Text) where
  version_of :
      (i : SecretInput)
      → last_input c now k none sis ≡ some i
      → get k (apply_snapshot order c sis wis now).secret_versions ≡ some i.resource_version
  unfolding apply_snapshot
  version_of i seen =
      (observe_secrets-Reads c now k sis).1 ∙ ap (map_input (λ i. i.resource_version)) seen

  input_key-apply_snapshot :
      (t : Time) (i : SecretInput)
      → input_key (apply_snapshot order c sis wis now) t i ≡ input_key c now i
  unfolding apply_snapshot
  input_key-apply_snapshot t i = refl

  last_input-apply_snapshot :
      (t : Time) (is : List SecretInput)
      → last_input (apply_snapshot order c sis wis now) t k none is ≡ last_input c now k none is
  unfolding apply_snapshot
  last_input-apply_snapshot t is = refl

  -- When the same Secrets are listed again with the same versions, as on a resync, a second rebuild
  -- at any later time keeps the change count and the change time of each of them.
  pub apply_snapshot-resync :
      (order' : List DependencyEdge → List DependencyEdge) (wis' : List WorkloadInput) (now' : Time)
      (i : SecretInput) (s s' : SecretSummary)
      → now ≢ 0
      → last_input c now k none sis ≡ some i
      → get k (apply_snapshot order c sis wis now).secrets ≡ some s
      → get k (apply_snapshot order' (apply_snapshot order c sis wis now) sis wis' now').secrets
        ≡ some s'
      → changes s' ≡ changes s
  apply_snapshot-resync order' wis' now' i s s' set seen h h' =
      let c' = apply_snapshot order c sis wis now in
      let key : input_key c' now' i ≡ k =
        input_key-apply_snapshot now' i ∙ last_input-key c now k none sis i (λ j e. cc) seen in
      let first = stored order c sis wis now k i seen s h in
      let second =
        stored order' c' sis wis' now' k i (last_input-apply_snapshot now' sis ∙ seen) s' h' in
      let time : s.last_observed_change_time ≢ 0 =
        λ z. time-secret_summary c now i set (sym (ap (λ (p : ℕ × Time). p.1) first) ∙ z) in
      second
      ∙ changes-secret_summary c' now' i s (ap (λ t. get t c'.secrets) key ∙ h)
          (ap (λ t. get t c'.secret_versions) key ∙ version_of i seen) time
