-- ===== src/Graph/Cache/Counts.antt =====
-- The counts of the summaries after `ApplySnapshot`, against a description over the stored edges.
use mathlib.Core.List.{Permᴰ}
use kbeacon.Prelude.{◌≡◌, ap, ◌∙◌, some, List, map, length, keep, Option-cases, inl, inr, Bool}
use kbeacon.Rearrange.{keep-perm, elem-map-perm, length-perm}
use kbeacon.Text.{Text}
use kbeacon.Dict.{Dict, get, values, option_map, map_values, get-map_values}
use kbeacon.Dict.Counting.{distinct_count, distinct_count_same, length-set_of}
use kbeacon.Graph.Types.{
  Time, DependencyEdge, SecretSummary, WorkloadSummary, SecretInput, WorkloadInput,
}
use kbeacon.Graph.Observe.{Cache, observe_secrets, observe_workloads}
use kbeacon.Graph.Aggregate.{index_edges, add_placeholders, complete_secret, complete_workload}
use kbeacon.Graph.Aggregate.Reads.{
  to_secret, of_workload, with_team, unresolved_to, unresolved_of, workload_key, secret_key, team,
  workload_namespace, affected_workloads-index, affected_teams-index, affected_namespaces-index,
  unresolved_refs-index, workload_deps-index, workload_unresolved-index,
}
use kbeacon.Graph.Cache.{apply_snapshot}

-- Go ranges over a map in any order.
abbrev pub Rearranges : (List DependencyEdge → List DependencyEdge) → Type 0
Rearranges order = (es : List DependencyEdge) → Permᴰ (order es) es

distinct_perm :
    (f : DependencyEdge → Text) (p : DependencyEdge → Bool) {xs ys : List DependencyEdge}
    → Permᴰ xs ys
    → distinct_count (map f (keep p xs)) ≡ distinct_count (map f (keep p ys))
distinct_perm f p d = distinct_count_same _ _ (λ z. elem-map-perm f z (keep-perm p d))

count_perm :
    (p : DependencyEdge → Bool) {xs ys : List DependencyEdge}
    → Permᴰ xs ys
    → length (keep p xs) ≡ length (keep p ys)
count_perm p d = length-perm (keep-perm p d)

-- What the counts of a Secret's summary say of the edges.
pub record SecretCounts (k : Text) (es : List DependencyEdge) (s : SecretSummary) : Type 0 where
  pub workloads :
      s.affected_workload_count ≡ distinct_count (map workload_key (keep (to_secret k) es))
  pub teams : s.affected_team_count ≡ distinct_count (map team (keep (with_team k) es))
  pub namespaces :
      s.affected_namespace_count ≡ distinct_count (map workload_namespace (keep (to_secret k) es))
  pub unresolved : s.unresolved_reference_count ≡ length (keep (unresolved_to k) es)

pub record WorkloadCounts (k : Text) (es : List DependencyEdge) (w : WorkloadSummary) : Type 0 where
  pub dependencies : w.dependency_count ≡ distinct_count (map secret_key (keep (of_workload k) es))
  pub unresolved : w.unresolved_count ≡ length (keep (unresolved_of k) es)

-- A summary read after the loop that completes the summaries is one that was completed.
pub completed {ℓ} :
    {V : Type ℓ} (f : Text → V → V) (k : Text) (m : Dict V) {v : V}
    → get k (map_values f m) ≡ some v
    → (u : V) × (get k m ≡ some u) × (v ≡ f k u)
completed f k m h = elim (Option-cases (get k m)) [
  | inl e ↦ absurd (cc (get-map_values f k m, ap (option_map (f k)) e))
  | inr (u, e) ↦ (u, e, cc (get-map_values f k m, ap (option_map (f k)) e))
]

module _ (k : Text) {es ranged : List DependencyEdge} (d : Permᴰ ranged es) where
  complete_secret-SecretCounts :
      (s : SecretSummary) → SecretCounts k es (complete_secret (index_edges ranged) k s)
  unfolding complete_secret
  complete_secret-SecretCounts s = record {
    workloads =
        ap length (affected_workloads-index k ranged)
        ∙ length-set_of _
        ∙ distinct_perm workload_key (to_secret k) d;
    teams =
        ap length (affected_teams-index k ranged)
        ∙ length-set_of _
        ∙ distinct_perm team (with_team k) d;
    namespaces =
        ap length (affected_namespaces-index k ranged)
        ∙ length-set_of _
        ∙ distinct_perm workload_namespace (to_secret k) d;
    unresolved = unresolved_refs-index k ranged ∙ count_perm (unresolved_to k) d;
  }

  complete_workload-WorkloadCounts :
      (w : WorkloadSummary) → WorkloadCounts k es (complete_workload (index_edges ranged) k w)
  unfolding complete_workload
  complete_workload-WorkloadCounts w = record {
    dependencies =
        ap length (workload_deps-index k ranged)
        ∙ length-set_of _
        ∙ distinct_perm secret_key (of_workload k) d;
    unresolved = workload_unresolved-index k ranged ∙ count_perm (unresolved_of k) d;
  }

module _ (order : List DependencyEdge → List DependencyEdge) (ok : Rearranges order) (c : Cache)
    (sis : List SecretInput) (wis : List WorkloadInput) (now : Time) where
  -- Each Secret summary that a rebuild stores counts the different workloads, teams and workload
  -- namespaces among the stored edges to that Secret, and its unresolved edges, in whatever order
  -- the runtime ranges over the edges.
  pub apply_snapshot-SecretCounts :
      (k : Text) (s : SecretSummary)
      → get k (apply_snapshot order c sis wis now).secrets ≡ some s
      → SecretCounts k (values (apply_snapshot order c sis wis now).edges) s
  unfolding apply_snapshot
  apply_snapshot-SecretCounts k s h =
      let (secrets, _) = observe_secrets c now sis in
      let (_, edges) = observe_workloads c now secrets wis in
      let ranged = order (values edges) in
      let (u, _, e) =
        completed (complete_secret (index_edges ranged)) k (add_placeholders secrets ranged) h in
      rw e (complete_secret-SecretCounts k (ok (values edges)) u)

  -- Each workload summary that a rebuild stores counts the different Secrets and the unresolved edges
  -- among the stored edges of that workload.
  pub apply_snapshot-WorkloadCounts :
      (k : Text) (w : WorkloadSummary)
      → get k (apply_snapshot order c sis wis now).workloads ≡ some w
      → WorkloadCounts k (values (apply_snapshot order c sis wis now).edges) w
  unfolding apply_snapshot
  apply_snapshot-WorkloadCounts k w h =
      let (secrets, _) = observe_secrets c now sis in
      let (workloads, edges) = observe_workloads c now secrets wis in
      let ranged = order (values edges) in
      let (u, _, e) = completed (complete_workload (index_edges ranged)) k workloads h in
      rw e (complete_workload-WorkloadCounts k (ok (values edges)) u)
