-- ===== src/Metrics/Collector/Fits.antt =====
-- What the collector sends is described, and has a value for each label of its description.
use kbeacon.Prelude.{
  ℕ, ◌≡◌, refl, Bool, true, false, List, [], ◌∷◌, map, if◌then◌else◌, eqb, length, All, arith,
  All-append, Bool-cases, inl, inr,
}
use kbeacon.Text.{Text, ◌==◌, elem}
use kbeacon.Graph.Types.{Time, DependencyEdge, SecretSummary, WorkloadSummary, Snapshot}
use kbeacon.Graph.Queries.{snapshot}
use kbeacon.Metrics.Collector.{
  Desc, Metric, GraphCollector, describe, edge_metric, workload_metric, secret_metrics, send,
  cluster_metrics, collect, workload_dependency_count, secret_affected_workload_count,
  secret_impact_score, secret_last_changed_timestamp, secret_changes_total, secret_info,
  unresolved_secret_references,
}

-- `MustNewConstMetric` does not panic, and a registry that checks descriptions knows this one.
pub record Fits (described : List Desc) (m : Metric) : Type 0 where
  pub labelled : length m.labels ≡ length m.desc.labels
  pub known : elem m.desc.name (map (λ d. d.name) described) ≡ true

pub All-send {ℓ} :
    {A : Type ℓ} (P : Metric → Type 0) (f : A → List Metric)
    → ((x : A) → All P (f x))
    → (xs : List A) → All P (send f xs)
All-send P f h [] = tt
All-send P f h (x ∷ xs) = All-append P (f x) (send f xs) (h x) (All-send P f h xs)

-- The descriptions that do not depend on the options.
abbrev summary_descs : List Desc
summary_descs =
    workload_dependency_count ∷ secret_affected_workload_count ∷ secret_impact_score
    ∷ secret_last_changed_timestamp ∷ secret_changes_total ∷ secret_info
    ∷ unresolved_secret_references ∷ []

pub All-unless :
    (P : Metric → Type 0) (b : Bool) (ms : List Metric) → All P ms → All P (if b then [] else ms)
All-unless P true ms h = tt
All-unless P false ms h = h

All-when :
    (P : Metric → Type 0) (b : Bool) (ms : List Metric)
    → (b ≡ true → All P ms)
    → All P (if b then ms else [])
All-when P true ms h = h refl
All-when P false ms h = tt

module _ (c : GraphCollector) where
  abbrev P : Metric → Type 0
  P = Fits (describe c)

  cluster_metrics-Fits :
      (go_version : Text) (snap : Snapshot) → All P (cluster_metrics go_version c snap)
  unfolding cluster_metrics describe elem ◌==◌
  cluster_metrics-Fits go_version snap = (
    record { labelled = refl; known = refl },
    (
      record { labelled = refl; known = refl },
      (record { labelled = refl; known = refl }, (record { labelled = refl; known = refl }, tt)),
    ),
  )

  edge_metric-Fits : c.emit_edges ≡ true → (e : DependencyEdge) → P (edge_metric e)
  unfolding edge_metric describe elem ◌==◌
  edge_metric-Fits on e = record { labelled = refl; known = rw on refl }

  -- The descriptions behind that of the edges are always there.
  known_late :
      (name : Text)
      → elem name (map (λ d. d.name) summary_descs) ≡ true
      → elem name (map (λ d. d.name) (describe c)) ≡ true
  unfolding describe elem
  known_late name h = elim (Bool-cases c.emit_edges) [
    | inl on ↦ rw on (ground arith)
    | inr off ↦ rw off (ground arith)
  ]

  workload_metric-Fits : (w : WorkloadSummary) → P (workload_metric w)
  unfolding workload_metric elem ◌==◌
  workload_metric-Fits w = record { labelled = refl; known = known_late _ refl }

  secret_metrics-Fits : (unix : Time → ℕ) (s : SecretSummary) → All P (secret_metrics unix s)
  unfolding secret_metrics elem ◌==◌
  secret_metrics-Fits unix s = (
    record { labelled = refl; known = known_late _ refl },
    (
      record { labelled = refl; known = known_late _ refl },
      (
        record { labelled = refl; known = known_late _ refl },
        All-append P _ _
            (All-unless P (eqb s.last_observed_change_time 0) _
              (record { labelled = refl; known = known_late _ refl }, tt))
            (
              record { labelled = refl; known = known_late _ refl },
              All-unless P (eqb s.unresolved_reference_count 0) _
                  (record { labelled = refl; known = known_late _ refl }, tt),
            ),
      ),
    ),
  )

  -- Every metric that the collector sends has exactly as many label values as its description has
  -- labels, so that making it does not panic, and is one of those that the collector describes.
  pub collect-Fits :
      (unix : Time → ℕ) (go_version : Text) (now : Time) → All P (collect unix go_version now c)
  unfolding collect
  collect-Fits unix go_version now =
      let snap = snapshot c.graph now in
      All-append P _ _ (cluster_metrics-Fits go_version snap) (
        All-append P _ _
          (All-when P c.emit_edges _ (λ on.
            All-send P (λ e. edge_metric e ∷ []) (λ e. (edge_metric-Fits on e, tt)) snap.edges))
          (All-append P _ _
            (All-send P (λ w. workload_metric w ∷ []) (λ w. (workload_metric-Fits w, tt))
              snap.workloads)
            (All-send P (secret_metrics unix) (secret_metrics-Fits unix) snap.secrets)))
