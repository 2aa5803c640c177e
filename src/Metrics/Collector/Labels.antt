-- ===== src/Metrics/Collector/Labels.antt =====
-- What the labels of a metric say it is of, and the metrics of one Secret.
use kbeacon.Prelude.{
  ℕ, ◌≡◌, refl, sym, ap, ◌∙◌, List, [], ◌∷◌, ◌++◌, if◌then◌else◌, eqb, All, All-append, Bool-cases,
  inl, inr,
}
use kbeacon.Text.{Text, str, ◌==◌, elem, to_lower, join}
use kbeacon.Dict.{Dict, Entries}
use kbeacon.Pairs.{AllPairs}
use kbeacon.Graph.Types.{Time, DependencyEdge, SecretSummary}
use kbeacon.Graph.Keys.{edge_id, secret_id}
use kbeacon.Graph.Cache.Keyed.{EdgeAt}
use kbeacon.Metrics.Collector.{Metric, edge_metric, secret_metrics}
use kbeacon.Metrics.Collector.Series.{Series, series, Differ, AllPairs-names}
use kbeacon.Metrics.Collector.Fits.{All-unless}

-- What the labels of an edge, a workload and a Secret say it is.
abbrev pub edge_label_id : List Text → Text
edge_label_id (c ∷ n ∷ k ∷ w ∷ sn ∷ s ∷ more) =
    join (str "|") (c ∷ n ∷ to_lower k ∷ w ∷ sn ∷ s ∷ [])
edge_label_id _ = []

abbrev pub workload_label_id : List Text → Text
workload_label_id (c ∷ n ∷ k ∷ w ∷ more) = n ++ (str "/" ++ (to_lower k ++ (str "/" ++ w)))
workload_label_id _ = []

abbrev pub secret_label_id : List Text → Text
secret_label_id (c ∷ n ∷ s ∷ more) = n ++ (str "/" ++ s)
secret_label_id _ = []

abbrev header_names : List Text
header_names =
    str "kbeacon_build_info"
    ∷ str "kbeacon_cluster_dependency_count"
    ∷ str "kbeacon_cluster_secret_count"
    ∷ str "kbeacon_cluster_workload_count"
    ∷ []

-- The part of the collection that a series is from.
unfoldable pub part : Series → ℕ
unfolding ◌==◌ elem
part s =
    if s.name == str "kbeacon_dependency_edges"
    then 1
    else if s.name == str "kbeacon_workload_dependency_count"
    then 2
    else if elem s.name header_names
    then 0
    else 3

-- The metrics of one Secret.
module _ (unix : Time → ℕ) (s : SecretSummary) where
  pub secret_metrics-Differ : AllPairs Differ (secret_metrics unix s)
  unfolding secret_metrics elem ◌==◌
  secret_metrics-Differ = elim (Bool-cases (eqb s.last_observed_change_time 0)) [
    | inl a ↦ elim (Bool-cases (eqb s.unresolved_reference_count 0)) [
      | inl b ↦ AllPairs-names (secret_metrics unix s) (rw (a, b) refl)
      | inr b ↦ AllPairs-names (secret_metrics unix s) (rw (a, b) refl)
    ]
    | inr a ↦ elim (Bool-cases (eqb s.unresolved_reference_count 0)) [
      | inl b ↦ AllPairs-names (secret_metrics unix s) (rw (a, b) refl)
      | inr b ↦ AllPairs-names (secret_metrics unix s) (rw (a, b) refl)
    ]
  ]

  pub secret_metrics-have :
      (P : Metric → Type 0)
      → ((m : Metric) → secret_label_id m.labels ≡ secret_id s.ref → part (series m) ≡ 3 → P m)
      → All P (secret_metrics unix s)
  unfolding secret_metrics secret_id part
  secret_metrics-have P h = (
    h _ refl refl,
    (
      h _ refl refl,
      (
        h _ refl refl,
        All-append P _ _ (All-unless P (eqb s.last_observed_change_time 0) _ (h _ refl refl, tt)) (
          h _ refl refl,
          All-unless P (eqb s.unresolved_reference_count 0) _ (h _ refl refl, tt),
        ),
      ),
    ),
  )

unfoldable pub edge_id_by_labels : DependencyEdge → Text
unfolding edge_metric
edge_id_by_labels e = edge_label_id (edge_metric e).labels

pub edge_id_by_labels-key :
    (cluster : Text) (m : Dict DependencyEdge)
    → Entries (EdgeAt cluster) m
    → Entries (λ k e. edge_id_by_labels e ≡ k) m
unfolding edge_id_by_labels edge_id
edge_id_by_labels-key cluster [] h = tt
edge_id_by_labels-key cluster ((k, e) ∷ m) (at, h) = (
  ap
        (λ c. join (str "|") (
          c
          ∷ e.workload.namespace
          ∷ to_lower e.workload.kind
          ∷ e.workload.name
          ∷ e.secret.namespace
          ∷ e.secret.name
          ∷ []))
        (at.in_cluster ∙ sym at.workload_in_cluster)
      ∙ at.ends,
  edge_id_by_labels-key cluster m h,
)

pub Entries-id {ℓ} :
    {V : Type ℓ} (P : Text → V → Type 0) (id : V → Text)
    → ((k : Text) (v : V) → P k v → id v ≡ k)
    → (m : Dict V) → Entries P m
    → Entries (λ k v. id v ≡ k) m
Entries-id P id f [] h = tt
Entries-id P id f ((k, v) ∷ m) (p, h) = (f k v p, Entries-id P id f m h)
