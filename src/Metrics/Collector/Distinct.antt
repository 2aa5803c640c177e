-- ===== src/Metrics/Collector/Distinct.antt =====
-- No two metrics that the collector sends are the same time series.
use kbeacon.Prelude.{
  ℕ, ◌≡◌, ◌≢◌, refl, Bool, true, false, List, [], ◌∷◌, ◌++◌, arith, if◌then◌else◌, All,
}
use kbeacon.Text.{Text, ◌==◌, elem}
use kbeacon.Pairs.{AllPairs, AllPairs-append, Across-append, AllPairs-sorted}
use kbeacon.Graph.Types.{
  Time, DependencyEdge, SecretSummary, WorkloadSummary, SecretInput, WorkloadInput, Snapshot,
}
use kbeacon.Graph.Keys.{workload_id}
use kbeacon.Graph.Observe.{Cache}
use kbeacon.Graph.Cache.{apply_snapshot}
use kbeacon.Graph.Cache.Counts.{Rearranges}
use kbeacon.Graph.Cache.Keyed.{SecretAt, WorkloadAt, IsKeyed, apply_snapshot-IsKeyed}
use kbeacon.Graph.Queries.{snapshot, secret_key_of, workload_key_of, edge_key_of}
use kbeacon.Metrics.Collector.{
  Metric, GraphCollector, edge_metric, workload_metric, secret_metrics, send, cluster_metrics,
  collect,
}
use kbeacon.Metrics.Collector.Series.{series, Differ, Across-told, AllPairs-send, AllPairs-names}
use kbeacon.Metrics.Collector.Fits.{All-send}
use kbeacon.Metrics.Collector.Labels.{
  secret_label_id, workload_label_id, edge_label_id, part, secret_metrics-Differ,
  secret_metrics-have, edge_id_by_labels, edge_id_by_labels-key, Entries-id,
}

module _ (unix : Time → ℕ) (go_version : Text) (now : Time) (c : GraphCollector)
    (keyed : IsKeyed c.graph) where
  edges-Differ : AllPairs Differ (send (λ e. edge_metric e ∷ []) (snapshot c.graph now).edges)
  unfolding snapshot edge_id_by_labels edge_metric
  edges-Differ =
      AllPairs-send (λ s. edge_label_id s.labels) edge_id_by_labels (λ e. edge_metric e ∷ [])
        (λ e. (tt, tt)) (λ e. (refl, tt)) _
        (AllPairs-sorted edge_id_by_labels edge_key_of c.graph.edges
          (edge_id_by_labels-key c.graph.cluster c.graph.edges keyed.edges) keyed.edges_once)

  workloads-Differ :
      AllPairs Differ (send (λ w. workload_metric w ∷ []) (snapshot c.graph now).workloads)
  unfolding snapshot workload_metric workload_id
  workloads-Differ =
      AllPairs-send (λ s. workload_label_id s.labels) workload_key_of (λ w. workload_metric w ∷ [])
        (λ w. (tt, tt)) (λ w. (refl, tt)) _
        (AllPairs-sorted workload_key_of workload_key_of c.graph.workloads
          (Entries-id (WorkloadAt c.graph.cluster) workload_key_of (λ k w at. at.id)
            c.graph.workloads keyed.workloads)
          keyed.workloads_once)

  secrets-Differ : AllPairs Differ (send (secret_metrics unix) (snapshot c.graph now).secrets)
  unfolding snapshot
  secrets-Differ =
      AllPairs-send (λ s. secret_label_id s.labels) secret_key_of (secret_metrics unix)
        (secret_metrics-Differ unix) (λ s. secret_metrics-have unix s _ (λ m id part. id)) _
        (AllPairs-sorted secret_key_of secret_key_of c.graph.secrets
          (Entries-id (SecretAt c.graph.cluster) secret_key_of (λ k s at. at.id) c.graph.secrets
            keyed.secrets)
          keyed.secrets_once)

  abbrev InPart : ℕ → Metric → Type 0
  InPart n m = part (series m) ≡ n

  -- Every part has its own names.
  edges-part : (es : List DependencyEdge) → All (InPart 1) (send (λ e. edge_metric e ∷ []) es)
  unfolding part edge_metric
  edges-part = All-send (InPart 1) (λ e. edge_metric e ∷ []) (λ e. (refl, tt))

  workloads-part :
      (ws : List WorkloadSummary) → All (InPart 2) (send (λ w. workload_metric w ∷ []) ws)
  unfolding part workload_metric
  workloads-part = All-send (InPart 2) (λ w. workload_metric w ∷ []) (λ w. (refl, tt))

  secrets-part : (ss : List SecretSummary) → All (InPart 3) (send (secret_metrics unix) ss)
  secrets-part =
      All-send (InPart 3) (secret_metrics unix)
        (λ s. secret_metrics-have unix s (InPart 3) (λ m id part. part))

  header-part : (snap : Snapshot) → All (InPart 0) (cluster_metrics go_version c snap)
  unfolding part cluster_metrics
  header-part snap = (refl, (refl, (refl, (refl, tt))))

  header-Differ : (snap : Snapshot) → AllPairs Differ (cluster_metrics go_version c snap)
  unfolding cluster_metrics elem ◌==◌
  header-Differ snap = AllPairs-names (cluster_metrics go_version c snap) refl

  -- The edges that are sent, if they are.
  shown : Bool → List Metric
  shown b = if b then send (λ e. edge_metric e ∷ []) (snapshot c.graph now).edges else []

  shown-Differ : (b : Bool) → AllPairs Differ (shown b)
  unfolding shown
  shown-Differ true = edges-Differ
  shown-Differ false = tt

  shown-part : (b : Bool) → All (InPart 1) (shown b)
  unfolding shown
  shown-part true = edges-part (snapshot c.graph now).edges
  shown-part false = tt

  collected-Differ : AllPairs Differ (collect unix go_version now c)
  unfolding collect shown
  collected-Differ =
      let snap = snapshot c.graph now in
      let header = cluster_metrics go_version c snap in
      let edges = shown c.emit_edges in
      let workloads = send (λ w. workload_metric w ∷ []) snap.workloads in
      let secrets = send (secret_metrics unix) snap.secrets in
      let h = header-part snap in
      let e = shown-part c.emit_edges in
      let w = workloads-part snap.workloads in
      let s = secrets-part snap.secrets in
      AllPairs-append Differ header (edges ++ (workloads ++ secrets)) (header-Differ snap)
        (AllPairs-append Differ edges (workloads ++ secrets) (shown-Differ c.emit_edges)
          (AllPairs-append Differ workloads secrets workloads-Differ secrets-Differ
            (Across-told part 2 3 workloads secrets (omega arith) w s))
          (Across-append Differ edges workloads secrets
            (Across-told part 1 2 edges workloads (omega arith) e w)
            (Across-told part 1 3 edges secrets (omega arith) e s)))
        (Across-append Differ header edges (workloads ++ secrets)
          (Across-told part 0 1 header edges (omega arith) h e)
          (Across-append Differ header workloads secrets
            (Across-told part 0 2 header workloads (omega arith) h w)
            (Across-told part 0 3 header secrets (omega arith) h s)))

-- The collector never sends two metrics with the same name and the same label values from a cache
-- that was rebuilt, for which a scrape would fail, whatever was listed and with or without the metrics
-- of edges, where ranging over a map rearranges its entries.
pub collect-AllPairs :
    (order : List DependencyEdge → List DependencyEdge) (cache : Cache) (sis : List SecretInput)
    (wis : List WorkloadInput) (now later : Time) (c : GraphCollector) (unix : Time → ℕ)
    (go_version : Text)
    → Rearranges order
    → AllPairs
        (λ m n. series m ≢ series n)
        (collect unix go_version later
          (record c { graph = apply_snapshot order cache sis wis now }))
collect-AllPairs order cache sis wis now later c unix go_version ok =
    collected-Differ unix go_version later
      (record c { graph = apply_snapshot order cache sis wis now })
      (apply_snapshot-IsKeyed order cache sis wis now ok)
