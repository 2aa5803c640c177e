-- ===== src/Metrics/Runtime/Described.antt =====
-- What the runtime collector sends is described.
use kbeacon.Prelude.{ℕ, refl, Bool, Option, [], ◌∷◌, All, All-append}
use kbeacon.Text.{Text, ◌==◌, elem}
use kbeacon.Dict.{Dict}
use kbeacon.Graph.Types.{Time}
use kbeacon.Metrics.Collector.{Metric}
use kbeacon.Metrics.Collector.Fits.{Fits, All-send}
use kbeacon.Metrics.Runtime.{
  RuntimeCollector, runtime_describe, sync_metric, objects_metric, no_statuses, some_counts,
  runtime_collect,
}

module _ (c : RuntimeCollector) where
  abbrev P : Metric → Type 0
  P = Fits runtime_describe

  sync_metric-Fits : (s : Text × Bool) → P (sync_metric c s)
  unfolding sync_metric elem ◌==◌
  sync_metric-Fits (resource, synced) = record { labelled = refl; known = refl }

  objects_metric-Fits : (n : Text × ℕ) → P (objects_metric c n)
  unfolding objects_metric elem ◌==◌
  objects_metric-Fits (resource, count) = record { labelled = refl; known = refl }

  -- Every metric that the runtime collector sends has a value for each label of its description and is
  -- one of those that the collector describes, whichever functions it was given.
  runtime_collect-Fits :
      (now : Time) (statuses : Option (Dict Bool)) (counts : Option (Dict ℕ))
      → All P (runtime_collect c now statuses counts)
  unfolding runtime_collect elem ◌==◌
  runtime_collect-Fits now statuses counts = (
    record { labelled = refl; known = refl },
    All-append P _ _
        (All-send P (λ s. sync_metric c s ∷ []) (λ s. (sync_metric-Fits s, tt))
          (no_statuses c statuses))
        (All-send P (λ n. objects_metric c n ∷ []) (λ n. (objects_metric-Fits n, tt))
          (some_counts c now counts)),
  )
