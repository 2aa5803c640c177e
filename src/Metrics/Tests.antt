-- ===== src/Metrics/Tests.antt =====
-- Tests of internal/metrics, and the theorems at a small graph.
use mathlib.Core.List.Permᴰ
use kbeacon.Prelude.{ℕ, ◌≢◌, true, false, List, [], ◌∷◌, All}
use kbeacon.Text.{Text, str}
use kbeacon.Pairs.{AllPairs}
use kbeacon.Graph.Types.{
  infer, Time, SecretRef, WorkloadRef, DependencyEdge, SecretInput, WorkloadInput,
}
use kbeacon.Graph.Observe.{Cache, new_cache}
use kbeacon.Graph.Cache.{apply_snapshot}
use kbeacon.Metrics.Collector.{GraphCollector, describe, collect}
use kbeacon.Metrics.Collector.Series.{series}
use kbeacon.Metrics.Collector.Fits.{Fits, collect-Fits}
use kbeacon.Metrics.Collector.Distinct.{collect-AllPairs}

abbrev api : WorkloadRef
api = record {
  cluster = [];
  namespace = str "default";
  api_version = str "apps/v1";
  kind = str "Deployment";
  name = str "api";
  uid = [];
}

abbrev secret : Text → SecretRef
secret name = record { cluster = []; namespace = str "default"; name = name; key = [] }

abbrev edge : Text → DependencyEdge
edge name = record {
  id = [];
  cluster = [];
  workload = api;
  secret = secret name;
  discovery_mode = infer;
  sources = [];
  optional = false;
  resolved = false;
  owner_team = [];
  criticality = [];
  purpose = [];
  first_observed_at = 0;
  last_observed_at = 0;
}

abbrev db : SecretInput
db = record {
  ref = secret (str "db");
  type = str "Opaque";
  owner_team = [];
  criticality = [];
  resource_version = str "1";
  creation_timestamp = 5;
}

abbrev api_input : WorkloadInput
api_input = record {
  ref = api;
  owner_team = [];
  service = [];
  environment = [];
  criticality = [];
  discovery_mode = infer;
  edges = edge (str "db") ∷ edge (str "gone") ∷ [];
}

abbrev in_order : List DependencyEdge → List DependencyEdge
in_order es = es

abbrev rebuilt : Cache
rebuilt = apply_snapshot in_order (new_cache (str "c1")) (db ∷ []) (api_input ∷ []) 10

abbrev collector : GraphCollector
collector = record {
  graph = rebuilt;
  cluster = str "c1";
  version = str "dev";
  commit = [];
  emit_edges = true;
}

abbrev seconds : Time → ℕ
seconds t = t

collect-Fits_example : All (Fits (describe collector)) (collect seconds (str "go1.25") 20 collector)
collect-Fits_example = collect-Fits collector seconds (str "go1.25") 20

collect-AllPairs_example :
    AllPairs (λ m n. series m ≢ series n) (collect seconds (str "go1.25") 20 collector)
collect-AllPairs_example =
    collect-AllPairs in_order (new_cache (str "c1")) (db ∷ []) (api_input ∷ []) 10 20 collector
      seconds (str "go1.25") (λ es. Permᴰ.refl es)
