-- ===== src/Graph/Tests.antt =====
-- Tests of internal/graph on a small cluster, and the theorems at it.
use mathlib.Core.List.Permᴰ
use kbeacon.Prelude.{
  ℕ, ◌≡◌, refl, Bool, true, false, Option, none, some, List, [], ◌∷◌, map, length, keep, All, arith,
  ◌↔◌, some_or,
}
use kbeacon.Sort.{insert_by, sort_by}
use kbeacon.Text.{Text, str, ◌==◌, elem, to_lower, trim_space, join, text_ltb, has_byte, equal_fold}
use kbeacon.Dict.{get, put, values, map_values, Entries}
use kbeacon.Dict.Sets.{add}
use kbeacon.Graph.Types.{
  infer, SecretRef, WorkloadRef, DependencySource, DependencyEdge, SecretSummary, WorkloadSummary,
  SecretInput, WorkloadInput, SecretImpact, WorkloadDependencies,
}
use kbeacon.Graph.Keys.{edge_id, secret_id, workload_id}
use kbeacon.Graph.Keys.Injective.{PipeFree, edge_id_injective, secret_id_injective}
use kbeacon.Graph.Criticality.{
  normalize_criticality, max_criticality, criticality_rank, impact_score,
}
use kbeacon.Graph.Observe.{
  Cache, new_cache, zero_summary, secret_summary, observe_secret, observe_secrets, prepare_edge,
  merge_edge, observe_edge, workload_summary, observe_workload, observe_workloads,
}
use kbeacon.Graph.Aggregate.{
  index_edge, index_edges, add_placeholder, add_placeholders, single_team, complete_secret,
  complete_workload,
}
use kbeacon.Graph.Cache.{apply_snapshot}
use kbeacon.Graph.Cache.Counts.{
  Rearranges, SecretCounts, WorkloadCounts, apply_snapshot-SecretCounts,
  apply_snapshot-WorkloadCounts,
}
use kbeacon.Graph.Cache.History.{
  Dated, last_input, changes, apply_snapshot-Dated, apply_snapshot-resync,
}
use kbeacon.Graph.Cache.Keyed.{IsKeyed, apply_snapshot-IsKeyed}
use kbeacon.Graph.Cache.Links.{LinksTo, apply_snapshot-LinksTo}
use kbeacon.Graph.Queries.{
  first, index_by, snapshot, impact_workload, impact_edge, secret_impact_of, get_secret_impact,
  add_dependency, dependencies_of, get_workload_dependencies, impact_target, no_impact,
}
use kbeacon.Graph.Queries.{dependency_map}
use kbeacon.Graph.Queries.Closed.{secret_node_id, id_of, dependency_map-closed}
use kbeacon.Graph.Queries.Impact.{same_secret, get_secret_impact-edges, get_secret_impact-none_iff}
use kbeacon.Graph.Queries.Dependencies.{Answered, get_workload_dependencies-Answered}
use kbeacon.Graph.Aggregate.Reads.{to_secret}

-- Its unfolding line opens the whole component.
graph : Unit {0}
unfolding apply_snapshot observe_secrets observe_secret secret_summary observe_workloads
    observe_workload observe_edge prepare_edge merge_edge workload_summary index_edges index_edge
    add_placeholders add_placeholder complete_secret complete_workload single_team impact_score
    max_criticality criticality_rank normalize_criticality edge_id secret_id workload_id get put
    values map_values add elem ◌==◌ to_lower trim_space join snapshot sort_by insert_by text_ltb
    first index_by impact_workload impact_edge secret_impact_of get_secret_impact add_dependency
    dependencies_of get_workload_dependencies
graph = tt

abbrev workload : WorkloadRef
workload = record {
  cluster = [];
  namespace = str "default";
  api_version = str "apps/v1";
  kind = str "Deployment";
  name = str "api";
  uid = [];
}

abbrev secret : Text → SecretRef
secret name = record { cluster = []; namespace = str "default"; name = name; key = [] }

abbrev source : DependencySource
source = record {
  type = str "imagePullSecrets";
  path = [];
  container = [];
  init_container = [];
  ephemeral = false;
  volume = [];
  env_var = [];
  annotation = [];
  resource_field = [];
}

abbrev edge : Text → DependencyEdge
edge name = record {
  id = [];
  cluster = [];
  workload = workload;
  secret = secret name;
  discovery_mode = infer;
  sources = source ∷ [];
  optional = false;
  resolved = false;
  owner_team = [];
  criticality = [];
  purpose = [];
  first_observed_at = 0;
  last_observed_at = 0;
}

abbrev db_input : Text → SecretInput
db_input version = record {
  ref = secret (str "db");
  type = str "Opaque";
  owner_team = [];
  criticality = str "High";
  resource_version = version;
  creation_timestamp = 5;
}

abbrev api_input : WorkloadInput
api_input = record {
  ref = workload;
  owner_team = str "core";
  service = [];
  environment = [];
  criticality = str " low ";
  discovery_mode = infer;
  edges = edge (str "db") ∷ edge (str "db") ∷ edge (str "gone") ∷ [];
}

abbrev in_order : List DependencyEdge → List DependencyEdge
in_order es = es

in_order-Rearranges : Rearranges in_order
in_order-Rearranges es = Permᴰ.refl es

abbrev cluster : Text
cluster = str "c1"

abbrev first_cache : Cache
first_cache =
    apply_snapshot in_order (new_cache cluster) (db_input (str "1") ∷ []) (api_input ∷ []) 10

abbrev second_cache : Cache
second_cache = apply_snapshot in_order first_cache (db_input (str "2") ∷ []) (api_input ∷ []) 20

abbrev view : SecretSummary → Bool × Text × ℕ × ℕ × ℕ × ℕ
view s = (
  s.present, s.criticality, s.observed_change_count, s.affected_workload_count,
  s.unresolved_reference_count, s.impact_score,
)

abbrev view_at : Text → Cache → Option (Bool × Text × ℕ × ℕ × ℕ × ℕ)
view_at k c = elim (get k c.secrets) [ none ↦ none | some s ↦ some (view s) ]

rebuilds :
    (view_at (str "default/db") first_cache ≡ some (true, str "high", 0, 1, 0, 24))
    × (view_at (str "default/db") second_cache ≡ some (true, str "high", 1, 1, 0, 24))
    × (view_at (str "default/gone") second_cache ≡ some (false, str "low", 0, 1, 1, 10))
unfolding graph
rebuilds = (refl, refl, refl)

-- The Secret that only an edge names.
abbrev gone : Option SecretSummary
gone = get (str "default/gone") first_cache.secrets

abbrev gone_summary : SecretSummary
gone_summary = record {
  ref = record { cluster = cluster; namespace = str "default"; name = str "gone"; key = [] };
  present = false;
  type = [];
  owner_team = str "core";
  criticality = str "low";
  last_observed_change_time = 0;
  observed_change_count = 0;
  affected_workload_count = 1;
  affected_team_count = 1;
  affected_namespace_count = 1;
  unresolved_reference_count = 1;
  impact_score = 10;
}

gone_is : gone ≡ some gone_summary
unfolding graph
gone_is = refl

apply_snapshot-SecretCounts_example :
    SecretCounts (str "default/gone") (values first_cache.edges) gone_summary
apply_snapshot-SecretCounts_example =
    apply_snapshot-SecretCounts in_order in_order-Rearranges (new_cache cluster)
      (db_input (str "1") ∷ []) (api_input ∷ []) 10 (str "default/gone") gone_summary gone_is

abbrev api_summary : WorkloadSummary
api_summary = record {
  ref = record workload { cluster = cluster };
  owner_team = str "core";
  service = [];
  environment = [];
  criticality = str "low";
  discovery_mode = infer;
  dependency_count = 2;
  unresolved_count = 1;
}

api_is : get (str "default/deployment/api") first_cache.workloads ≡ some api_summary
unfolding graph
api_is = refl

apply_snapshot-WorkloadCounts_example :
    WorkloadCounts (str "default/deployment/api") (values first_cache.edges) api_summary
apply_snapshot-WorkloadCounts_example =
    apply_snapshot-WorkloadCounts in_order in_order-Rearranges (new_cache cluster)
      (db_input (str "1") ∷ []) (api_input ∷ []) 10 (str "default/deployment/api") api_summary
      api_is

apply_snapshot-IsKeyed_example : IsKeyed second_cache
apply_snapshot-IsKeyed_example =
    apply_snapshot-IsKeyed in_order first_cache (db_input (str "2") ∷ []) (api_input ∷ []) 20
      in_order-Rearranges

workload-PipeFree : (name : Text) → PipeFree workload (secret name)
unfolding has_byte
workload-PipeFree name = record {
  namespace = refl;
  kind = refl;
  name = refl;
  secret_namespace = refl;
}

apply_snapshot-LinksTo_example : Entries (λ k e. LinksTo second_cache.secrets e) second_cache.edges
apply_snapshot-LinksTo_example =
    apply_snapshot-LinksTo in_order first_cache (db_input (str "2") ∷ []) (api_input ∷ []) 20
      in_order-Rearranges
      (
        (
          workload-PipeFree (str "db"),
          (workload-PipeFree (str "db"), (workload-PipeFree (str "gone"), tt)),
        ),
        tt,
      )

dependency_map-closed_example :
    All
      (λ e.
        elem
          (secret_node_id (secret_id e.secret))
          (map id_of (dependency_map second_cache 30).nodes)
        ≡ true)
      (dependency_map second_cache 30).edges
dependency_map-closed_example =
    dependency_map-closed in_order first_cache (db_input (str "2") ∷ []) (api_input ∷ []) 20 30
      in_order-Rearranges
      (
        (
          workload-PipeFree (str "db"),
          (workload-PipeFree (str "db"), (workload-PipeFree (str "gone"), tt)),
        ),
        tt,
      )

edge_id_injective_example :
    (workload.namespace ≡ workload.namespace)
    × (to_lower workload.kind ≡ to_lower workload.kind)
    × (workload.name ≡ workload.name)
    × ((secret (str "db")).namespace ≡ (secret (str "db")).namespace)
    × ((secret (str "db")).name ≡ (secret (str "db")).name)
edge_id_injective_example =
    edge_id_injective workload workload (secret (str "db")) (secret (str "db")) refl
      (workload-PipeFree (str "db")) (workload-PipeFree (str "db")) refl

secret_id_injective_example :
    ((secret (str "db")).namespace ≡ (secret (str "db")).namespace)
    × ((secret (str "db")).name ≡ (secret (str "db")).name)
unfolding has_byte
secret_id_injective_example =
    secret_id_injective (secret (str "db")) (secret (str "db")) refl refl refl

abbrev some_impact : SecretImpact
some_impact =
    some_or (secret_impact_of zero_summary no_impact)
      (get_secret_impact second_cache 30 (str "default") (str "gone"))

impact_is : get_secret_impact second_cache 30 (str "default") (str "gone") ≡ some some_impact
unfolding graph
impact_is = refl

get_secret_impact-edges_example :
    some_impact.edges
    ≡ keep (to_secret (impact_target (str "default") (str "gone"))) (snapshot second_cache 30).edges
get_secret_impact-edges_example =
    get_secret_impact-edges second_cache 30 (str "default") (str "gone") some_impact impact_is

get_secret_impact-none_iff_example :
    (get_secret_impact second_cache 30 (str "default") (str "nope") ≡ none) ↔ (
      All
        (λ s. same_secret (impact_target (str "default") (str "nope")) s ≡ false)
        (snapshot second_cache 30).secrets
      × (keep
            (to_secret (impact_target (str "default") (str "nope")))
            (snapshot second_cache 30).edges
          ≡ []))
get_secret_impact-none_iff_example =
    get_secret_impact-none_iff second_cache 30 (str "default") (str "nope")

abbrev api_dependencies : WorkloadDependencies
api_dependencies =
    some_or (record { workload = api_summary; dependencies = [] })
      (get_workload_dependencies second_cache 30 (str "default") (str "deployment") (str "api"))

dependencies_are :
    get_workload_dependencies second_cache 30 (str "default") (str "deployment") (str "api")
    ≡ some api_dependencies
unfolding graph equal_fold
dependencies_are = refl

two_dependencies : length api_dependencies.dependencies ≡ 2
unfolding graph equal_fold
two_dependencies = refl

get_workload_dependencies-Answered_example :
    Answered
      (snapshot second_cache 30)
      (str "default")
      (str "deployment")
      (str "api")
      (get_workload_dependencies second_cache 30 (str "default") (str "deployment") (str "api"))
get_workload_dependencies-Answered_example =
    get_workload_dependencies-Answered second_cache 30 (str "default") (str "deployment")
      (str "api")

apply_snapshot-Dated_example : Entries (Dated first_cache 20) second_cache.edges
apply_snapshot-Dated_example =
    apply_snapshot-Dated in_order first_cache (db_input (str "2") ∷ []) (api_input ∷ []) 20

abbrev relisted : Cache
relisted = apply_snapshot in_order first_cache (db_input (str "1") ∷ []) [] 40

abbrev db_summary : Cache → SecretSummary
db_summary c = some_or zero_summary (get (str "default/db") c.secrets)

last_db :
    last_input (new_cache cluster) 10 (str "default/db") none (db_input (str "1") ∷ [])
    ≡ some (db_input (str "1"))
unfolding graph
last_db = refl

first_db : get (str "default/db") first_cache.secrets ≡ some (db_summary first_cache)
unfolding graph
first_db = refl

relisted_db : get (str "default/db") relisted.secrets ≡ some (db_summary relisted)
unfolding graph
relisted_db = refl

apply_snapshot-resync_example : changes (db_summary relisted) ≡ changes (db_summary first_cache)
apply_snapshot-resync_example =
    apply_snapshot-resync in_order (new_cache cluster) (db_input (str "1") ∷ []) (api_input ∷ []) 10
      (str "default/db") in_order [] 40 (db_input (str "1")) (db_summary first_cache)
      (db_summary relisted) (omega arith) last_db first_db relisted_db
