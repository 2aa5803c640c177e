-- ===== src/Graph/Queries.antt =====
-- The reads of the cache in internal/graph/cache.go: `Snapshot`, `ListSecrets`, `ListWorkloads`,
-- `DependencyMap`, `GetSecretImpact` and `GetWorkloadDependencies`.
pub mod Closed
pub mod Impact
pub mod Dependencies
use kbeacon.Prelude.{
  ℕ, ◌+◌, Bool, true, false, ◌&&◌, ◌||◌, not, Option, none, some, List, [], ◌∷◌, ◌++◌, map, length,
  if◌then◌else◌, some_or, is_some, loop,
}
use kbeacon.Sort.{sort_by}
use kbeacon.Text.{Text, str, ◌==◌, elem, equal_fold}
use kbeacon.Dict.{Dict, get, put, values}
use kbeacon.Dict.Sets.{add}
use kbeacon.Graph.Types.{
  Time, mode_text, NodeRef, DependencyEdge, SecretSummary, WorkloadSummary, Snapshot,
  DependencyMapNode, DependencyMap, AffectedTeam, SecretImpact, WorkloadDependency,
  WorkloadDependencies,
}
use kbeacon.Graph.Keys.{secret_id, workload_id}
use kbeacon.Graph.Observe.{Cache, zero_summary}
use kbeacon.Graph.Aggregate.{add_at, bump_at}

abbrev pub secret_key_of : SecretSummary → Text
secret_key_of s = secret_id s.ref

abbrev pub workload_key_of : WorkloadSummary → Text
workload_key_of w = workload_id w.ref

abbrev pub edge_key_of : DependencyEdge → Text
edge_key_of e = e.id

-- `now` is `time.Now().UTC()`.
unfoldable pub snapshot : Cache → Time → Snapshot
snapshot c now = record {
  cluster = c.cluster;
  generated_at = now;
  secrets = sort_by secret_key_of (values c.secrets);
  workloads = sort_by workload_key_of (values c.workloads);
  edges = sort_by edge_key_of (values c.edges);
}

unfoldable pub list_secrets : Cache → Time → List SecretSummary
unfolding snapshot
list_secrets c now = (snapshot c now).secrets

unfoldable pub list_workloads : Cache → Time → List WorkloadSummary
unfolding snapshot
list_workloads c now = (snapshot c now).workloads

abbrev pub workload_node : WorkloadSummary → DependencyMapNode
workload_node w = record {
  id = str "workload:" ++ workload_id w.ref;
  type = str "workload";
  label = w.ref.kind ++ (str "/" ++ w.ref.name);
  ref = NodeRef.workload w.ref;
  owner_team = w.owner_team;
  criticality = w.criticality;
  impact_score = 0;
}

abbrev pub secret_node : SecretSummary → DependencyMapNode
secret_node s = record {
  id = str "secret:" ++ secret_id s.ref;
  type = str "secret";
  label = str "Secret/" ++ s.ref.name;
  ref = NodeRef.secret s.ref;
  owner_team = s.owner_team;
  criticality = s.criticality;
  impact_score = s.impact_score;
}

unfoldable pub dependency_map : Cache → Time → DependencyMap
unfolding snapshot
dependency_map c now =
    let snap = snapshot c now in
    record {
      nodes = map workload_node snap.workloads ++ map secret_node snap.secrets;
      edges = snap.edges;
    }

-- The first element that passes a test.
unfoldable pub first {ℓ} : {A : Type ℓ} → (A → Bool) → List A → Option A
first p [] = none
first p (x ∷ xs) = let rest = first p xs in if p x then some x else rest

unfoldable pub index_by {ℓ} : {A : Type ℓ} → (A → Text) → List A → Dict A
index_by key xs = loop (λ m x. put (key x) x m) [] xs

-- The variables of the loop of `GetSecretImpact`.
pub record ImpactState : Type 0 where
  pub edges : List DependencyEdge
  pub mode_counts : Dict ℕ
  pub affected : List WorkloadSummary
  pub seen : List Text
  pub teams : Dict (List Text)

abbrev pub no_impact : ImpactState
no_impact = record { edges = []; mode_counts = []; affected = []; seen = []; teams = [] }

-- What an edge to the Secret adds if its workload is known.
unfoldable pub impact_workload : Text → Option WorkloadSummary → ImpactState → ImpactState
impact_workload wkey none st = st
impact_workload wkey (some w) st =
    let known = elem wkey st.seen in
    record st {
      affected = (if known then st.affected else st.affected ++ w ∷ []);
      seen = (if known then st.seen else add st.seen wkey);
      teams = (if w.owner_team == [] then st.teams else add_at w.owner_team wkey st.teams);
    }

unfoldable pub impact_edge :
    Text → Dict WorkloadSummary → ImpactState → DependencyEdge → ImpactState
unfolding impact_workload
impact_edge target workloads st e =
    let wkey = workload_id e.workload in
    if secret_id e.secret == target
    then impact_workload wkey (get wkey workloads) (record st {
      edges = st.edges ++ e ∷ [];
      mode_counts = bump_at (mode_text e.discovery_mode) st.mode_counts;
    })
    else st

abbrev pub team_count : Text × List Text → AffectedTeam
team_count (team, workloads) = record { owner_team = team; workload_count = length workloads }

abbrev pub affected_team_key : AffectedTeam → Text
affected_team_key t = t.owner_team

abbrev pub is_empty {ℓ} : {A : Type ℓ} → List A → Bool
is_empty [] = true
is_empty (x ∷ xs) = false

unfoldable pub secret_impact_of : SecretSummary → ImpactState → SecretImpact
secret_impact_of secret st = record {
  secret = secret;
  summary = record {
    affected_workload_count = secret.affected_workload_count;
    affected_team_count = secret.affected_team_count;
    affected_namespace_count = secret.affected_namespace_count;
    unresolved_reference_count = secret.unresolved_reference_count;
    discovery_modes = st.mode_counts;
  };
  affected_teams = sort_by affected_team_key (map team_count st.teams);
  affected_workloads = st.affected;
  edges = st.edges;
}

abbrev pub impact_target : Text → Text → Text
impact_target namespace name = namespace ++ (str "/" ++ name)

unfoldable pub get_secret_impact : Cache → Time → Text → Text → Option SecretImpact
unfolding snapshot
get_secret_impact c now namespace name =
    let snap = snapshot c now in
    let target = impact_target namespace name in
    let found = first (λ s. secret_id s.ref == target) snap.secrets in
    let workloads = index_by workload_key_of snap.workloads in
    let st = loop (impact_edge target workloads) no_impact snap.edges in
    if not (is_some found) && is_empty st.edges
    then none
    else some (secret_impact_of (some_or zero_summary found) st)

-- An empty kind stands for any kind.
abbrev pub names_workload : Text → Text → Text → WorkloadSummary → Bool
names_workload namespace kind name w =
    w.ref.namespace == namespace && w.ref.name == name && (kind == [] || equal_fold w.ref.kind kind)

abbrev pub workload_dependency : Dict SecretSummary → DependencyEdge → WorkloadDependency
workload_dependency secrets e = record {
  secret = some_or zero_summary (get (secret_id e.secret) secrets);
  discovery_mode = e.discovery_mode;
  resolved = e.resolved;
  optional = e.optional;
  sources = e.sources;
}

unfoldable pub add_dependency :
    WorkloadSummary
    → Dict SecretSummary
    → List WorkloadDependency
    → DependencyEdge
    → List WorkloadDependency
add_dependency w secrets deps e =
    if workload_id e.workload == workload_id w.ref
    then deps ++ workload_dependency secrets e ∷ []
    else deps

unfoldable pub dependencies_of : Snapshot → WorkloadSummary → WorkloadDependencies
unfolding add_dependency
dependencies_of snap w =
    let secrets = index_by secret_key_of snap.secrets in
    record { workload = w; dependencies = loop (add_dependency w secrets) [] snap.edges }

abbrev pub map_option {ℓ κ} : {A : Type ℓ} {B : Type κ} → (A → B) → Option A → Option B
map_option f none = none
map_option f (some a) = some (f a)

unfoldable pub get_workload_dependencies :
    Cache → Time → Text → Text → Text → Option WorkloadDependencies
unfolding snapshot
get_workload_dependencies c now namespace kind name =
    let snap = snapshot c now in
    map_option (dependencies_of snap) (first (names_workload namespace kind name) snap.workloads)
