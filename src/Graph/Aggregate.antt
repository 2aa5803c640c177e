-- ===== src/Graph/Aggregate.antt =====
-- The loops of `ApplySnapshot` in internal/graph/cache.go that range over the new edges and complete
-- the summaries of the Secrets and the workloads.
pub mod Reads
use kbeacon.Prelude.{
  ℕ, ◌+◌, Bool, true, false, not, Option, none, some, List, [], ◌∷◌, eqb, length, if◌then◌else◌,
  some_or, loop,
}
use kbeacon.Text.{Text, ◌==◌}
use kbeacon.Dict.{Dict, get, put, has}
use kbeacon.Dict.Sets.{add}
use kbeacon.Graph.Types.{DependencyEdge, SecretSummary, WorkloadSummary}
use kbeacon.Graph.Keys.{secret_id, workload_id}
use kbeacon.Graph.Criticality.{max_criticality, unknown, impact_score}
use kbeacon.Graph.Observe.{zero_summary}

-- The maps that the loop over the edges fills. A set is a list of distinct texts.
pub record Index : Type 0 where
  pub affected_workloads : Dict (List Text)
  pub affected_teams : Dict (List Text)
  pub affected_namespaces : Dict (List Text)
  pub derived_owner_teams : Dict (List Text)
  pub derived_criticality : Dict Text
  pub unresolved_refs : Dict ℕ
  pub workload_deps : Dict (List Text)
  pub workload_unresolved : Dict ℕ

abbrev pub empty_index : Index
empty_index = record {
  affected_workloads = [];
  affected_teams = [];
  affected_namespaces = [];
  derived_owner_teams = [];
  derived_criticality = [];
  unresolved_refs = [];
  workload_deps = [];
  workload_unresolved = [];
}

-- `len(m[k])` and `range m[k]` read a missing set as empty, and `m[k]` a missing number as 0.
abbrev pub set_at : Text → Dict (List Text) → List Text
set_at k m = some_or [] (get k m)

abbrev pub count_at : Text → Dict ℕ → ℕ
count_at k m = some_or 0 (get k m)

abbrev pub text_at : Text → Dict Text → Text
text_at k m = some_or [] (get k m)

-- `if _, ok := m[k]; !ok { m[k] = {} }`
abbrev pub touch : Text → Dict (List Text) → Dict (List Text)
touch k m = put k (set_at k m) m

-- the same, and `m[k][x] = struct{}{}`
abbrev pub add_at : Text → Text → Dict (List Text) → Dict (List Text)
add_at k x m = put k (add (set_at k m) x) m

abbrev pub bump_at : Text → Dict ℕ → Dict ℕ
bump_at k m = put k (count_at k m + 1) m

unfoldable pub index_edge : Index → DependencyEdge → Index
index_edge i e =
    let skey = secret_id e.secret in
    let wkey = workload_id e.workload in
    let no_team = e.owner_team == [] in
    record {
      affected_workloads = add_at skey wkey i.affected_workloads;
      affected_teams =
          (if no_team
            then touch skey i.affected_teams
            else add_at skey e.owner_team i.affected_teams);
      affected_namespaces = add_at skey e.workload.namespace i.affected_namespaces;
      derived_owner_teams =
          (if no_team
            then i.derived_owner_teams
            else add_at skey e.owner_team i.derived_owner_teams);
      derived_criticality =
          put skey (max_criticality (text_at skey i.derived_criticality) e.criticality)
            i.derived_criticality;
      unresolved_refs = (if e.resolved then i.unresolved_refs else bump_at skey i.unresolved_refs);
      workload_deps = add_at wkey skey i.workload_deps;
      workload_unresolved =
          (if e.resolved then i.workload_unresolved else bump_at wkey i.workload_unresolved);
    }

-- A Secret that only edges name gets a summary that says that it does not exist.
abbrev pub placeholder : DependencyEdge → SecretSummary
placeholder e = record zero_summary { ref = e.secret; present = false; criticality = unknown }

unfoldable pub add_placeholder : Dict SecretSummary → DependencyEdge → Dict SecretSummary
add_placeholder secrets e =
    let skey = secret_id e.secret in
    if has skey secrets then secrets else put skey (placeholder e) secrets

unfoldable pub index_edges : List DependencyEdge → Index
index_edges edges = loop index_edge empty_index edges

unfoldable pub add_placeholders : Dict SecretSummary → List DependencyEdge → Dict SecretSummary
add_placeholders secrets edges = loop add_placeholder secrets edges

unfoldable pub single_team : List Text → Text
single_team (team ∷ []) = team
single_team _ = []

unfoldable pub complete_secret : Index → Text → SecretSummary → SecretSummary
complete_secret i key s =
    let derived = text_at key i.derived_criticality in
    let counted = record s {
      owner_team =
          (if s.owner_team == []
            then single_team (set_at key i.derived_owner_teams)
            else s.owner_team);
      criticality =
          (if derived == [] then s.criticality else max_criticality s.criticality derived);
      affected_workload_count = length (set_at key i.affected_workloads);
      affected_team_count = length (set_at key i.affected_teams);
      affected_namespace_count = length (set_at key i.affected_namespaces);
      unresolved_reference_count = count_at key i.unresolved_refs;
    } in
    record counted { impact_score = impact_score counted }

unfoldable pub complete_workload : Index → Text → WorkloadSummary → WorkloadSummary
complete_workload i key w = record w {
  dependency_count = length (set_at key i.workload_deps);
  unresolved_count = count_at key i.workload_unresolved;
}
