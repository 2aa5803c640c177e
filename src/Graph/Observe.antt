-- ===== src/Graph/Observe.antt =====
-- The first two loops of `ApplySnapshot` in internal/graph/cache.go: the observed Secrets, and the
-- observed workloads with their edges.
use kbeacon.Prelude.{
  ◌+◌, ◌%◌, ◌^◌, Bool, true, false, ◌&&◌, ◌||◌, not, Option, none, some, List, [], ◌++◌, eqb,
  if◌then◌else◌, some_or, loop,
}
use kbeacon.Text.{Text, ◌==◌}
use kbeacon.Dict.{Dict, get, put, has}
use kbeacon.Graph.Types.{
  DiscoveryMode, unset, hybrid, mode_eq, Time, SecretRef, WorkloadRef, DependencyEdge,
  SecretSummary, WorkloadSummary, SecretInput, WorkloadInput,
}
use kbeacon.Graph.Keys.{edge_id, secret_id, workload_id}
use kbeacon.Graph.Criticality.{normalize_criticality}

-- The fields that the mutex guards; every method holds the mutex while it runs.
pub record Cache : Type 0 where
  pub cluster : Text
  pub secrets : Dict SecretSummary
  pub workloads : Dict WorkloadSummary
  pub edges : Dict DependencyEdge
  pub secret_versions : Dict Text

abbrev pub new_cache : Text → Cache
new_cache cluster = record {
  cluster = cluster;
  secrets = [];
  workloads = [];
  edges = [];
  secret_versions = [];
}

-- The zero value of `SecretSummary`, which a read of a missing key returns.
abbrev pub zero_summary : SecretSummary
zero_summary = record {
  ref = record { cluster = []; namespace = []; name = []; key = [] };
  present = false;
  type = [];
  owner_team = [];
  criticality = [];
  last_observed_change_time = 0;
  observed_change_count = 0;
  affected_workload_count = 0;
  affected_team_count = 0;
  affected_namespace_count = 0;
  unresolved_reference_count = 0;
  impact_score = 0;
}

abbrev pub initial_change_time : Time → Time → Time → Time
initial_change_time previous created now =
    if eqb previous 0 then (if eqb created 0 then now else created) else previous

abbrev pub version_changed : Text → Text → Bool
version_changed previous current =
    not (previous == []) && (not (current == []) && not (previous == current))

-- An edge that has the key of an earlier edge is merged into it.
unfoldable pub merge_edge : DependencyEdge → DependencyEdge → DependencyEdge
merge_edge existing edge = record existing {
  sources = existing.sources ++ edge.sources;
  optional = existing.optional && edge.optional;
  resolved = existing.resolved || edge.resolved;
  discovery_mode =
      (if mode_eq existing.discovery_mode edge.discovery_mode
        then existing.discovery_mode
        else hybrid);
}

abbrev pub merged : Option DependencyEdge → DependencyEdge → DependencyEdge
merged none edge = edge
merged (some existing) edge = merge_edge existing edge

module _ (c : Cache) (now : Time) where
  abbrev pub stored_ref : SecretRef → SecretRef
  stored_ref ref = record ref { cluster = c.cluster; key = [] }

  abbrev pub previous_summary : Text → SecretSummary
  previous_summary key = some_or zero_summary (get key c.secrets)

  unfoldable pub secret_summary : SecretInput → SecretSummary
  secret_summary input =
      let key = secret_id (stored_ref input.ref) in
      let prev = previous_summary key in
      let changed =
        version_changed (some_or [] (get key c.secret_versions)) input.resource_version in
      record zero_summary {
        ref = stored_ref input.ref;
        present = true;
        type = input.type;
        owner_team = input.owner_team;
        criticality = normalize_criticality input.criticality;
        last_observed_change_time =
            (if changed
              then now
              else initial_change_time prev.last_observed_change_time input.creation_timestamp now);
        observed_change_count =
            (if changed
              then (prev.observed_change_count + 1) % 2 ^ 64
              else prev.observed_change_count);
      }

  abbrev pub SecretMaps : Type 0
  SecretMaps = Dict SecretSummary × Dict Text

  unfoldable pub observe_secret : SecretMaps → SecretInput → SecretMaps
  observe_secret (secrets, versions) input =
      let key = secret_id (stored_ref input.ref) in
      (put key (secret_summary input) secrets, put key input.resource_version versions)

  unfoldable pub observe_secrets : List SecretInput → SecretMaps
  observe_secrets inputs = loop observe_secret ([], []) inputs

  abbrev pub stored_workload : WorkloadRef → WorkloadRef
  stored_workload ref = record ref { cluster = c.cluster }

  abbrev pub first_observed : Option DependencyEdge → Time
  first_observed none = now
  first_observed (some existing) =
      if eqb existing.first_observed_at 0 then now else existing.first_observed_at

  abbrev pub or_default : Text → Text → Text
  or_default value default = if value == [] then default else value

  abbrev pub or_mode : DiscoveryMode → DiscoveryMode → DiscoveryMode
  or_mode unset default = default
  or_mode mode default = mode

  module _ (new_secrets : Dict SecretSummary) where
    -- What an edge of a workload becomes before it is stored.
    unfoldable pub prepare_edge : WorkloadInput → DependencyEdge → DependencyEdge
    prepare_edge input edge =
        let workload = stored_workload edge.workload in
        let secret = stored_ref edge.secret in
        let id = edge_id workload secret in
        record edge {
          id = id;
          cluster = c.cluster;
          workload = workload;
          secret = secret;
          owner_team = or_default edge.owner_team input.owner_team;
          criticality = or_default edge.criticality (normalize_criticality input.criticality);
          discovery_mode = or_mode edge.discovery_mode input.discovery_mode;
          resolved = has (secret_id secret) new_secrets;
          first_observed_at = first_observed (get id c.edges);
          last_observed_at = now;
        }

    unfoldable pub observe_edge :
        WorkloadInput → Dict DependencyEdge → DependencyEdge → Dict DependencyEdge
    observe_edge input edges edge =
        let ready = prepare_edge input edge in
        put ready.id (merged (get ready.id edges) ready) edges

    unfoldable pub workload_summary : WorkloadInput → WorkloadSummary
    workload_summary input = record {
      ref = stored_workload input.ref;
      owner_team = input.owner_team;
      service = input.service;
      environment = input.environment;
      criticality = normalize_criticality input.criticality;
      discovery_mode = input.discovery_mode;
      dependency_count = 0;
      unresolved_count = 0;
    }

    abbrev pub WorkloadMaps : Type 0
    WorkloadMaps = Dict WorkloadSummary × Dict DependencyEdge

    unfoldable pub observe_workload : WorkloadMaps → WorkloadInput → WorkloadMaps
    observe_workload (workloads, edges) input = (
      put (workload_id (stored_workload input.ref)) (workload_summary input) workloads,
      loop (observe_edge input) edges input.edges,
    )

    unfoldable pub observe_workloads : List WorkloadInput → WorkloadMaps
    observe_workloads inputs = loop observe_workload ([], []) inputs
