-- ===== src/Cli/Report/Tests.antt =====
-- Tests of the impact report.
use kbeacon.Prelude.{◌≡◌, refl, false, [], ◌∷◌}
use kbeacon.Text.{
  Text, str, ◌==◌, trim_space, trim_left, trim_right, is_space, join, decimal, text_ltb,
}
use kbeacon.Dict.Sets.{add}
use kbeacon.Sort.{sort_by}
use kbeacon.Graph.Types.{hybrid, DependencySource, WorkloadSummary}
use kbeacon.Cli.Report.{value_or, format_discovery_modes, shown_types, source_types, workload_line}

-- Its unfolding line opens the parts that are tested.
report : Unit {0}
unfolding ◌==◌ trim_space trim_left trim_right is_space join decimal text_ltb add sort_by value_or
    format_discovery_modes shown_types source_types workload_line
report = tt

abbrev source : Text → DependencySource
source type = record {
  type = type;
  path = [];
  container = [];
  init_container = [];
  ephemeral = false;
  volume = [];
  env_var = [];
  annotation = [];
  resource_field = [];
}

once_and_sorted :
    source_types
      (source (str "volume") ∷ source (str " ") ∷ source (str "env ") ∷ source (str "volume") ∷ [])
    ≡ str "env, volume"
unfolding report
once_and_sorted = refl

modes_sorted :
    format_discovery_modes ((str "infer", 2) ∷ (str "explicit", 1) ∷ []) ≡ str "explicit=1, infer=2"
unfolding report
modes_sorted = refl

abbrev api : WorkloadSummary
api = record {
  ref = record {
    cluster = [];
    namespace = str "prod";
    api_version = [];
    kind = str " ";
    name = str "api";
    uid = [];
  };
  owner_team = [];
  service = [];
  environment = [];
  criticality = str "high";
  discovery_mode = hybrid;
  dependency_count = 2;
  unresolved_count = 0;
}

details_joined :
    workload_line api
    ≡ str "  - Workload prod/api (criticality=high, mode=hybrid, dependencies=2, unresolved=0)\n"
unfolding report
details_joined = refl
