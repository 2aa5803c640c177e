-- ===== src/Discovery/Tests.antt =====
-- Tests of internal/discovery on a small workload, and the theorems at it.
use mathlib.Core.List.Permᴰ
use kbeacon.Prelude.{
  ok, err, ◌≡◌, ◌↔◌, ◌⊎◌, ◌≢◌, refl, Bool, true, false, none, some, [], ◌∷◌, length, All,
}
use kbeacon.Text.{Text, str, ◌==◌, elem, to_lower, trim_space, join, has_byte, split, cut, decimal}
use kbeacon.Dict.{Dict, get, put, values}
use kbeacon.Dict.Sets.{add}
use kbeacon.Graph.Types.{infer, SecretRef, WorkloadRef, DependencyEdge}
use kbeacon.Graph.Keys.{edge_id, secret_id}
use kbeacon.Discovery.SecretRefs.{
  empty_reference, parse_secret_ref, parse_parts, parse_watch_secrets,
}
use kbeacon.Discovery.SecretRefs.Laws.{parse_secret_ref-with_key}
use kbeacon.Discovery.SecretRefs.Grammar.{AreRefsOf, parse_watch_secrets_iff}
use kbeacon.Discovery.Objects.{EnvVar, PodSpec, ObjectMeta, Options, default_options}
use kbeacon.Discovery.Metadata.{
  annotation_ignore_secrets, put_all, effective, is_false, discovery_mode_for, parse_mode,
}
use kbeacon.Discovery.Metadata.Laws.{get-effective}
use kbeacon.Discovery.Infer.{
  new_edge, no_source, each, format_secret_key_ref_source_path, infer_edge, selector_edge,
  value_from_edge, env_edge, env_from_edge, container_edges, containers_edges, volume_edge,
  projected_volume_edges, image_pull_secret_edge, service_account_edge, infer_pod_spec_edges,
  service_account_name_for_pod_spec, service_account_key, service_account_image_pull_secret_names,
  explicit_edge, watch_secrets_edges, explicit_annotation_edges,
}
use kbeacon.Discovery.Infer.Redaction.{infer_pod_spec_edges-redacted}
use kbeacon.Discovery.Infer.Sound.{IsInferred, infer_pod_spec_edges-IsInferred}
use kbeacon.Discovery.Merge.{
  merge, filter_and_merge_edge, merged_edges, filter_and_merge_edges, ignored_secrets,
}
use kbeacon.Discovery.Merge.Laws.{get-merged_edges}
use kbeacon.Discovery.Extract.{Runtime, mode_edges, workload_input, workload_from_pod_spec}
use kbeacon.Discovery.Extract.Laws.{ToNone, workload_from_pod_spec-ToNone}

-- Its unfolding line opens the whole component.
discovery : Unit {0}
unfolding ◌==◌ elem to_lower trim_space join split cut has_byte decimal get put values add edge_id
    secret_id parse_secret_ref parse_parts parse_watch_secrets put_all effective is_false
    discovery_mode_for parse_mode new_edge each format_secret_key_ref_source_path infer_edge
    selector_edge value_from_edge env_edge env_from_edge container_edges containers_edges
    volume_edge projected_volume_edges image_pull_secret_edge service_account_edge
    infer_pod_spec_edges service_account_name_for_pod_spec service_account_key
    service_account_image_pull_secret_names explicit_edge watch_secrets_edges
    explicit_annotation_edges merge filter_and_merge_edge merged_edges filter_and_merge_edges
    ignored_secrets mode_edges workload_input workload_from_pod_spec
discovery = tt

abbrev prod : Text
prod = str "prod"

abbrev api : WorkloadRef
api = record {
  cluster = str "c";
  namespace = prod;
  api_version = str "apps/v1";
  kind = str "Deployment";
  name = str "api";
  uid = [];
}

abbrev db : Text → SecretRef
db key = record { cluster = str "c"; namespace = prod; name = str "db"; key = key }

parse_secret_ref-with_key_example :
    parse_secret_ref (str "c") (str "default") (str "prod/db#pass/word") ≡ ok (db (str "pass/word"))
parse_secret_ref-with_key_example =
    parse_secret_ref-with_key (str "c") (str "default") prod (str "db") (λ e. cc) (λ e. cc)
      (unfold has_byte in refl) (unfold has_byte in refl) (str "pass/word")

-- A second slash is part of the name.
parse_secret_ref-two_slashes :
    parse_secret_ref (str "c") (str "default") (str "a/b/c")
    ≡ ok (record { cluster = str "c"; namespace = str "a"; name = str "b/c"; key = [] })
unfolding discovery
parse_secret_ref-two_slashes = refl

-- A trailing comma refuses the whole annotation.
parse_watch_secrets-trailing_comma :
    parse_watch_secrets (str "c") prod (str "db,") ≡ err empty_reference
unfolding discovery
parse_watch_secrets-trailing_comma = refl

parse_watch_secrets_iff_example :
    (parse_watch_secrets (str "c") prod (str "db, prod/db#k") ≡ ok (db [] ∷ db (str "k") ∷ [])) ↔ (
      ((trim_space (str "db, prod/db#k") ≡ []) × (db [] ∷ db (str "k") ∷ [] ≡ []))
      ⊎ ((trim_space (str "db, prod/db#k") ≢ [])
          × AreRefsOf
              (str "c")
              prod
              (split b',' (str "db, prod/db#k"))
              (db [] ∷ db (str "k") ∷ [])))
parse_watch_secrets_iff_example =
    parse_watch_secrets_iff (str "c") prod (str "db, prod/db#k") (db [] ∷ db (str "k") ∷ [])

parse_watch_secrets-two :
    parse_watch_secrets (str "c") prod (str "db, prod/db#k") ≡ ok (db [] ∷ db (str "k") ∷ [])
unfolding discovery
parse_watch_secrets-two = refl

abbrev meta : Dict Text → ObjectMeta
meta annotations = record {
  namespace = prod;
  name = str "api";
  uid = [];
  annotations = annotations;
  labels = [];
}

abbrev env : Text → Text → EnvVar
env name key = record {
  name = name;
  value_from = some (record {
    secret_key_ref = some (record { name = str "db"; key = key; optional = some true });
  });
}

abbrev spec : Text → PodSpec
spec key = record {
  containers =
      record { name = str "main"; env = env (str "A") key ∷ env (str "B") [] ∷ []; env_from = [] }
      ∷ [];
  init_containers = [];
  ephemeral_containers = [];
  volumes = [];
  image_pull_secrets = str "pull" ∷ [];
  service_account_name = [];
}

abbrev options : Options
options = record (default_options (str "c")) { redact_secret_keys = true }

infer_pod_spec_edges-IsInferred_example :
    All (IsInferred (str "c") api) (infer_pod_spec_edges options api (spec (str "k")))
infer_pod_spec_edges-IsInferred_example =
    infer_pod_spec_edges-IsInferred options api (spec (str "k")) (unfold discovery in tt)

infer_pod_spec_edges-count : length (infer_pod_spec_edges options api (spec (str "k"))) ≡ 3
unfolding discovery
infer_pod_spec_edges-count = refl

abbrev hide : Text → Text
hide [] = []
hide (c ∷ k) = str "x"

hide-blank : (k : Text) → hide k == [] ≡ k == []
unfolding ◌==◌
hide-blank [] = refl
hide-blank (c ∷ k) = refl

infer_pod_spec_edges-redacted_example :
    infer_pod_spec_edges options api (spec (str "x"))
    ≡ infer_pod_spec_edges options api (spec (str "password"))
infer_pod_spec_edges-redacted_example =
    infer_pod_spec_edges-redacted hide hide-blank options api (spec (str "password")) refl

get-effective_example :
    get (str "a") (effective ((str "a", str "own") ∷ []) ((str "a", str "template") ∷ []) true)
    ≡ some (str "own")
unfolding discovery
get-effective_example =
    get-effective (str "a") ((str "a", str "own") ∷ []) ((str "a", str "template") ∷ []) true
      (refl, tt) (refl, tt)

abbrev edge : Text → Bool → DependencyEdge
edge name optional = new_edge (str "c") api prod name optional infer no_source

get-merged_edges_example :
    get (edge (str "db") true).id (
      merged_edges
        (secret_id (record (db []) { name = str "old" }) ∷ [])
        (edge (str "db") true ∷ edge (str "old") true ∷ edge (str "db") false ∷ []))
    ≡ some (record (edge (str "db") false) { sources = no_source ∷ no_source ∷ [] })
unfolding discovery
get-merged_edges_example =
    get-merged_edges (secret_id (record (db []) { name = str "old" }) ∷ [])
      (edge (str "db") true ∷ edge (str "old") true ∷ edge (str "db") false ∷ [])
      (edge (str "db") true).id

abbrev runtime : Runtime
runtime = record { order = λ es. es; unmarshal = λ t. none }

abbrev ignoring : Dict Text
ignoring = (annotation_ignore_secrets, str "pull") ∷ []

abbrev pull : SecretRef
pull = record { cluster = str "c"; namespace = prod; name = str "pull"; key = [] }

workload_from_pod_spec-ToNone_example :
    All
      (ToNone (pull ∷ []))
      (workload_from_pod_spec runtime options
        (str "apps/v1")
        (str "Deployment")
        (meta ignoring)
        []
        []
        (spec [])).edges
workload_from_pod_spec-ToNone_example =
    workload_from_pod_spec-ToNone runtime Permᴰ.refl options (str "apps/v1") (str "Deployment")
      (meta ignoring) [] [] (spec []) (str "pull") (pull ∷ []) (unfold discovery in refl)
      (unfold discovery in refl)
