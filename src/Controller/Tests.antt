-- ===== src/Controller/Tests.antt =====
-- Tests of internal/controller, and the theorems at small states.
use mathlib.Core.List.{Permᴰ}
use mathlib.Core.List.Permᴰ
use kbeacon.Prelude.{
  ◌≡◌, refl, Bool, true, false, ◌&&◌, not, none, some, is_some, List, [], ◌∷◌, All,
}
use kbeacon.Text.{Text, str, ◌==◌, elem}
use kbeacon.Dict.{get, put}
use kbeacon.Dict.Sets.{add}
use kbeacon.Discovery.Objects.{Templated, default_options}
use kbeacon.Discovery.Extract.{Runtime}
use kbeacon.Discovery.Custom.{Nested}
use kbeacon.Controller.Namespaces.{
  NamespaceFilter, new_namespace_filter, includes, includes-new_namespace_filter,
}
use kbeacon.Controller.Loop.{
  idle, started, Loop, request_rebuild, start_rebuild, request, receive, fire, finish, sync,
  initial, Reach, later, Steps,
}
use kbeacon.Controller.Loop.Covered.{no_lost_request, covers_eventually}
use kbeacon.Controller.Owners.{
  OwnerReference, Owned, new_controller_owner_index, object_key, add_deployment, add_replica_set,
  controller_owner_reference, resolved_by_kind, should_include_pod_workload,
}
use kbeacon.Graph.Types.{DependencyEdge}
use kbeacon.Discovery.Edges.Workloads.{HasOwnEdges}
use kbeacon.Controller.Rebuild.{Listed, add_templated, add_set, owners_built, built, rebuild_inputs}
use kbeacon.Controller.Rebuild.OwnEdges.{rebuild_inputs-HasOwnEdges}
use kbeacon.Controller.Status.{
  ResourceConfig, enabled, enabled_syncs, new_controller, start, is_ready,
}
use kbeacon.Controller.Status.Waiting.{every}
use kbeacon.Controller.Status.Ready.{start-is_ready}
use kbeacon.Controller.Rebuild.Owners.{HasOwner, should_include_pod_workload-Represented}

includes-new_namespace_filter_example :
    includes (new_namespace_filter ([] ∷ []) (str "kube-system" ∷ [])) (str "prod") ≡ true
unfolding ◌==◌ elem
includes-new_namespace_filter_example =
    includes-new_namespace_filter ([] ∷ []) (str "kube-system" ∷ []) (str "prod")

-- After startup with one rebuild done.
abbrev settled : Loop
settled = record { channel = none; phase = idle; startup = started; requests = 1; covered = 1 }

settled-Reach : Reach settled
unfolding request_rebuild start_rebuild
settled-Reach =
    later
      (later
        (later (later (later Reach.start (sync none idle 0 0)) (initial none idle 0 0))
          (receive (str "initial-sync") started 1 0))
        (fire (str "initial-sync") none started 1 0))
      (finish (str "initial-sync") none started 1 1)

no_lost_request_example : settled.covered ≡ settled.requests
no_lost_request_example = no_lost_request settled settled-Reach refl refl refl

-- An object changed since.
abbrev changed : Loop
changed = record {
  channel = some (str "update");
  phase = idle;
  startup = started;
  requests = 2;
  covered = 1;
}

changed-Reach : Reach changed
unfolding request_rebuild
changed-Reach = later settled-Reach (request (str "update") settled)

covers_eventually_example : (t : Loop) × Steps changed t × (t.requests ≡ 2) × (t.covered ≡ 2)
covers_eventually_example = covers_eventually changed changed-Reach refl (λ e. cc)

abbrev prod : Text
prod = str "prod"

abbrev owner : Text → Text → OwnerReference
owner kind name = record { kind = kind; name = name; controller = some true }

abbrev api_set : Owned
api_set = record {
  namespace = prod;
  name = str "api-1";
  owner_references = owner (str "Deployment") (str "api") ∷ [];
}

abbrev api_pod : Owned
api_pod = record {
  namespace = prod;
  name = str "api-1-x";
  owner_references = owner (str "ReplicaSet") (str "api-1") ∷ [];
}

abbrev api : Templated
api = record {
  meta = record { namespace = prod; name = str "api"; uid = []; annotations = []; labels = [] };
  template_annotations = [];
  template_labels = [];
  spec = record {
    containers = [];
    init_containers = [];
    ephemeral_containers = [];
    volumes = [];
    image_pull_secrets = [];
    service_account_name = [];
  };
}

abbrev listed : Listed
listed = record {
  secrets = [];
  service_accounts = [];
  deployments = api ∷ [];
  replica_sets = api_set ∷ [];
  stateful_sets = [];
  daemon_sets = [];
  ingresses = [];
  cron_jobs = [];
  jobs = [];
  pods = [];
  certificates = [];
  external_secrets = [];
  secret_provider_classes = [];
  kafka_connectors = [];
  confluent_connectors = [];
}

abbrev runtime : Runtime
runtime = record { order = λ es. es; unmarshal = λ t. none }

-- A reader that finds nothing.
abbrev nothing_nested : Nested
nothing_nested = record {
  nested_string = λ fs path. none;
  nested_map = λ fs path. none;
  nested_slice = λ fs path. none;
}

abbrev everything : NamespaceFilter
everything = record { included = []; excluded = [] }

pod-excluded :
    should_include_pod_workload api_pod
      (owners_built runtime (str "c") everything (default_options (str "c")) listed).owners
    ≡ false
unfolding should_include_pod_workload owners_built add_templated add_set add_deployment
    add_replica_set new_controller_owner_index controller_owner_reference resolved_by_kind
    object_key includes ◌==◌ elem get put add
pod-excluded = refl

should_include_pod_workload-Represented_example :
    HasOwner listed
      (built runtime
        (str "c")
        everything
        (default_options (str "c"))
        nothing_nested
        listed).workloads
      (str "prod")
      (owner (str "ReplicaSet") (str "api-1") ∷ [])
should_include_pod_workload-Represented_example =
    should_include_pod_workload-Represented runtime nothing_nested (str "c") everything
      (default_options (str "c")) listed api_pod pod-excluded

-- No built-in resource and one custom resource are watched.
abbrev certificates_only : ResourceConfig
certificates_only = record {
  secrets = false;
  service_accounts = false;
  pods = false;
  deployments = false;
  replica_sets = false;
  stateful_sets = false;
  daemon_sets = false;
  ingresses = false;
  jobs = false;
  cron_jobs = false;
  certificates = true;
  external_secrets = false;
  secret_provider_classes = false;
  kafka_connectors = false;
  confluent_connectors = false;
}

abbrev all_sync : Text → Bool
all_sync name = true

-- A certificate resource without a dynamic client: `Start` returns no error, and it is never ready.
start-is_ready_example :
    let c = new_controller false (some certificates_only) in
    (is_ready (start all_sync c).0 ≡ every all_sync (enabled_syncs c) && false)
    × (is_some (start all_sync c).1 ≡ not (every all_sync (enabled_syncs c)))
start-is_ready_example = start-is_ready false (some certificates_only) all_sync

never_ready : is_ready (start all_sync (new_controller false (some certificates_only))).0 ≡ false
unfolding is_ready start new_controller enabled_syncs enabled ◌==◌ elem get put
never_ready = refl

ready_in_time : is_ready (start all_sync (new_controller true (some certificates_only))).0 ≡ true
unfolding is_ready start new_controller enabled_syncs enabled ◌==◌ elem get put
ready_in_time = refl

-- A failed wait ends `Start` with the name of the resource.
failed_at : (start (λ n. not (n == str "Pod")) (new_controller true none)).1 ≡ some (str "Pod")
unfolding start new_controller enabled_syncs ◌==◌ elem get put
failed_at = refl

runtime-Rearranges : (xs : List DependencyEdge) → Permᴰ (runtime.order xs) xs
runtime-Rearranges xs = Permᴰ.refl xs

rebuild_inputs-HasOwnEdges_example :
    All
      (HasOwnEdges (str "c"))
      (rebuild_inputs runtime
        (str "c")
        everything
        nothing_nested
        (default_options (str "c"))
        listed).1
rebuild_inputs-HasOwnEdges_example =
    rebuild_inputs-HasOwnEdges runtime nothing_nested (str "c") everything
      (default_options (str "c")) listed runtime-Rearranges
