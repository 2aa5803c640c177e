-- ===== src/Controller/Status.antt =====
-- The readiness of internal/controller/controller.go: `ResourceConfig`, the informers that `New` makes,
-- the loop over them in `Start`, and `Status`.
pub mod Waiting
pub mod Informers
pub mod Ready
use kbeacon.Prelude.{
  Bool, true, false, ◌&&◌, ◌||◌, Option, none, some, List, [], ◌∷◌, ◌++◌, if◌then◌else◌, some_or,
  loop, keep,
}
use kbeacon.Text.{Text, str, ◌==◌, elem}
use kbeacon.Dict.{Dict, get, put}

pub record ResourceConfig : Type 0 where
  pub secrets : Bool
  pub service_accounts : Bool
  pub pods : Bool
  pub deployments : Bool
  pub replica_sets : Bool
  pub stateful_sets : Bool
  pub daemon_sets : Bool
  pub ingresses : Bool
  pub jobs : Bool
  pub cron_jobs : Bool
  pub certificates : Bool
  pub external_secrets : Bool
  pub secret_provider_classes : Bool
  pub kafka_connectors : Bool
  pub confluent_connectors : Bool

abbrev pub default_resource_config : ResourceConfig
default_resource_config = record {
  secrets = true;
  service_accounts = true;
  pods = true;
  deployments = true;
  replica_sets = true;
  stateful_sets = true;
  daemon_sets = true;
  ingresses = true;
  jobs = true;
  cron_jobs = true;
  certificates = false;
  external_secrets = false;
  secret_provider_classes = false;
  kafka_connectors = false;
  confluent_connectors = false;
}

abbrev pub built_in_resources : List Text
built_in_resources =
    str "Secret"
    ∷ str "ServiceAccount"
    ∷ str "Pod"
    ∷ str "Deployment"
    ∷ str "ReplicaSet"
    ∷ str "StatefulSet"
    ∷ str "DaemonSet"
    ∷ str "Ingress"
    ∷ str "Job"
    ∷ str "CronJob"
    ∷ []

abbrev pub custom_resources : List Text
custom_resources =
    str "Certificate"
    ∷ str "ExternalSecret"
    ∷ str "SecretProviderClass"
    ∷ str "KafkaConnector"
    ∷ str "Connector"
    ∷ []

abbrev pub resource_order : List Text
resource_order = built_in_resources ++ custom_resources

-- The cases of a switch on a resource's name.
unfoldable pub flag_of : List (Text × Bool) → Text → Bool
flag_of [] name = false
flag_of ((case, flag) ∷ more) name = if name == case then flag else flag_of more name

unfoldable pub enabled : ResourceConfig → Text → Bool
unfolding flag_of
enabled r name =
    flag_of
      ((str "Secret", r.secrets)
        ∷ (str "ServiceAccount", r.service_accounts)
        ∷ (str "Pod", r.pods)
        ∷ (str "Deployment", r.deployments)
        ∷ (str "ReplicaSet", r.replica_sets)
        ∷ (str "StatefulSet", r.stateful_sets)
        ∷ (str "DaemonSet", r.daemon_sets)
        ∷ (str "Ingress", r.ingresses)
        ∷ (str "Job", r.jobs)
        ∷ (str "CronJob", r.cron_jobs)
        ∷ (str "Certificate", r.certificates)
        ∷ (str "ExternalSecret", r.external_secrets)
        ∷ (str "SecretProviderClass", r.secret_provider_classes)
        ∷ (str "KafkaConnector", r.kafka_connectors)
        ∷ (str "Connector", r.confluent_connectors)
        ∷ [])
      name

abbrev pub any_custom : ResourceConfig → Bool
any_custom r =
    r.certificates
    || (r.external_secrets
        || (r.secret_provider_classes || (r.kafka_connectors || r.confluent_connectors)))

-- The fields of `Controller` that readiness depends on: `informers` has the names of the informers that
-- are not nil, and `synced` is the map of that name.
pub record Controller : Type 0 where
  pub resources : ResourceConfig
  pub informers : List Text
  pub synced : Dict Bool

-- `if resources.X { c.xInformer = …; c.synced["X"] = false }`
abbrev pub add_informer : Controller → Bool × Text → Controller
add_informer c (wanted, name) =
    if wanted
    then record c { informers = c.informers ++ name ∷ []; synced = put name false c.synced }
    else c

abbrev pub built_in_informers : ResourceConfig → List (Bool × Text)
built_in_informers r =
    (r.secrets, str "Secret")
    ∷ (r.service_accounts, str "ServiceAccount")
    ∷ (r.pods, str "Pod")
    ∷ (r.deployments, str "Deployment")
    ∷ (r.replica_sets, str "ReplicaSet")
    ∷ (r.stateful_sets, str "StatefulSet")
    ∷ (r.daemon_sets, str "DaemonSet")
    ∷ (r.ingresses, str "Ingress")
    ∷ (r.jobs, str "Job")
    ∷ (r.cron_jobs, str "CronJob")
    ∷ []

abbrev pub custom_informers : ResourceConfig → List (Bool × Text)
custom_informers r =
    (r.certificates, str "Certificate")
    ∷ (r.external_secrets, str "ExternalSecret")
    ∷ (r.secret_provider_classes, str "SecretProviderClass")
    ∷ (r.kafka_connectors, str "KafkaConnector")
    ∷ (r.confluent_connectors, str "Connector")
    ∷ []

-- `New`, with whether there is a dynamic client, and `none` where the resources are not set.
unfoldable pub new_controller : Bool → Option ResourceConfig → Controller
new_controller dynamic_client resources =
    let r = some_or default_resource_config resources in
    let c : Controller = record { resources = r; informers = []; synced = [] } in
    let with_built_in = loop add_informer c (built_in_informers r) in
    if dynamic_client && any_custom r
    then loop add_informer with_built_in (custom_informers r)
    else with_built_in

-- The names of the informers that are not nil, in the order in which `Start` waits for them.
unfoldable pub enabled_syncs : Controller → List Text
enabled_syncs c = keep (λ name. elem name c.informers) resource_order

-- The loop of `Start` over the informers, with what `WaitForCacheSync` returns for each. It ends at the
-- first that fails, whose name is in the error.
unfoldable pub wait_for_syncs : (Text → Bool) → List Text → Dict Bool → Dict Bool × Option Text
wait_for_syncs waits [] synced = (synced, none)
wait_for_syncs waits (name ∷ names) synced =
    let rest = wait_for_syncs waits names (put name true synced) in
    if waits name then rest else (put name false synced, some name)

unfoldable pub start : (Text → Bool) → Controller → Controller × Option Text
unfolding wait_for_syncs
start waits c =
    let (synced, failed) = wait_for_syncs waits (enabled_syncs c) c.synced in
    (record c { synced = synced }, failed)

pub record ResourceStatus : Type 0 where
  pub resource : Text
  pub synced : Bool
  pub disabled : Bool

unfoldable pub status_item :
    Controller → List ResourceStatus × Bool → Text → List ResourceStatus × Bool
status_item c (out, all) name =
    let synced = some_or false (get name c.synced) in
    if enabled c.resources name
    then (
      out ++ record { resource = name; synced = synced; disabled = false } ∷ [],
      if synced then all else false,
    )
    else (out ++ record { resource = name; synced = true; disabled = true } ∷ [], all)

unfoldable pub status : Controller → List ResourceStatus × Bool
unfolding status_item
status c = loop (status_item c) ([], true) resource_order

unfoldable pub is_ready : Controller → Bool
unfolding status
is_ready c = (status c).1

unfoldable pub sync_status_item : Controller → Dict Bool → Text → Dict Bool
sync_status_item c out name =
    if enabled c.resources name then put name (some_or false (get name c.synced)) out else out

unfoldable pub cache_sync_status : Controller → Dict Bool
unfolding sync_status_item
cache_sync_status c = loop (sync_status_item c) [] resource_order
