-- ===== src/Controller/Rebuild.antt =====
-- `rebuild` of internal/controller/controller.go.
pub mod Indexed
pub mod Sourced
pub mod Shown
pub mod Owners
pub mod Accounts
pub mod OwnEdges
use kbeacon.Prelude.{
  Bool, true, false, not, Option, none, some, List, [], ◌∷◌, ◌++◌, if◌then◌else◌, keep, loop,
}
use kbeacon.Text.{Text, ◌==◌}
use kbeacon.Dict.{Dict, put}
use kbeacon.Graph.Types.{Time, SecretSummary, DependencyEdge, SecretInput, WorkloadInput}
use kbeacon.Graph.Observe.{Cache}
use kbeacon.Graph.Cache.{apply_snapshot}
use kbeacon.Discovery.Objects.{ObjectMeta, Templated, Pod, Ingress, Secret, Options}
use kbeacon.Discovery.Infer.{service_account_key}
use kbeacon.Discovery.Extract.{
  Runtime, secret_input_from_secret, workload_from_deployment, workload_from_stateful_set,
  workload_from_daemon_set, workload_from_job, workload_from_cron_job, workload_from_pod,
  workload_from_ingress,
}
use kbeacon.Discovery.Custom.{CustomObject, Nested}
use kbeacon.Discovery.Custom.Certificate.{workload_from_certificate}
use kbeacon.Discovery.Custom.ExternalSecret.{workload_from_external_secret}
use kbeacon.Discovery.Custom.SecretProviderClass.{workload_from_secret_provider_class}
use kbeacon.Discovery.Custom.KafkaConnector.{workload_from_strimzi_kafka_connector}
use kbeacon.Discovery.Custom.Connector.{workload_from_confluent_connector}
use kbeacon.Controller.Namespaces.{NamespaceFilter, includes}
use kbeacon.Controller.Owners.{
  OwnerReference, Owned, ControllerOwnerIndex, new_controller_owner_index, add_deployment,
  add_stateful_set, add_daemon_set, add_cron_job, add_job, add_replica_set,
  should_include_job_workload, should_include_pod_workload,
}

pub record ServiceAccount : Type 0 where
  pub namespace : Text
  pub name : Text
  pub image_pull_secrets : List Text

-- A Job and a Pod with the owner references that discovery does not read.
pub record OwnedJob : Type 0 where
  pub job : Templated
  pub owner_references : List OwnerReference

pub record OwnedPod : Type 0 where
  pub pod : Pod
  pub owner_references : List OwnerReference

-- What the listers and the stores of the custom resources return. A kind without an informer has no
-- objects, and a stored item that is no unstructured object is `none`.
pub record Listed : Type 0 where
  pub secrets : List Secret
  pub service_accounts : List ServiceAccount
  pub deployments : List Templated
  pub replica_sets : List Owned
  pub stateful_sets : List Templated
  pub daemon_sets : List Templated
  pub ingresses : List Ingress
  pub cron_jobs : List Templated
  pub jobs : List OwnedJob
  pub pods : List OwnedPod
  pub certificates : List (Option CustomObject)
  pub external_secrets : List (Option CustomObject)
  pub secret_provider_classes : List (Option CustomObject)
  pub kafka_connectors : List (Option CustomObject)
  pub confluent_connectors : List (Option CustomObject)

-- The variables of `rebuild` that its loops change.
pub record Building : Type 0 where
  pub workloads : List WorkloadInput
  pub owners : ControllerOwnerIndex

abbrev pub no_blanks : List Text → List Text
no_blanks = keep (λ name. not (name == []))

abbrev pub owned_job : OwnedJob → Owned
owned_job j = record {
  namespace = j.job.meta.namespace;
  name = j.job.meta.name;
  owner_references = j.owner_references;
}

abbrev pub owned_pod : OwnedPod → Owned
owned_pod p = record {
  namespace = p.pod.meta.namespace;
  name = p.pod.meta.name;
  owner_references = p.owner_references;
}

abbrev pub put_unless_empty : Text → List Text → Dict (List Text) → Dict (List Text)
put_unless_empty key [] m = m
put_unless_empty key (name ∷ names) m = put key (name ∷ names) m

-- What makes the workload of a custom resource, and the items of its store.
abbrev pub CustomLoop : Type 0
CustomLoop = (Options → CustomObject → WorkloadInput) × List (Option CustomObject)

-- The five loops over custom resources, in their order.
unfoldable pub custom_loops : Runtime → Nested → Listed → List CustomLoop
custom_loops rt nested l =
    (λ o c. workload_from_certificate rt nested o (some c), l.certificates)
    ∷ (λ o c. workload_from_external_secret rt nested o (some c), l.external_secrets)
    ∷ (λ o c. workload_from_secret_provider_class rt nested o (some c), l.secret_provider_classes)
    ∷ (workload_from_strimzi_kafka_connector rt nested, l.kafka_connectors)
    ∷ (workload_from_confluent_connector rt nested, l.confluent_connectors)
    ∷ []

module _ (rt : Runtime) (cluster : Text) (filter : NamespaceFilter) where
  unfoldable pub secret_inputs : List Secret → List SecretInput
  secret_inputs [] = []
  secret_inputs (s ∷ ss) =
      let rest = secret_inputs ss in
      if includes filter s.meta.namespace then secret_input_from_secret cluster s ∷ rest else rest

  unfoldable pub pull_secrets : List ServiceAccount → Dict (List Text)
  pull_secrets accounts =
      loop
        (λ m account.
          if includes filter account.namespace
          then put_unless_empty (service_account_key account.namespace account.name)
              (no_blanks account.image_pull_secrets) m
          else m)
        [] accounts

  module _ (opts : Options) where
    -- One loop over the objects of a kind whose objects are indexed as owners.
    unfoldable pub add_templated :
        (ControllerOwnerIndex → Text → Text → ControllerOwnerIndex)
        → (Options → Templated → WorkloadInput)
        → Building
        → Templated
        → Building
    add_templated index from b w =
        if includes filter w.meta.namespace
        then record {
          workloads = b.workloads ++ from opts w ∷ [];
          owners = index b.owners w.meta.namespace w.meta.name;
        }
        else b

    unfoldable pub add_set : Building → Owned → Building
    add_set b set =
        if includes filter set.namespace
        then record b { owners = add_replica_set b.owners set }
        else b

    unfoldable pub add_ingress : Building → Ingress → Building
    add_ingress b ingress =
        if includes filter ingress.meta.namespace
        then record b { workloads = b.workloads ++ workload_from_ingress rt opts ingress ∷ [] }
        else b

    unfoldable pub add_owned_job : Building → OwnedJob → Building
    add_owned_job b j =
        let include_job = should_include_job_workload (owned_job j) b.owners in
        if includes filter j.job.meta.namespace
        then record {
          workloads =
              (if include_job
                then b.workloads ++ workload_from_job rt opts j.job ∷ []
                else b.workloads);
          owners = add_job b.owners (owned_job j) include_job;
        }
        else b

    unfoldable pub add_pod : Building → OwnedPod → Building
    add_pod b p =
        if includes filter p.pod.meta.namespace
        then (if should_include_pod_workload (owned_pod p) b.owners
            then record b { workloads = b.workloads ++ workload_from_pod rt opts p.pod ∷ [] }
            else b)
        else b

    unfoldable pub owners_built : Listed → Building
    unfolding add_templated add_set add_ingress add_owned_job
    owners_built l =
        let b₀ : Building = record { workloads = []; owners = new_controller_owner_index } in
        let b₁ =
          loop (add_templated add_deployment (workload_from_deployment rt)) b₀ l.deployments in
        let b₂ = loop add_set b₁ l.replica_sets in
        let b₃ =
          loop (add_templated add_stateful_set (workload_from_stateful_set rt)) b₂
            l.stateful_sets in
        let b₄ =
          loop (add_templated add_daemon_set (workload_from_daemon_set rt)) b₃ l.daemon_sets in
        let b₅ = loop add_ingress b₄ l.ingresses in
        let b₆ = loop (add_templated add_cron_job (workload_from_cron_job rt)) b₅ l.cron_jobs in
        loop add_owned_job b₆ l.jobs

    -- One loop over the store of a kind of custom resources.
    unfoldable pub add_custom :
        (Options → CustomObject → WorkloadInput) → Building → Option CustomObject → Building
    add_custom from b none = b
    add_custom from b (some c) =
        if includes filter c.meta.namespace
        then record b { workloads = b.workloads ++ from opts c ∷ [] }
        else b

    -- The loop over one store.
    unfoldable pub add_customs : Building → CustomLoop → Building
    unfolding add_custom
    add_customs b (from, items) = loop (add_custom from) b items

    module _ (nested : Nested) where
      unfoldable pub custom_built : Building → Listed → Building
      unfolding add_customs
      custom_built b l = loop add_customs b (custom_loops rt nested l)

      unfoldable pub built : Listed → Building
      unfolding owners_built add_pod custom_built
      built l = custom_built (loop add_pod (owners_built l) l.pods) l

  -- What `rebuild` gives to `ApplySnapshot`, where the controller is ready and no lister fails.
  unfoldable pub rebuild_inputs : Nested → Options → Listed → List SecretInput × List WorkloadInput
  unfolding built
  rebuild_inputs nested opts l =
      let with_accounts = record opts {
        service_account_image_pull_secrets = pull_secrets l.service_accounts;
      } in
      (secret_inputs l.secrets, (built with_accounts nested l).workloads)

-- `rebuild` itself, with `none` for a lister that fails and `range` for the order of ranging in
-- `ApplySnapshot`: the graph changes only if the controller is ready and every list is there.
unfoldable pub rebuild :
    Runtime
    → Nested
    → Text
    → NamespaceFilter
    → (List DependencyEdge → List DependencyEdge)
    → Options
    → Bool
    → Option Listed
    → Time
    → Cache
    → Cache
rebuild rt nested cluster filter range opts is_ready none now c = c
rebuild rt nested cluster filter range opts is_ready (some l) now c =
    let (secrets, workloads) = rebuild_inputs rt cluster filter nested opts l in
    if is_ready then apply_snapshot range c secrets workloads now else c
