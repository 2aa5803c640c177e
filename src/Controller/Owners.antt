-- ===== src/Controller/Owners.antt =====
-- internal/controller/owner_resolution.go: which Jobs and Pods are represented by an owner.
pub mod First
use kbeacon.Prelude.{
  Bool, false, ◌&&◌, ◌||◌, not, Option, none, some, List, [], ◌∷◌, ◌++◌, if◌then◌else◌,
}
use kbeacon.Text.{Text, str, ◌==◌, elem}
use kbeacon.Dict.{Dict, get, put}
use kbeacon.Dict.Sets.{add}

pub record OwnerReference : Type 0 where
  pub kind : Text
  pub name : Text
  pub controller : Option Bool

-- What owner resolution reads of a Pod, a ReplicaSet or a Job.
pub record Owned : Type 0 where
  pub namespace : Text
  pub name : Text
  pub owner_references : List OwnerReference

-- `jobs` and `replica_sets` hold no nil pointers, since the loops over the listers add none.
pub record ControllerOwnerIndex : Type 0 where
  pub deployments : List Text
  pub stateful_sets : List Text
  pub daemon_sets : List Text
  pub cron_jobs : List Text
  pub job_workloads : List Text
  pub jobs : Dict Owned
  pub replica_sets : Dict Owned

unfoldable pub new_controller_owner_index : ControllerOwnerIndex
new_controller_owner_index = record {
  deployments = [];
  stateful_sets = [];
  daemon_sets = [];
  cron_jobs = [];
  job_workloads = [];
  jobs = [];
  replica_sets = [];
}

unfoldable pub object_key : Text → Text → Text
object_key namespace name = namespace ++ (str "/" ++ name)

unfoldable pub add_deployment : ControllerOwnerIndex → Text → Text → ControllerOwnerIndex
add_deployment i namespace name = record i {
  deployments = add i.deployments (object_key namespace name);
}

unfoldable pub add_stateful_set : ControllerOwnerIndex → Text → Text → ControllerOwnerIndex
add_stateful_set i namespace name = record i {
  stateful_sets = add i.stateful_sets (object_key namespace name);
}

unfoldable pub add_daemon_set : ControllerOwnerIndex → Text → Text → ControllerOwnerIndex
add_daemon_set i namespace name = record i {
  daemon_sets = add i.daemon_sets (object_key namespace name);
}

unfoldable pub add_cron_job : ControllerOwnerIndex → Text → Text → ControllerOwnerIndex
add_cron_job i namespace name = record i { cron_jobs = add i.cron_jobs (object_key namespace name) }

unfoldable pub add_job : ControllerOwnerIndex → Owned → Bool → ControllerOwnerIndex
add_job i job as_workload =
    let key = object_key job.namespace job.name in
    record i {
      jobs = put key job i.jobs;
      job_workloads = (if as_workload then add i.job_workloads key else i.job_workloads);
    }

unfoldable pub add_replica_set : ControllerOwnerIndex → Owned → ControllerOwnerIndex
add_replica_set i set = record i {
  replica_sets = put (object_key set.namespace set.name) set i.replica_sets;
}

abbrev pub is_controller : Option Bool → Bool
is_controller none = false
is_controller (some b) = b

unfoldable pub controller_owner_reference : List OwnerReference → Option OwnerReference
controller_owner_reference [] = none
controller_owner_reference (ref ∷ refs) =
    let rest = controller_owner_reference refs in
    if not (is_controller ref.controller)
    then rest
    else if ref.kind == [] || ref.name == []
    then rest
    else some ref

abbrev pub by_cron_job : ControllerOwnerIndex → Text → Option OwnerReference → Bool
by_cron_job owners namespace none = false
by_cron_job owners namespace (some owner) =
    owner.kind == str "CronJob" && elem (object_key namespace owner.name) owners.cron_jobs

unfoldable pub should_include_job_workload : Owned → ControllerOwnerIndex → Bool
should_include_job_workload job owners =
    not (by_cron_job owners job.namespace (controller_owner_reference job.owner_references))

abbrev pub by_deployment : ControllerOwnerIndex → Text → Option OwnerReference → Bool
by_deployment owners namespace none = false
by_deployment owners namespace (some owner) =
    owner.kind == str "Deployment" && elem (object_key namespace owner.name) owners.deployments

abbrev pub by_replica_set : ControllerOwnerIndex → Option Owned → Bool
by_replica_set owners none = false
by_replica_set owners (some set) =
    by_deployment owners set.namespace (controller_owner_reference set.owner_references)

abbrev pub by_indexed_job : ControllerOwnerIndex → Option Owned → Bool
by_indexed_job owners none = false
by_indexed_job owners (some job) =
    by_cron_job owners job.namespace (controller_owner_reference job.owner_references)

-- The `switch` on the kind of the owner; `key` is its object key.
unfoldable pub resolved_by_kind : ControllerOwnerIndex → Text → Text → Bool
resolved_by_kind owners kind key =
    if kind == str "Deployment"
    then elem key owners.deployments
    else if kind == str "ReplicaSet"
    then by_replica_set owners (get key owners.replica_sets)
    else if kind == str "StatefulSet"
    then elem key owners.stateful_sets
    else if kind == str "DaemonSet"
    then elem key owners.daemon_sets
    else if kind == str "Job"
    then elem key owners.job_workloads || by_indexed_job owners (get key owners.jobs)
    else if kind == str "CronJob"
    then elem key owners.cron_jobs
    else false

abbrev pub resolved_by_owner : ControllerOwnerIndex → Text → Option OwnerReference → Bool
resolved_by_owner owners namespace none = false
resolved_by_owner owners namespace (some owner) =
    resolved_by_kind owners owner.kind (object_key namespace owner.name)

unfoldable pub pod_controller_resolved_to_workload : Owned → ControllerOwnerIndex → Bool
unfolding resolved_by_kind
pod_controller_resolved_to_workload pod owners =
    resolved_by_owner owners pod.namespace (controller_owner_reference pod.owner_references)

unfoldable pub should_include_pod_workload : Owned → ControllerOwnerIndex → Bool
unfolding pod_controller_resolved_to_workload
should_include_pod_workload pod owners = not (pod_controller_resolved_to_workload pod owners)
