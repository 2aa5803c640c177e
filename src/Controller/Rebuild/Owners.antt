-- ===== src/Controller/Rebuild/Owners.antt =====
-- The Pods that `rebuild` leaves out because of their owners, and the workloads of owners.
use kbeacon.Prelude.{
  ◌≡◌, refl, Bool, true, false, ◌||◌, not, Option, none, some, List, [], ◌∷◌, ◌++◌, arith, loop,
  loop_inv, Bool-cases, inl, inr,
}
use kbeacon.Text.{Text, str, ◌==◌, ==_iff, elem}
use kbeacon.Dict.{get}
use kbeacon.Graph.Types.{WorkloadInput}
use kbeacon.Discovery.Objects.{Options}
use kbeacon.Discovery.Extract.{Runtime}
use kbeacon.Discovery.Custom.{Nested}
use kbeacon.Controller.Namespaces.{NamespaceFilter}
use kbeacon.Controller.Owners.{
  OwnerReference, Owned, object_key, controller_owner_reference, by_cron_job, by_deployment,
  by_replica_set, by_indexed_job, resolved_by_kind, resolved_by_owner,
  pod_controller_resolved_to_workload, should_include_pod_workload,
}
use kbeacon.Controller.Rebuild.{Listed, owned_job, Building, add_pod, owners_built, built}
use kbeacon.Controller.Rebuild.Indexed.{shown, Within, IsIndexed, owners_built-IsIndexed}
use kbeacon.Controller.Rebuild.Sourced.{itself, IsSource, IsSourced, owners_built-IsSourced}
use kbeacon.Controller.Owners.First.{IsController, controller_owner_reference-IsController}
use kbeacon.Controller.Rebuild.Shown.{shown-add_pod, shown-custom_built}

abbrev pub owner_kinds : List Text
owner_kinds =
    str "Deployment" ∷ str "StatefulSet" ∷ str "DaemonSet" ∷ str "CronJob" ∷ str "Job" ∷ []

-- A workload of a kind is in a list, with the namespace and the name that make one key.
abbrev pub Appears : Text → Text → Text → List WorkloadInput → Type 0
Appears kind namespace name ws = shown kind (namespace ++ (str "/" ++ name)) ws ≡ true

-- What stands in a list of workloads for an object in a namespace with an owner: the owner itself, if
-- its kind is one of the five; for a listed ReplicaSet, the Deployment that controls it; for a listed
-- Job, the CronJob that controls it. Each is in the namespace of what it owns, and an object is
-- known by its namespace and name joined by a slash.
pub data Represented (l : Listed) (ws : List WorkloadInput) (namespace : Text)
    (owner : OwnerReference) : Type 0 where
  by_itself :
      elem owner.kind owner_kinds ≡ true
      → Appears owner.kind namespace owner.name ws
      → Represented l ws namespace owner
  by_set :
      (set : Owned) (deployment : OwnerReference)
      → owner.kind ≡ str "ReplicaSet"
      → IsSource itself l.replica_sets (namespace ++ (str "/" ++ owner.name)) set
      → IsController set.owner_references deployment
      → deployment.kind ≡ str "Deployment"
      → Appears (str "Deployment") set.namespace deployment.name ws
      → Represented l ws namespace owner
  by_job :
      (job : Owned) (cron_job : OwnerReference)
      → owner.kind ≡ str "Job"
      → IsSource owned_job l.jobs (namespace ++ (str "/" ++ owner.name)) job
      → IsController job.owner_references cron_job
      → cron_job.kind ≡ str "CronJob"
      → Appears (str "CronJob") job.namespace cron_job.name ws
      → Represented l ws namespace owner

equal_texts : (a b : Text) → a == b ≡ true → a ≡ b
equal_texts a b h = (==_iff a b).0 h

module _ (l : Listed) (namespace : Text) (owner : OwnerReference) where
  Represented-more :
      (ws vs : List WorkloadInput)
      → ((kind key : Text) → shown kind key ws ≡ true → shown kind key vs ≡ true)
      → Represented l ws namespace owner
      → Represented l vs namespace owner
  Represented-more ws vs more (by_itself k s) = by_itself k (more _ _ s)
  Represented-more ws vs more (by_set set d k i c dk s) = by_set set d k i c dk (more _ _ s)
  Represented-more ws vs more (by_job job c k i o ck s) = by_job job c k i o ck (more _ _ s)

module _ (l : Listed) (b : Building) (h : IsIndexed b) (sourced : IsSourced l b.owners)
    (namespace : Text) (owner : OwnerReference) where
  abbrev Here : Type 0
  Here = Represented l b.workloads namespace owner

  Represented-by_set :
      owner.kind ≡ str "ReplicaSet"
      → (found : Option Owned) → get (object_key namespace owner.name) b.owners.replica_sets ≡ found
      → by_replica_set b.owners found ≡ true
      → Here
  unfolding object_key Within
  Represented-by_set k none same e = cc
  Represented-by_set k (some set) same e =
      by_reference (controller_owner_reference set.owner_references) refl e
    where
      by_reference :
          (o : Option OwnerReference)
          → controller_owner_reference set.owner_references ≡ o
          → by_deployment b.owners set.namespace o ≡ true
          → Here
      by_reference none is e = cc
      by_reference (some d) is e =
          let key = set.namespace ++ (str "/" ++ d.name) in
          by_set set d k (sourced.replica_sets _ set same)
            (controller_owner_reference-IsController set.owner_references d is)
            ((==_iff d.kind (str "Deployment")).0 (ground arith)) (h.deployments key (ground arith))

  Represented-by_job :
      owner.kind ≡ str "Job"
      → (found : Option Owned) → get (object_key namespace owner.name) b.owners.jobs ≡ found
      → elem (object_key namespace owner.name) b.owners.job_workloads
          || by_indexed_job b.owners found
        ≡ true
      → Here
  unfolding object_key Within elem ◌==◌
  Represented-by_job k found same e =
      elim (Bool-cases (elem (object_key namespace owner.name) b.owners.job_workloads)) [
        | inl is ↦ by_itself (rw k refl) (rw k (h.job_workloads _ is))
        | inr other ↦ by_indexed found same (rw other at e)
      ]
    where
      by_reference :
          (job : Owned)
          → get (object_key namespace owner.name) b.owners.jobs ≡ some job
          → (o : Option OwnerReference) → controller_owner_reference job.owner_references ≡ o
          → by_cron_job b.owners job.namespace o ≡ true
          → Here
      by_reference job same none is e = cc
      by_reference job same (some c) is e =
          let key = job.namespace ++ (str "/" ++ c.name) in
          by_job job c k (sourced.jobs _ job same)
            (controller_owner_reference-IsController job.owner_references c is)
            ((==_iff c.kind (str "CronJob")).0 (ground arith)) (h.cron_jobs key (ground arith))

      by_indexed :
          (found : Option Owned)
          → get (object_key namespace owner.name) b.owners.jobs ≡ found
          → by_indexed_job b.owners found ≡ true
          → Here
      by_indexed none same e = cc
      by_indexed (some job) same e =
          by_reference job same (controller_owner_reference job.owner_references) refl e

  -- An owner of one of the five kinds, in the set of its kind.
  Represented-by_itself :
      (kind : Text) (set : List Text)
      → elem kind owner_kinds ≡ true
      → owner.kind ≡ kind
      → Within kind set b.workloads
      → elem (object_key namespace owner.name) set ≡ true
      → Here
  unfolding object_key Within
  Represented-by_itself kind set known k within e = by_itself (rw k known) (rw k (within _ e))

  Represented-by_kind :
      resolved_by_kind b.owners owner.kind (object_key namespace owner.name) ≡ true → Here
  unfolding resolved_by_kind elem ◌==◌
  Represented-by_kind e =
      let key = object_key namespace owner.name in
      elim (Bool-cases (owner.kind == str "Deployment")) [
        | inl k ↦
            Represented-by_itself _ _ refl (equal_texts owner.kind _ k) h.deployments (rw k at e)
        | inr k₁ ↦ elim (Bool-cases (owner.kind == str "ReplicaSet")) [
          | inl k ↦
              Represented-by_set (equal_texts owner.kind _ k) (get key b.owners.replica_sets) refl
                (rw (k₁, k) at e)
          | inr k₂ ↦ elim (Bool-cases (owner.kind == str "StatefulSet")) [
            | inl k ↦
                Represented-by_itself _ _ refl (equal_texts owner.kind _ k) h.stateful_sets
                  (rw (k₁, k₂, k) at e)
            | inr k₃ ↦ elim (Bool-cases (owner.kind == str "DaemonSet")) [
              | inl k ↦
                  Represented-by_itself _ _ refl (equal_texts owner.kind _ k) h.daemon_sets
                    (rw (k₁, k₂, k₃, k) at e)
              | inr k₄ ↦ elim (Bool-cases (owner.kind == str "Job")) [
                | inl k ↦
                    Represented-by_job (equal_texts owner.kind _ k) (get key b.owners.jobs) refl
                      (rw (k₁, k₂, k₃, k₄, k) at e)
                | inr k₅ ↦ elim (Bool-cases (owner.kind == str "CronJob")) [
                  | inl k ↦
                      Represented-by_itself _ _ refl (equal_texts owner.kind _ k) h.cron_jobs
                        (rw (k₁, k₂, k₃, k₄, k₅, k) at e)
                  | inr k₆ ↦ absurd (ground arith)
                ]
              ]
            ]
          ]
        ]
      ]

true_of_not : (x : Bool) → not x ≡ false → x ≡ true
true_of_not x h = ground arith

-- What stands for an object with owner references: its controller is represented.
pub record HasOwner (l : Listed) (ws : List WorkloadInput) (namespace : Text)
    (refs : List OwnerReference) : Type 0 where
  pub owner : OwnerReference
  pub controls : IsController refs owner
  pub stands : Represented l ws namespace owner

-- If a rebuild leaves a Pod out because of its owner, the first usable controller reference of the
-- Pod is represented in the list of workloads that the rebuild builds: by the owner itself, under
-- its kind, the Pod's namespace and its name, if it is a Deployment, a StatefulSet, a DaemonSet, a
-- CronJob or a Job; by the Deployment that controls the owner, in the ReplicaSet's namespace, if the
-- owner is a listed ReplicaSet; or by the CronJob that controls it if the owner is a listed Job.
pub should_include_pod_workload-Represented :
    (rt : Runtime) (nested : Nested) (cluster : Text) (filter : NamespaceFilter) (opts : Options)
    (l : Listed) (pod : Owned)
    → should_include_pod_workload pod (owners_built rt cluster filter opts l).owners ≡ false
    → HasOwner l
        (built rt cluster filter opts nested l).workloads
        pod.namespace
        pod.owner_references
unfolding should_include_pod_workload pod_controller_resolved_to_workload built
should_include_pod_workload-Represented rt nested cluster filter opts l pod e =
    by_reference (controller_owner_reference pod.owner_references) refl (true_of_not _ e)
  where
    by_reference :
        (o : Option OwnerReference)
        → controller_owner_reference pod.owner_references ≡ o
        → resolved_by_owner (owners_built rt cluster filter opts l).owners pod.namespace o ≡ true
        → HasOwner l
            (built rt cluster filter opts nested l).workloads
            pod.namespace
            pod.owner_references
    by_reference none is e = cc
    by_reference (some owner) is e =
        let b = owners_built rt cluster filter opts l in
        record {
          owner = owner;
          controls = controller_owner_reference-IsController pod.owner_references owner is;
          stands =
              Represented-more l pod.namespace owner b.workloads _
                (λ kind key s.
                  shown-custom_built rt nested cluster filter opts kind key
                    (loop (add_pod rt cluster filter opts) b l.pods) l
                    (loop_inv (λ x. shown kind key x.workloads ≡ true)
                      (add_pod rt cluster filter opts)
                      (shown-add_pod rt cluster filter opts kind key) b l.pods s))
                (Represented-by_kind l b (owners_built-IsIndexed rt cluster filter opts l)
                  (owners_built-IsSourced rt cluster filter opts l) pod.namespace owner e);
        }
