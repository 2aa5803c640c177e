-- ===== src/Controller/Rebuild/Indexed.antt =====
-- The owner index of `rebuild` holds only owners whose workloads are in the list.
use kbeacon.Prelude.{
  ◌≡◌, refl, Bool, true, false, ◌&&◌, ◌||◌, List, [], ◌∷◌, ◌++◌, arith, if◌then◌else◌, loop_inv,
  Bool-cases, inl, inr,
}
use kbeacon.Text.{Text, str, ◌==◌, ==_iff, elem}
use kbeacon.Dict.Sets.{add, elem-add}
use kbeacon.Graph.Types.{WorkloadInput}
use kbeacon.Discovery.Objects.{Templated, Ingress, Options}
use kbeacon.Discovery.Extract.{
  Runtime, workload_input, workload_from_pod_spec, workload_from_deployment,
  workload_from_stateful_set, workload_from_daemon_set, workload_from_job, workload_from_cron_job,
  workload_from_ingress,
}
use kbeacon.Controller.Namespaces.{NamespaceFilter, includes}
use kbeacon.Controller.Owners.{
  Owned, new_controller_owner_index, object_key, add_deployment, add_stateful_set, add_daemon_set,
  add_cron_job, add_job, add_replica_set, should_include_job_workload,
}
use kbeacon.Controller.Rebuild.{
  OwnedJob, Listed, Building, owned_job, add_templated, add_set, add_ingress, add_owned_job,
  owners_built,
}

-- A workload of a kind under a `namespace/name` key is in a list.
abbrev pub shown : Text → Text → List WorkloadInput → Bool
shown kind key [] = false
shown kind key (w ∷ ws) =
    (w.ref.kind == kind && w.ref.namespace ++ (str "/" ++ w.ref.name) == key) || shown kind key ws

pub shown-append :
    (kind key : Text) (ws vs : List WorkloadInput)
    → shown kind key (ws ++ vs) ≡ shown kind key ws || shown kind key vs
shown-append kind key [] vs = refl
shown-append kind key (w ∷ ws) vs = ground (arith, shown-append kind key ws vs)

-- Each key of a set is the key of a workload of a kind.
unfoldable pub Within : Text → List Text → List WorkloadInput → Type 0
Within kind set ws = (key : Text) → elem key set ≡ true → shown kind key ws ≡ true

Within-more :
    (kind : Text) (set : List Text) (ws vs : List WorkloadInput)
    → Within kind set ws
    → Within kind set (ws ++ vs)
unfolding Within
Within-more kind set ws vs h key e = ground (arith, shown-append kind key ws vs, h key e)

Within-add :
    (kind key : Text) (set : List Text) (ws : List WorkloadInput) (w : WorkloadInput)
    → w.ref.kind ≡ kind
    → w.ref.namespace ++ (str "/" ++ w.ref.name) ≡ key
    → Within kind set ws
    → Within kind (add set key) (ws ++ w ∷ [])
unfolding Within
Within-add kind key set ws w k n h j e = ground (
  arith,
  shown-append kind j ws (w ∷ []),
  h j,
  elem-add set key j,
  ==_iff w.ref.kind kind,
  ==_iff (w.ref.namespace ++ (str "/" ++ w.ref.name)) j,
  ==_iff key j,
)

pub record IsIndexed (b : Building) : Type 0 where
  pub deployments : Within (str "Deployment") b.owners.deployments b.workloads
  pub stateful_sets : Within (str "StatefulSet") b.owners.stateful_sets b.workloads
  pub daemon_sets : Within (str "DaemonSet") b.owners.daemon_sets b.workloads
  pub cron_jobs : Within (str "CronJob") b.owners.cron_jobs b.workloads
  pub job_workloads : Within (str "Job") b.owners.job_workloads b.workloads

-- More workloads keep what is indexed.
IsIndexed-more :
    (b : Building) (vs : List WorkloadInput)
    → IsIndexed b
    → IsIndexed (record b { workloads = b.workloads ++ vs })
IsIndexed-more b vs h = record {
  deployments = Within-more _ _ b.workloads vs h.deployments;
  stateful_sets = Within-more _ _ b.workloads vs h.stateful_sets;
  daemon_sets = Within-more _ _ b.workloads vs h.daemon_sets;
  cron_jobs = Within-more _ _ b.workloads vs h.cron_jobs;
  job_workloads = Within-more _ _ b.workloads vs h.job_workloads;
}

nothing : (kind : Text) → Within kind [] []
unfolding Within elem
nothing kind key e = cc

module _ (rt : Runtime) (cluster : Text) (filter : NamespaceFilter) (opts : Options) where
  -- A step under the namespace filter.
  filtered :
      (namespace : Text) (b c : Building)
      → IsIndexed b
      → IsIndexed c
      → IsIndexed (if includes filter namespace then c else b)
  filtered namespace b c h k = elim (Bool-cases (includes filter namespace)) [
    | inl e ↦ rw e k
    | inr e ↦ rw e h
  ]

  deployment-IsIndexed :
      (b : Building) (w : Templated)
      → IsIndexed b
      → IsIndexed
          (add_templated rt cluster filter opts add_deployment (workload_from_deployment rt) b w)
  unfolding add_templated add_deployment object_key workload_from_deployment workload_from_pod_spec
      workload_input
  deployment-IsIndexed b w h =
      let v = workload_from_deployment rt opts w in
      let more = IsIndexed-more b (v ∷ []) h in
      filtered w.meta.namespace b _ h (record {
        deployments = Within-add _ _ b.owners.deployments b.workloads v refl refl h.deployments;
        stateful_sets = more.stateful_sets;
        daemon_sets = more.daemon_sets;
        cron_jobs = more.cron_jobs;
        job_workloads = more.job_workloads;
      })

  stateful_set-IsIndexed :
      (b : Building) (w : Templated)
      → IsIndexed b
      → IsIndexed (
          add_templated rt cluster filter opts add_stateful_set (workload_from_stateful_set rt) b w)
  unfolding add_templated add_stateful_set object_key workload_from_stateful_set
      workload_from_pod_spec workload_input
  stateful_set-IsIndexed b w h =
      let v = workload_from_stateful_set rt opts w in
      let more = IsIndexed-more b (v ∷ []) h in
      filtered w.meta.namespace b _ h (record {
        deployments = more.deployments;
        stateful_sets =
            Within-add _ _ b.owners.stateful_sets b.workloads v refl refl h.stateful_sets;
        daemon_sets = more.daemon_sets;
        cron_jobs = more.cron_jobs;
        job_workloads = more.job_workloads;
      })

  daemon_set-IsIndexed :
      (b : Building) (w : Templated)
      → IsIndexed b
      → IsIndexed
          (add_templated rt cluster filter opts add_daemon_set (workload_from_daemon_set rt) b w)
  unfolding add_templated add_daemon_set object_key workload_from_daemon_set workload_from_pod_spec
      workload_input
  daemon_set-IsIndexed b w h =
      let v = workload_from_daemon_set rt opts w in
      let more = IsIndexed-more b (v ∷ []) h in
      filtered w.meta.namespace b _ h (record {
        deployments = more.deployments;
        stateful_sets = more.stateful_sets;
        daemon_sets = Within-add _ _ b.owners.daemon_sets b.workloads v refl refl h.daemon_sets;
        cron_jobs = more.cron_jobs;
        job_workloads = more.job_workloads;
      })

  cron_job-IsIndexed :
      (b : Building) (w : Templated)
      → IsIndexed b
      → IsIndexed
          (add_templated rt cluster filter opts add_cron_job (workload_from_cron_job rt) b w)
  unfolding add_templated add_cron_job object_key workload_from_cron_job workload_from_pod_spec
      workload_input
  cron_job-IsIndexed b w h =
      let v = workload_from_cron_job rt opts w in
      let more = IsIndexed-more b (v ∷ []) h in
      filtered w.meta.namespace b _ h (record {
        deployments = more.deployments;
        stateful_sets = more.stateful_sets;
        daemon_sets = more.daemon_sets;
        cron_jobs = Within-add _ _ b.owners.cron_jobs b.workloads v refl refl h.cron_jobs;
        job_workloads = more.job_workloads;
      })

  set-IsIndexed :
      (b : Building) (set : Owned) → IsIndexed b → IsIndexed (add_set rt cluster filter opts b set)
  unfolding add_set add_replica_set
  set-IsIndexed b set h = filtered set.namespace b _ h (record {
    deployments = h.deployments;
    stateful_sets = h.stateful_sets;
    daemon_sets = h.daemon_sets;
    cron_jobs = h.cron_jobs;
    job_workloads = h.job_workloads;
  })

  ingress-IsIndexed :
      (b : Building) (i : Ingress)
      → IsIndexed b
      → IsIndexed (add_ingress rt cluster filter opts b i)
  unfolding add_ingress
  ingress-IsIndexed b i h =
      filtered i.meta.namespace b _ h (IsIndexed-more b (workload_from_ingress rt opts i ∷ []) h)

  owned_job-IsIndexed :
      (b : Building) (j : OwnedJob)
      → IsIndexed b
      → IsIndexed (add_owned_job rt cluster filter opts b j)
  unfolding add_owned_job add_job object_key workload_from_job workload_from_pod_spec workload_input
  owned_job-IsIndexed b j h =
      let v = workload_from_job rt opts j.job in
      let more = IsIndexed-more b (v ∷ []) h in
      filtered j.job.meta.namespace b _ h
        (elim (Bool-cases (should_include_job_workload (owned_job j) b.owners)) [
          | inl e ↦ rw e (record {
            deployments = more.deployments;
            stateful_sets = more.stateful_sets;
            daemon_sets = more.daemon_sets;
            cron_jobs = more.cron_jobs;
            job_workloads =
                Within-add _ _ b.owners.job_workloads b.workloads v refl refl h.job_workloads;
          })
          | inr e ↦ rw e (record {
            deployments = h.deployments;
            stateful_sets = h.stateful_sets;
            daemon_sets = h.daemon_sets;
            cron_jobs = h.cron_jobs;
            job_workloads = h.job_workloads;
          })
        ])

  pub owners_built-IsIndexed : (l : Listed) → IsIndexed (owners_built rt cluster filter opts l)
  unfolding owners_built new_controller_owner_index
  owners_built-IsIndexed l =
      let start : IsIndexed (record { workloads = []; owners = new_controller_owner_index }) =
        record {
          deployments = nothing _;
          stateful_sets = nothing _;
          daemon_sets = nothing _;
          cron_jobs = nothing _;
          job_workloads = nothing _;
        } in
      let i₁ = loop_inv IsIndexed _ deployment-IsIndexed _ l.deployments start in
      let i₂ = loop_inv IsIndexed _ set-IsIndexed _ l.replica_sets i₁ in
      let i₃ = loop_inv IsIndexed _ stateful_set-IsIndexed _ l.stateful_sets i₂ in
      let i₄ = loop_inv IsIndexed _ daemon_set-IsIndexed _ l.daemon_sets i₃ in
      let i₅ = loop_inv IsIndexed _ ingress-IsIndexed _ l.ingresses i₄ in
      let i₆ = loop_inv IsIndexed _ cron_job-IsIndexed _ l.cron_jobs i₅ in
      loop_inv IsIndexed _ owned_job-IsIndexed _ l.jobs i₆
