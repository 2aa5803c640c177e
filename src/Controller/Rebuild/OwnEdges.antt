-- ===== src/Controller/Rebuild/OwnEdges.antt =====
-- Every edge that `rebuild` hands to the graph is an edge of its own workload.
use mathlib.Core.List.{Permᴰ}
use kbeacon.Prelude.{
  ◌≡◌, ◌≢◌, true, Option, none, some, List, [], ◌∷◌, ◌++◌, arith, loop, loop_inv, loop_inv-All, All,
  All-append, Bool-cases, inl, inr,
}
use kbeacon.Text.{Text, str, ==_iff}
use kbeacon.Graph.Types.{DependencyEdge, WorkloadInput}
use kbeacon.Discovery.Objects.{Templated, Ingress, Options}
use kbeacon.Discovery.Extract.{
  Runtime, workload_from_deployment, workload_from_stateful_set, workload_from_daemon_set,
  workload_from_job, workload_from_cron_job, workload_from_pod,
}
use kbeacon.Discovery.Custom.{CustomObject, Nested}
use kbeacon.Discovery.Edges.Workloads.{
  HasOwnEdges, AccountsNamed, workload_from_pod_spec-HasOwnEdges, workload_from_ingress-HasOwnEdges,
}
use kbeacon.Discovery.Edges.Customs.{
  certificate-HasOwnEdges, external_secret-HasOwnEdges, secret_provider_class-HasOwnEdges,
  strimzi-HasOwnEdges, confluent-HasOwnEdges,
}
use kbeacon.Controller.Namespaces.{NamespaceFilter, includes}
use kbeacon.Controller.Owners.{
  Owned, ControllerOwnerIndex, new_controller_owner_index, add_deployment, add_stateful_set,
  add_daemon_set, add_cron_job, should_include_job_workload, should_include_pod_workload,
}
use kbeacon.Controller.Rebuild.Accounts.{with_accounts, with_accounts-AccountsNamed}
use kbeacon.Controller.Rebuild.{
  OwnedJob, OwnedPod, Listed, Building, owned_job, owned_pod, add_templated, add_set, add_ingress,
  add_owned_job, add_pod, CustomLoop, custom_loops, add_custom, add_customs, custom_built,
  owners_built, built, rebuild_inputs,
}

-- What the filter lets through has a namespace.
includes-filled : (f : NamespaceFilter) (n : Text) → includes f n ≡ true → n ≢ []
unfolding includes
includes-filled f n h = λ z. ground (arith, ==_iff n [])

module _ (rt : Runtime) (rearranges : (xs : List DependencyEdge) → Permᴰ (rt.order xs) xs)
    (cluster : Text) (filter : NamespaceFilter) (opts : Options)
    (named : AccountsNamed rt rearranges opts) where
  abbrev Owning : Building → Type 0
  Owning b = All (HasOwnEdges opts.cluster) b.workloads

  appended :
      (ws : List WorkloadInput) (w : WorkloadInput)
      → All (HasOwnEdges opts.cluster) ws
      → HasOwnEdges opts.cluster w
      → All (HasOwnEdges opts.cluster) (ws ++ w ∷ [])
  appended ws w h p = All-append (HasOwnEdges opts.cluster) ws (w ∷ []) h (p, tt)

  module _ (index : ControllerOwnerIndex → Text → Text → ControllerOwnerIndex)
      (from : Options → Templated → WorkloadInput)
      (owns : (w : Templated)
        → w.meta.namespace ≢ []
        → HasOwnEdges opts.cluster (from opts w)) where
    templated-Owning :
        (b : Building) (ws : List Templated)
        → Owning b
        → Owning (loop (add_templated rt cluster filter opts index from) b ws)
    templated-Owning b ws = loop_inv Owning _ step b ws
      where
        step :
            (b : Building) (w : Templated)
            → Owning b
            → Owning (add_templated rt cluster filter opts index from b w)
        step b w h =
            unfold add_templated in
            elim (Bool-cases (includes filter w.meta.namespace)) [
              | inl e ↦ rw e (appended b.workloads _ h (owns w (includes-filled filter _ e)))
              | inr e ↦ rw e h
            ]

  add_set-Owning :
      (b : Building) (set : Owned) → Owning b → Owning (add_set rt cluster filter opts b set)
  unfolding add_set
  add_set-Owning b set h = elim (Bool-cases (includes filter set.namespace)) [
    | inl e ↦ rw e h
    | inr e ↦ rw e h
  ]

  add_ingress-Owning :
      (b : Building) (i : Ingress) → Owning b → Owning (add_ingress rt cluster filter opts b i)
  unfolding add_ingress
  add_ingress-Owning b i h = elim (Bool-cases (includes filter i.meta.namespace)) [
    | inl e ↦ rw e (
        appended b.workloads _ h
          (workload_from_ingress-HasOwnEdges rt rearranges opts i (includes-filled filter _ e)))
    | inr e ↦ rw e h
  ]

  add_owned_job-Owning :
      (b : Building) (j : OwnedJob) → Owning b → Owning (add_owned_job rt cluster filter opts b j)
  unfolding add_owned_job workload_from_job
  add_owned_job-Owning b j h = elim (Bool-cases (includes filter j.job.meta.namespace)) [
    | inl e ↦ elim (Bool-cases (should_include_job_workload (owned_job j) b.owners)) [
      | inl k ↦
          rw (e, k)
            (appended b.workloads _ h (
              workload_from_pod_spec-HasOwnEdges rt rearranges opts _ _ j.job.meta _ _ j.job.spec
                (includes-filled filter _ e) named))
      | inr k ↦ rw (e, k) h
    ]
    | inr e ↦ rw e h
  ]

  add_pod-Owning :
      (b : Building) (p : OwnedPod) → Owning b → Owning (add_pod rt cluster filter opts b p)
  unfolding add_pod workload_from_pod
  add_pod-Owning b p h = elim (Bool-cases (includes filter p.pod.meta.namespace)) [
    | inl e ↦ elim (Bool-cases (should_include_pod_workload (owned_pod p) b.owners)) [
      | inl k ↦
          rw (e, k)
            (appended b.workloads _ h (
              workload_from_pod_spec-HasOwnEdges rt rearranges opts _ _ p.pod.meta [] [] p.pod.spec
                (includes-filled filter _ e) named))
      | inr k ↦ rw (e, k) h
    ]
    | inr e ↦ rw e h
  ]

  module _ (nested : Nested) where
    -- A loop makes workloads with their own edges from objects that have a namespace.
    abbrev Makes : CustomLoop → Type 0
    Makes (from, items) =
        (c : CustomObject) → c.meta.namespace ≢ [] → HasOwnEdges opts.cluster (from opts c)

    add_customs-Owning :
        (b : Building) (l : CustomLoop)
        → Owning b
        → Makes l
        → Owning (add_customs rt cluster filter opts b l)
    unfolding add_customs add_custom
    add_customs-Owning b (from, items) h makes = loop_inv Owning _ step b items h
      where
        step :
            (b : Building) (o : Option CustomObject)
            → Owning b
            → Owning (add_custom rt cluster filter opts from b o)
        step b none h = h
        step b (some c) h = elim (Bool-cases (includes filter c.meta.namespace)) [
          | inl e ↦ rw e (appended b.workloads _ h (makes c (includes-filled filter _ e)))
          | inr e ↦ rw e h
        ]

    custom_built-Owning :
        (b : Building) (l : Listed)
        → Owning b
        → Owning (custom_built rt cluster filter opts nested b l)
    unfolding custom_built custom_loops
    custom_built-Owning b l h =
        loop_inv-All Owning Makes (add_customs rt cluster filter opts) add_customs-Owning b
          (custom_loops rt nested l) h
          (
            certificate-HasOwnEdges rt rearranges nested opts,
            (
              external_secret-HasOwnEdges rt rearranges nested opts,
              (
                secret_provider_class-HasOwnEdges rt rearranges nested opts,
                (
                  strimzi-HasOwnEdges rt rearranges nested opts,
                  (confluent-HasOwnEdges rt rearranges nested opts, tt),
                ),
              ),
            ),
          )

    built-Owning : (l : Listed) → Owning (built rt cluster filter opts nested l)
    unfolding built owners_built workload_from_deployment workload_from_stateful_set
        workload_from_daemon_set workload_from_cron_job
    built-Owning l =
        let spec = λ (api kind : Text) (w : Templated) (there : w.meta.namespace ≢ []).
          workload_from_pod_spec-HasOwnEdges rt rearranges opts api kind w.meta
            w.template_annotations w.template_labels w.spec there named in
        let b₀ : Building = record { workloads = []; owners = new_controller_owner_index } in
        let h₁ =
          templated-Owning add_deployment (workload_from_deployment rt)
            (spec (str "apps/v1") (str "Deployment")) b₀ l.deployments tt in
        let h₂ =
          loop_inv Owning (add_set rt cluster filter opts) add_set-Owning _ l.replica_sets h₁ in
        let h₃ =
          templated-Owning add_stateful_set (workload_from_stateful_set rt)
            (spec (str "apps/v1") (str "StatefulSet")) _ l.stateful_sets h₂ in
        let h₄ =
          templated-Owning add_daemon_set (workload_from_daemon_set rt)
            (spec (str "apps/v1") (str "DaemonSet")) _ l.daemon_sets h₃ in
        let h₅ =
          loop_inv Owning (add_ingress rt cluster filter opts) add_ingress-Owning _ l.ingresses
            h₄ in
        let h₆ =
          templated-Owning add_cron_job (workload_from_cron_job rt)
            (spec (str "batch/v1") (str "CronJob")) _ l.cron_jobs h₅ in
        let h₇ =
          loop_inv Owning (add_owned_job rt cluster filter opts) add_owned_job-Owning _ l.jobs h₆ in
        custom_built-Owning _ l
          (loop_inv Owning (add_pod rt cluster filter opts) add_pod-Owning _ l.pods h₇)

-- Every workload that a rebuild hands to the graph, built-in or custom, has only edges of its own:
-- each joins this workload to a Secret of the discovery cluster with a namespace and a name, without a
-- key, under the id of the two. It holds for all listed objects where ranging over a map rearranges
-- its entries.
pub rebuild_inputs-HasOwnEdges :
    (rt : Runtime) (nested : Nested) (cluster : Text) (filter : NamespaceFilter) (opts : Options)
    (l : Listed)
    → ((xs : List DependencyEdge) → Permᴰ (rt.order xs) xs)
    → All (HasOwnEdges opts.cluster) (rebuild_inputs rt cluster filter nested opts l).1
unfolding rebuild_inputs
rebuild_inputs-HasOwnEdges rt nested cluster filter opts l rearranges =
    built-Owning rt rearranges cluster filter
      (with_accounts rt cluster filter opts l.service_accounts)
      (with_accounts-AccountsNamed rt cluster filter rearranges opts l.service_accounts) nested l
