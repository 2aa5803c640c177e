-- ===== src/Controller/Rebuild/Shown.antt =====
-- The later loops of `rebuild` only add to the list of workloads.
use kbeacon.Prelude.{◌≡◌, true, Option, none, some, [], ◌∷◌, arith, loop_inv, Bool-cases, inl, inr}
use kbeacon.Text.{Text}
use kbeacon.Graph.Types.{WorkloadInput}
use kbeacon.Discovery.Objects.{Options}
use kbeacon.Discovery.Extract.{Runtime, workload_from_pod}
use kbeacon.Discovery.Custom.{CustomObject, Nested}
use kbeacon.Controller.Namespaces.{NamespaceFilter, includes}
use kbeacon.Controller.Owners.{should_include_pod_workload}
use kbeacon.Controller.Rebuild.{
  OwnedPod, Listed, Building, owned_pod, add_pod, CustomLoop, custom_loops, add_custom, add_customs,
  custom_built,
}
use kbeacon.Controller.Rebuild.Indexed.{shown, shown-append}

pub shown-add_pod :
    (rt : Runtime) (cluster : Text) (filter : NamespaceFilter) (opts : Options) (kind key : Text)
    (b : Building) (p : OwnedPod)
    → shown kind key b.workloads ≡ true
    → shown kind key (add_pod rt cluster filter opts b p).workloads ≡ true
unfolding add_pod
shown-add_pod rt cluster filter opts kind key b p h =
    elim (Bool-cases (includes filter p.pod.meta.namespace)) [
      | inl e ↦ elim (Bool-cases (should_include_pod_workload (owned_pod p) b.owners)) [
        | inl k ↦
            rw (e, k)
              (ground
                (arith, shown-append kind key b.workloads (workload_from_pod rt opts p.pod ∷ [])))
        | inr k ↦ rw (e, k) h
      ]
      | inr e ↦ rw e h
    ]

module _ (rt : Runtime) (nested : Nested) (cluster : Text) (filter : NamespaceFilter)
    (opts : Options) (kind key : Text) where
  shown-add_custom :
      (from : Options → CustomObject → WorkloadInput) (b : Building) (o : Option CustomObject)
      → shown kind key b.workloads ≡ true
      → shown kind key (add_custom rt cluster filter opts from b o).workloads ≡ true
  unfolding add_custom
  shown-add_custom from b none h = h
  shown-add_custom from b (some c) h = elim (Bool-cases (includes filter c.meta.namespace)) [
    | inl e ↦ rw e (ground (arith, shown-append kind key b.workloads (from opts c ∷ [])))
    | inr e ↦ rw e h
  ]

  shown-add_customs :
      (b : Building) (c : CustomLoop)
      → shown kind key b.workloads ≡ true
      → shown kind key (add_customs rt cluster filter opts b c).workloads ≡ true
  unfolding add_customs
  shown-add_customs b (from, items) h =
      loop_inv (λ x. shown kind key x.workloads ≡ true) (add_custom rt cluster filter opts from)
        (shown-add_custom from) b items h

  pub shown-custom_built :
      (b : Building) (l : Listed)
      → shown kind key b.workloads ≡ true
      → shown kind key (custom_built rt cluster filter opts nested b l).workloads ≡ true
  unfolding custom_built
  shown-custom_built b l h =
      loop_inv (λ x. shown kind key x.workloads ≡ true) (add_customs rt cluster filter opts)
        shown-add_customs b (custom_loops rt nested l) h
