-- ===== src/Controller/Status/Ready.antt =====
-- When a started controller is ready.
use kbeacon.Prelude.{
  keep, List, ◌∷◌, ◌≡◌, refl, sym, ap, ◌∙◌, Bool, true, false, ◌&&◌, ◌||◌, not, Option, [], ◌++◌,
  arith, append-nil, if◌then◌else◌, some_or, is_some, loop, Bool-cases, inl, inr,
}
use kbeacon.Text.{Text, elem, ==_iff}
use kbeacon.Dict.{get}
use kbeacon.Controller.Status.{
  ResourceConfig, default_resource_config, built_in_resources, custom_resources, resource_order,
  enabled, enabled_syncs, any_custom, Controller, add_informer, built_in_informers,
  custom_informers, new_controller, start, is_ready,
}
use kbeacon.Controller.Status.Waiting.{
  every, every-append, every-ext, every-stuck, settled, status-every, wait_for_syncs-all,
  get-wait_for_syncs, wait_for_syncs-failed,
}
use kbeacon.Controller.Status.Informers.{
  names_of, add_informers, resources-add_informers, unsynced-add_informers, elem-append, watched,
  watched-names_of, enabled-names_of, Flags-built_in, Flags-custom, watched-no_custom,
}

no_custom_names : (r : ResourceConfig) → any_custom r ≡ false → names_of (custom_informers r) ≡ []
unfolding names_of
no_custom_names r h = ground arith

elem-keep : (p : Text → Bool) (x : Text) (ns : List Text) → elem x (keep p ns) ≡ elem x ns && p x
unfolding elem
elem-keep p x [] = refl
elem-keep p x (n ∷ ns) = elim (Bool-cases (p n)) [
  | inl e ↦ rw e (ground (arith, elem-keep p x ns, ==_iff n x, λ (h : n ≡ x). ap p h))
  | inr e ↦ rw e (ground (arith, elem-keep p x ns, ==_iff n x, λ (h : n ≡ x). ap p h))
]

module _ (dynamic_client : Bool) (o : Option ResourceConfig) where
  -- The resources of the controller.
  abbrev watching : ResourceConfig
  watching = some_or default_resource_config o

  informers-new_controller :
      (new_controller dynamic_client o).informers
      ≡ names_of (built_in_informers watching)
        ++ (if dynamic_client then names_of (custom_informers watching) else [])
  unfolding new_controller
  informers-new_controller =
      let c : Controller = record { resources = watching; informers = []; synced = [] } in
      let b = loop add_informer c (built_in_informers watching) in
      elim (Bool-cases dynamic_client) [
        | inl d ↦ elim (Bool-cases (any_custom watching)) [
          | inl e ↦
              rw (d, e)
                (add_informers b (custom_informers watching)
                  ∙ ap (λ l. l ++ names_of (custom_informers watching))
                      (add_informers c (built_in_informers watching)))
          | inr e ↦
              rw (d, e)
                (rw (no_custom_names watching e)
                  (add_informers c (built_in_informers watching) ∙ sym (append-nil _)))
        ]
        | inr d ↦ rw d (add_informers c (built_in_informers watching) ∙ sym (append-nil _))
      ]

  resources-new_controller : (new_controller dynamic_client o).resources ≡ watching
  unfolding new_controller
  resources-new_controller =
      let c : Controller = record { resources = watching; informers = []; synced = [] } in
      let b = loop add_informer c (built_in_informers watching) in
      elim (Bool-cases (dynamic_client && any_custom watching)) [
        | inl e ↦ rw e (
            resources-add_informers b (custom_informers watching)
            ∙ resources-add_informers c (built_in_informers watching))
        | inr e ↦ rw e (resources-add_informers c (built_in_informers watching))
      ]

  unsynced-new_controller :
      (x : Text) → some_or false (get x (new_controller dynamic_client o).synced) ≡ false
  unfolding new_controller
  unsynced-new_controller x =
      let c : Controller = record { resources = watching; informers = []; synced = [] } in
      let b = loop add_informer c (built_in_informers watching) in
      let before = unsynced-add_informers c (built_in_informers watching) x (unfold get in refl) in
      elim (Bool-cases (dynamic_client && any_custom watching)) [
        | inl e ↦ rw e (unsynced-add_informers b (custom_informers watching) x before)
        | inr e ↦ rw e before
      ]

  -- The resources that are watched or have no informer to wait for.
  watched-new_controller :
      every (watched watching (new_controller dynamic_client o).informers) resource_order
      ≡ dynamic_client || not (any_custom watching)
  watched-new_controller =
      let r = watching in
      let built_in = names_of (built_in_informers r) in
      let custom = names_of (custom_informers r) in
      rw informers-new_controller (
        every-append (watched r _) built_in_resources custom_resources
        ∙ elim (Bool-cases dynamic_client) [
          | inl d ↦ rw d (
              ground (
                arith,
                watched-names_of r (built_in_informers r) (built_in ++ custom) (Flags-built_in r)
                    (λ x e. ground (arith, elem-append x built_in custom)),
                watched-names_of r (custom_informers r) (built_in ++ custom) (Flags-custom r)
                    (λ x e. ground (arith, elem-append x built_in custom)),
              ))
          | inr d ↦
              rw (d, append-nil)
                (ground (
                  arith,
                  watched-names_of r (built_in_informers r) built_in (Flags-built_in r) (λ x e. e),
                  watched-no_custom r,
                ))
        ])

  -- An informer stands for an enabled resource of the status.
  informer-enabled :
      (x : Text)
      → elem x (new_controller dynamic_client o).informers ≡ true
      → (enabled watching x ≡ true) × (elem x resource_order ≡ true)
  informer-enabled x h =
      let r = watching in
      let built_in = names_of (built_in_informers r) in
      let custom = names_of (custom_informers r) in
      let there : elem x (built_in ++ (if dynamic_client then custom else [])) ≡ true =
        rw informers-new_controller at h in
      let split = elem-append x built_in (if dynamic_client then custom else []) in
      let order = elem-append x built_in_resources custom_resources in
      elim (Bool-cases (elem x built_in)) [
        | inl e ↦
            let (on, listed) = enabled-names_of r (built_in_informers r) x (Flags-built_in r) e in
            (on, ground arith)
        | inr e ↦
            let later : elem x custom ≡ true = unfold elem in ground arith in
            let (on, listed) = enabled-names_of r (custom_informers r) x (Flags-custom r) later in
            (on, ground arith)
      ]

  -- `Start` waits for every informer.
  elem-enabled_syncs :
      (x : Text)
      → elem x (enabled_syncs (new_controller dynamic_client o))
        ≡ elem x (new_controller dynamic_client o).informers
  unfolding enabled_syncs
  elem-enabled_syncs x =
      let c = new_controller dynamic_client o in
      elem-keep (λ n. elem n c.informers) x resource_order
      ∙ elim (Bool-cases (elem x c.informers)) [
        | inl e ↦ rw (e, (informer-enabled x e).1) refl
        | inr e ↦ rw e (ground arith)
      ]

  module _ (waits : Text → Bool) where
    settled-started :
        (n : Text)
        → every waits (enabled_syncs (new_controller dynamic_client o)) ≡ true
        → settled (start waits (new_controller dynamic_client o)).0 n
          ≡ watched watching (new_controller dynamic_client o).informers n
    unfolding start
    settled-started n h =
        let c = new_controller dynamic_client o in
        simp resources-new_controller (
          ground (
            arith,
            get-wait_for_syncs waits (enabled_syncs c) c.synced n h,
            elem-enabled_syncs n,
            unsynced-new_controller n,
          ))

    -- After `Start` has been through the informers of a new controller, the controller is ready exactly
    -- if each of its informers synced and there is a dynamic client or no custom resource is enabled;
    -- and `Start` fails exactly if one of the informers did not sync. The informers of enabled custom
    -- resources count like the others: one whose definition the cluster does not have, and that does not
    -- sync for this reason, keeps the controller from being ready and makes `Start` fail.
    pub start-is_ready :
        let c = new_controller dynamic_client o in
        (is_ready (start waits c).0
          ≡ every waits (enabled_syncs c) && (dynamic_client || not (any_custom watching)))
        × (is_some (start waits c).1 ≡ not (every waits (enabled_syncs c)))
    unfolding is_ready
    start-is_ready =
        let c = new_controller dynamic_client o in
        let all = status-every (start waits c).0 ([], true) resource_order in
        elim (Bool-cases (every waits (enabled_syncs c))) [
          | inl e ↦
              let same =
                every-ext (settled (start waits c).0) (watched watching c.informers)
                  (λ n. settled-started n e) resource_order in
              rw e (
                all ∙ same ∙ watched-new_controller,
                unfold start in rw (wait_for_syncs-all waits (enabled_syncs c) c.synced e) refl,
              )
          | inr e ↦
              let (x, failed, listed, off) =
                wait_for_syncs-failed waits (enabled_syncs c) c.synced e in
              let (on, known) = informer-enabled x (sym (elem-enabled_syncs x) ∙ listed) in
              let stuck : settled (start waits c).0 x ≡ false =
                unfold start in simp (resources-new_controller, on, off) refl in
              rw e (
                all ∙ every-stuck (settled (start waits c).0) resource_order x known stuck,
                unfold start in rw failed refl,
              )
        ]
