-- ===== src/Controller/Rebuild/Sourced.antt =====
-- The ReplicaSets and Jobs that the owner index of `rebuild` holds.
use kbeacon.Prelude.{
  ◌≡◌, refl, some, List, [], ◌∷◌, ◌++◌, if◌then◌else◌, loop_inv, loop_inv-All, All, Any, here,
  there, Bool-cases, inl, inr, subst,
}
use kbeacon.Text.{Text, str, ◌==◌, ==_iff}
use kbeacon.Dict.{Dict, get, put, get-put}
use kbeacon.Graph.Types.{WorkloadInput}
use kbeacon.Discovery.Objects.{Templated, Ingress, Options}
use kbeacon.Discovery.Extract.{
  Runtime, workload_from_deployment, workload_from_stateful_set, workload_from_daemon_set,
  workload_from_cron_job,
}
use kbeacon.Controller.Namespaces.{NamespaceFilter, includes}
use kbeacon.Controller.Owners.{
  Owned, ControllerOwnerIndex, new_controller_owner_index, object_key, add_deployment,
  add_stateful_set, add_daemon_set, add_cron_job, add_job, add_replica_set,
}
use kbeacon.Controller.Rebuild.{
  OwnedJob, Listed, Building, owned_job, add_templated, add_set, add_ingress, add_owned_job,
  owners_built,
}

-- An object of a list, under the key that its namespace and its name make.
pub record IsSource {ℓ} {A : Type ℓ} (from : A → Owned) (xs : List A) (key : Text) (o : Owned)
    : Type ℓ where
  pub listed : Any (λ x. from x ≡ o) xs
  pub named : o.namespace ++ (str "/" ++ o.name) ≡ key

module _ {ℓ} {A : Type ℓ} (from : A → Owned) where
  -- Each entry of a map is an object of a list, under its own key.
  abbrev pub Sourced : List A → Dict Owned → Type ℓ
  Sourced xs m = (key : Text) (o : Owned) → get key m ≡ some o → IsSource from xs key o

  Sourced-put :
      (xs : List A) (m : Dict Owned) (x : A)
      → Sourced xs m
      → Any (λ y. from y ≡ from x) xs
      → Sourced xs (put (object_key (from x).namespace (from x).name) (from x) m)
  unfolding object_key
  Sourced-put xs m x h a key o e =
      let own = (from x).namespace ++ (str "/" ++ (from x).name) in
      elim (Bool-cases (own == key)) [
        | inl same ↦
            let is : some (from x) ≡ some o = rw (get-put own key (from x) m, same) at e in
            let equal : from x ≡ o = cc in
            subst (IsSource from xs key) equal
              (record { listed = a; named = (==_iff own key).0 same })
        | inr other ↦ h key o (rw (get-put own key (from x) m, other) at e)
      ]

  nothing_there : (xs : List A) → Sourced xs []
  unfolding get
  nothing_there xs key o e = cc

  each_among :
      (xs ys : List A)
      → ((o : Owned) → Any (λ y. from y ≡ o) ys → Any (λ y. from y ≡ o) xs)
      → All (λ x. Any (λ y. from y ≡ from x) xs) ys
  each_among xs [] into = tt
  each_among xs (y ∷ ys) into =
      (into (from y) (here refl), each_among xs ys (λ o a. into o (there a)))

abbrev pub itself : Owned → Owned
itself o = o

-- The ReplicaSets and the Jobs of an index are listed ones.
pub record IsSourced (l : Listed) (i : ControllerOwnerIndex) : Type 0 where
  pub replica_sets : Sourced itself l.replica_sets i.replica_sets
  pub jobs : Sourced owned_job l.jobs i.jobs

module _ (rt : Runtime) (cluster : Text) (filter : NamespaceFilter) (opts : Options)
    (l : Listed) where
  abbrev Kept : Building → Type 0
  Kept b = IsSourced l b.owners

  filtered :
      (namespace : Text) (b c : Building)
      → Kept b
      → Kept c
      → Kept (if includes filter namespace then c else b)
  filtered namespace b c h k = elim (Bool-cases (includes filter namespace)) [
    | inl e ↦ rw e k
    | inr e ↦ rw e h
  ]

  -- An index that holds the same ReplicaSets and Jobs.
  IsSourced-same :
      (i j : ControllerOwnerIndex)
      → i.replica_sets ≡ j.replica_sets
      → i.jobs ≡ j.jobs
      → IsSourced l i
      → IsSourced l j
  IsSourced-same i j same_sets same_jobs h = record {
    replica_sets = rw same_sets at h.replica_sets;
    jobs = rw same_jobs at h.jobs;
  }

  templated-IsSourced :
      (index : ControllerOwnerIndex → Text → Text → ControllerOwnerIndex)
      → ((i : ControllerOwnerIndex) (namespace name : Text)
          → (i.replica_sets ≡ (index i namespace name).replica_sets)
            × (i.jobs ≡ (index i namespace name).jobs))
      → (from : Options → Templated → WorkloadInput) (b : Building) (w : Templated) → Kept b
      → Kept (add_templated rt cluster filter opts index from b w)
  unfolding add_templated
  templated-IsSourced index leaves from b w h =
      let (sets, jobs) = leaves b.owners w.meta.namespace w.meta.name in
      filtered w.meta.namespace b _ h (IsSourced-same b.owners _ sets jobs h)

  ingress-IsSourced :
      (b : Building) (i : Ingress) → Kept b → Kept (add_ingress rt cluster filter opts b i)
  unfolding add_ingress
  ingress-IsSourced b i h = filtered i.meta.namespace b _ h h

  set-IsSourced :
      (b : Building) (set : Owned)
      → Kept b
      → Any (λ y. itself y ≡ set) l.replica_sets
      → Kept (add_set rt cluster filter opts b set)
  unfolding add_set add_replica_set
  set-IsSourced b set h a = filtered set.namespace b _ h (record {
    replica_sets = Sourced-put itself l.replica_sets b.owners.replica_sets set h.replica_sets a;
    jobs = h.jobs;
  })

  owned_job-IsSourced :
      (b : Building) (j : OwnedJob)
      → Kept b
      → Any (λ y. owned_job y ≡ owned_job j) l.jobs
      → Kept (add_owned_job rt cluster filter opts b j)
  unfolding add_owned_job add_job
  owned_job-IsSourced b j h a = filtered j.job.meta.namespace b _ h (record {
    replica_sets = h.replica_sets;
    jobs = Sourced-put owned_job l.jobs b.owners.jobs j h.jobs a;
  })

  pub owners_built-IsSourced : IsSourced l (owners_built rt cluster filter opts l).owners
  unfolding owners_built new_controller_owner_index add_deployment add_stateful_set add_daemon_set
      add_cron_job
  owners_built-IsSourced =
      let start : Kept (record { workloads = []; owners = new_controller_owner_index }) = record {
        replica_sets = nothing_there _ _;
        jobs = nothing_there _ _;
      } in
      let i₁ =
        loop_inv Kept _
          (templated-IsSourced add_deployment (λ i s n. (refl, refl)) (workload_from_deployment rt))
          _ l.deployments start in
      let i₂ =
        loop_inv-All Kept _ _ set-IsSourced _ l.replica_sets i₁
          (each_among itself l.replica_sets l.replica_sets (λ o a. a)) in
      let i₃ =
        loop_inv Kept _
          (templated-IsSourced add_stateful_set (λ i s n. (refl, refl))
            (workload_from_stateful_set rt))
          _ l.stateful_sets i₂ in
      let i₄ =
        loop_inv Kept _
          (templated-IsSourced add_daemon_set (λ i s n. (refl, refl)) (workload_from_daemon_set rt))
          _ l.daemon_sets i₃ in
      let i₅ = loop_inv Kept _ ingress-IsSourced _ l.ingresses i₄ in
      let i₆ =
        loop_inv Kept _
          (templated-IsSourced add_cron_job (λ i s n. (refl, refl)) (workload_from_cron_job rt)) _
          l.cron_jobs i₅ in
      loop_inv-All Kept _ _ owned_job-IsSourced _ l.jobs i₆
        (each_among owned_job l.jobs l.jobs (λ o a. a))
