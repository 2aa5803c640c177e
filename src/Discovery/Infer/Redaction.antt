-- ===== src/Discovery/Infer/Redaction.antt =====
-- What redaction hides: with it, the keys of `secretKeyRef` selectors do not show in the edges.
use kbeacon.Prelude.{
  ℕ, ◌+◌, ◌≡◌, refl, ap, ◌∙◌, Bool, true, false, Option, none, some, List, [], ◌∷◌, ◌++◌, map,
  Bool-cases, inl, inr,
}
use kbeacon.Text.{Text, ◌==◌, ==_iff}
use kbeacon.Graph.Types.{WorkloadRef, DependencyEdge}
use kbeacon.Discovery.Objects.{EnvVar, EnvVarSource, SecretKeySelector, Container, PodSpec, Options}
use kbeacon.Discovery.Infer.{
  each, format_secret_key_ref_source_path, selector_edge, value_from_edge, env_edge, env_from_edge,
  container_edges, containers_edges, infer_pod_spec_edges,
}

-- The same objects with other keys in their selectors.
module _ (f : Text → Text) where
  abbrev pub rekey_selector : Option SecretKeySelector → Option SecretKeySelector
  rekey_selector none = none
  rekey_selector (some s) = some (record s { key = f s.key })

  abbrev pub rekey_source : Option EnvVarSource → Option EnvVarSource
  rekey_source none = none
  rekey_source (some s) = some (record s { secret_key_ref = rekey_selector s.secret_key_ref })

  abbrev pub rekey_env : EnvVar → EnvVar
  rekey_env e = record e { value_from = rekey_source e.value_from }

  abbrev pub rekey_container : Container → Container
  rekey_container c = record c { env = map rekey_env c.env }

  abbrev pub rekey : PodSpec → PodSpec
  rekey spec = record spec {
    containers = map rekey_container spec.containers;
    init_containers = map rekey_container spec.init_containers;
    ephemeral_containers = map rekey_container spec.ephemeral_containers;
  }

each-map {ℓ} :
    {A : Type ℓ} (g : ℕ → A → List DependencyEdge) (r : A → A)
    → ((i : ℕ) (x : A) → g i (r x) ≡ g i x)
    → (i : ℕ) (xs : List A) → each g i (map r xs) ≡ each g i xs
unfolding each
each-map g r same i [] = refl
each-map g r same i (x ∷ xs) = rw (same i x, each-map g r same (i + 1) xs) refl

module _ (f : Text → Text) (blank : (k : Text) → f k == [] ≡ k == []) where
  redacted_path :
      (env_name name key : Text)
      → format_secret_key_ref_source_path env_name name (f key) true
        ≡ format_secret_key_ref_source_path env_name name key true
  unfolding format_secret_key_ref_source_path
  redacted_path env_name name key = elim (Bool-cases (key == [])) [
    | inl e ↦
        let empty = (==_iff key []).0 e in
        let empty' = (==_iff (f key) []).0 (blank key ∙ e) in rw (blank key, e, empty', empty) refl
    | inr e ↦ rw (blank key, e) refl
  ]

  module _ (cluster : Text) (workload : WorkloadRef) where
    env_edge-rekey :
        (container : Text) (init ephemeral : Bool) (i : ℕ) (item : EnvVar)
        → env_edge cluster workload container init ephemeral true i (rekey_env f item)
          ≡ env_edge cluster workload container init ephemeral true i item
    unfolding env_edge value_from_edge selector_edge
    env_edge-rekey container init ephemeral i item = value item.value_from
      where
        selector :
            (o : Option SecretKeySelector)
            → selector_edge cluster workload container init ephemeral true item.name
                (rekey_selector f o)
              ≡ selector_edge cluster workload container init ephemeral true item.name o
        selector none = refl
        selector (some s) = rw (redacted_path item.name s.name s.key) refl

        value :
            (o : Option EnvVarSource)
            → value_from_edge cluster workload container init ephemeral true item.name
                (rekey_source f o)
              ≡ value_from_edge cluster workload container init ephemeral true item.name o
        value none = refl
        value (some v) = selector v.secret_key_ref

    containers_edges-rekey :
        (init ephemeral : Bool) (cs : List Container)
        → containers_edges cluster workload init ephemeral true (map (rekey_container f) cs)
          ≡ containers_edges cluster workload init ephemeral true cs
    unfolding containers_edges container_edges
    containers_edges-rekey init ephemeral cs =
        each-map _ (rekey_container f)
          (λ i c.
            ap
              (λ x.
                x ++ each (env_from_edge cluster workload c.name init ephemeral true) 0 c.env_from)
              (each-map _ (rekey_env f) (env_edge-rekey c.name init ephemeral) 0 c.env))
          0 cs

  -- With redaction on, changing the keys of the environment's Secret selectors leaves every inferred
  -- edge as it is, source paths included, as long as empty keys stay empty and others stay nonempty.
  pub infer_pod_spec_edges-redacted :
      (opts : Options) (workload : WorkloadRef) (spec : PodSpec)
      → opts.redact_secret_keys ≡ true
      → infer_pod_spec_edges opts workload (rekey f spec) ≡ infer_pod_spec_edges opts workload spec
  unfolding infer_pod_spec_edges
  infer_pod_spec_edges-redacted opts workload spec on =
      let same = containers_edges-rekey opts.cluster workload in
      rw
        (
          on,
          same false false spec.containers,
          same true false spec.init_containers,
          same false true spec.ephemeral_containers,
        )
        refl
