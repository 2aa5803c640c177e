-- ===== src/Discovery/Infer/Sound.antt =====
-- What every edge that is inferred from a pod spec has in common.
use kbeacon.Prelude.{
  ℕ, ◌+◌, ◌≡◌, ◌≢◌, refl, Bool, true, false, Option, none, some, List, [], ◌∷◌, arith,
  if◌then◌else◌, All, All-append, Bool-cases, inl, inr, length,
}
use kbeacon.Text.{Text, ◌==◌, ==_iff}
use kbeacon.Graph.Types.{infer, WorkloadRef, DependencySource, DependencyEdge}
use kbeacon.Graph.Keys.{edge_id}
use kbeacon.Discovery.Objects.{
  EnvVar, EnvVarSource, SecretKeySelector, NamedSecret, EnvFromSource, Container, Projection,
  Volume, PodSpec, Options,
}
use kbeacon.Discovery.Infer.{
  new_edge, each, infer_edge, selector_edge, value_from_edge, env_edge, secret_ref_edge,
  env_from_edge, container_edges, containers_edges, volume_secret_edge, volume_edge,
  projection_secret_edge, projected_edges, projected_volume_edges, image_pull_secret_edge,
  service_account_edge, service_account_name_for_pod_spec, service_account_image_pull_secret_names,
  if_no_pull_secrets, infer_pod_spec_edges, is_set,
}

-- An edge that inference may give to a workload: it joins the workload to a named Secret of the
-- workload's own namespace under the id of the two, in the mode infer, with one source and no key.
pub record IsInferred (cluster : Text) (workload : WorkloadRef) (e : DependencyEdge) : Type 0 where
  pub of_workload : e.workload ≡ workload
  pub of_cluster : (e.cluster ≡ cluster) × (e.secret.cluster ≡ cluster)
  pub same_namespace : e.secret.namespace ≡ workload.namespace
  pub named : e.secret.name ≢ []
  pub keyless : e.secret.key ≡ []
  pub keyed : e.id ≡ edge_id workload e.secret
  pub inferred : e.discovery_mode ≡ infer
  pub one_source : length e.sources ≡ 1

module _ {ℓ κ} {A : Type ℓ} (P : DependencyEdge → Type 0) (Q : A → Type κ)
    (f : ℕ → A → List DependencyEdge) where
  pub All-each_where :
      ((i : ℕ) (x : A) → Q x → All P (f i x))
      → (i : ℕ) (xs : List A) → All Q xs
      → All P (each f i xs)
  unfolding each
  All-each_where h i [] qs = tt
  All-each_where h i (x ∷ xs) (q, qs) =
      All-append P (f i x) (each f (i + 1) xs) (h i x q) (All-each_where h (i + 1) xs qs)

module _ {ℓ} {A : Type ℓ} (P : DependencyEdge → Type 0) (f : ℕ → A → List DependencyEdge) where
  pub All-each : ((i : ℕ) (x : A) → All P (f i x)) → (i : ℕ) (xs : List A) → All P (each f i xs)
  unfolding each
  All-each h i [] = tt
  All-each h i (x ∷ xs) = All-append P (f i x) (each f (i + 1) xs) (h i x) (All-each h (i + 1) xs)

pub All-if :
    (P : DependencyEdge → Type 0) (b : Bool) (xs : List DependencyEdge)
    → All P xs
    → All P (if b then xs else [])
All-if P true xs h = h
All-if P false xs h = tt

module _ (cluster : Text) (workload : WorkloadRef) where
  new_edge-IsInferred :
      (name : Text) (optional : Bool) (source : DependencySource)
      → name ≢ []
      → IsInferred cluster workload
          (new_edge cluster workload workload.namespace name optional infer source)
  unfolding new_edge
  new_edge-IsInferred name optional source filled = record {
    of_workload = refl;
    of_cluster = (refl, refl);
    same_namespace = refl;
    named = filled;
    keyless = refl;
    keyed = refl;
    inferred = refl;
    one_source = refl;
  }

  infer_edge-IsInferred :
      (name : Text) (optional : Bool) (source : DependencySource)
      → All (IsInferred cluster workload) (infer_edge cluster workload name optional source)
  unfolding infer_edge
  infer_edge-IsInferred name optional source = elim (Bool-cases (name == [])) [
    | inl e ↦ rw e tt
    | inr e ↦
        rw e (new_edge-IsInferred name optional source (λ z. ground (arith, ==_iff name [])), tt)
  ]

  module _ (container : Text) (init ephemeral redact : Bool) where
    env_edge-IsInferred :
        (i : ℕ) (item : EnvVar)
        → All
            (IsInferred cluster workload)
            (env_edge cluster workload container init ephemeral redact i item)
    unfolding env_edge value_from_edge selector_edge
    env_edge-IsInferred i item = value item.value_from
      where
        selector :
            (o : Option SecretKeySelector)
            → All
                (IsInferred cluster workload)
                (selector_edge cluster workload container init ephemeral redact item.name o)
        selector none = tt
        selector (some s) = infer_edge-IsInferred s.name (is_set s.optional) _

        value :
            (o : Option EnvVarSource)
            → All
                (IsInferred cluster workload)
                (value_from_edge cluster workload container init ephemeral redact item.name o)
        value none = tt
        value (some v) = selector v.secret_key_ref

    env_from_edge-IsInferred :
        (i : ℕ) (item : EnvFromSource)
        → All
            (IsInferred cluster workload)
            (env_from_edge cluster workload container init ephemeral redact i item)
    unfolding env_from_edge secret_ref_edge
    env_from_edge-IsInferred i item = go item.secret_ref
      where
        go :
            (o : Option NamedSecret)
            → All
                (IsInferred cluster workload)
                (secret_ref_edge cluster workload container init ephemeral redact o)
        go none = tt
        go (some s) = infer_edge-IsInferred s.name (is_set s.optional) _

    container_edges-IsInferred :
        (env : List EnvVar) (env_from : List EnvFromSource)
        → All
            (IsInferred cluster workload)
            (container_edges cluster workload container init ephemeral redact env env_from)
    unfolding container_edges
    container_edges-IsInferred env env_from =
        All-append (IsInferred cluster workload) _ _
          (All-each (IsInferred cluster workload) _ env_edge-IsInferred 0 env)
          (All-each (IsInferred cluster workload) _ env_from_edge-IsInferred 0 env_from)

  containers_edges-IsInferred :
      (init ephemeral redact : Bool) (cs : List Container)
      → All
          (IsInferred cluster workload)
          (containers_edges cluster workload init ephemeral redact cs)
  unfolding containers_edges
  containers_edges-IsInferred init ephemeral redact cs =
      All-each (IsInferred cluster workload) _
        (λ i c. container_edges-IsInferred c.name init ephemeral redact c.env c.env_from) 0 cs

  volume_edge-IsInferred :
      (i : ℕ) (v : Volume) → All (IsInferred cluster workload) (volume_edge cluster workload i v)
  unfolding volume_edge volume_secret_edge
  volume_edge-IsInferred i v = go v.secret
    where
      go :
          (o : Option NamedSecret)
          → All (IsInferred cluster workload) (volume_secret_edge cluster workload v.name o)
      go none = tt
      go (some s) = infer_edge-IsInferred s.name (is_set s.optional) _

  projection-IsInferred :
      (volume : Text) (i : ℕ) (o : Option NamedSecret)
      → All (IsInferred cluster workload) (projection_secret_edge cluster workload volume i o)
  unfolding projection_secret_edge
  projection-IsInferred volume i none = tt
  projection-IsInferred volume i (some s) = infer_edge-IsInferred s.name (is_set s.optional) _

  projected-IsInferred :
      (i : ℕ) (v : Volume)
      → All (IsInferred cluster workload) (projected_volume_edges cluster workload i v)
  unfolding projected_volume_edges projected_edges
  projected-IsInferred i v = go v.projected
    where
      go :
          (o : Option (List Projection))
          → All (IsInferred cluster workload) (projected_edges cluster workload v.name o)
      go none = tt
      go (some ps) =
          All-each (IsInferred cluster workload) _ (λ j p. projection-IsInferred v.name j p.secret)
            0 ps

  image_pull-IsInferred :
      (i : ℕ) (name : Text)
      → All (IsInferred cluster workload) (image_pull_secret_edge cluster workload i name)
  unfolding image_pull_secret_edge
  image_pull-IsInferred i name = infer_edge-IsInferred name false _

  service_account-IsInferred :
      (account : Text) (i : ℕ) (name : Text)
      → name ≢ []
      → All (IsInferred cluster workload) (service_account_edge cluster workload account i name)
  unfolding service_account_edge
  service_account-IsInferred account i name filled = (new_edge-IsInferred name false _ filled, tt)

  if_no_pull_secrets-IsInferred :
      (names : List Text) (edges : List DependencyEdge)
      → All (IsInferred cluster workload) edges
      → All (IsInferred cluster workload) (if_no_pull_secrets names edges)
  if_no_pull_secrets-IsInferred [] edges h = h
  if_no_pull_secrets-IsInferred (x ∷ xs) edges h = tt

-- Every edge inferred from a pod spec joins the workload to a named Secret of the workload's own
-- namespace, under the id of the two, in the mode infer, with one source and without a key, provided
-- that the names listed for the workload's service account are not empty.
pub infer_pod_spec_edges-IsInferred :
    (opts : Options) (workload : WorkloadRef) (spec : PodSpec)
    → All
        (λ name. name ≢ [])
        (service_account_image_pull_secret_names opts workload.namespace
          (service_account_name_for_pod_spec spec.service_account_name))
    → All (IsInferred opts.cluster workload) (infer_pod_spec_edges opts workload spec)
unfolding infer_pod_spec_edges
infer_pod_spec_edges-IsInferred opts workload spec filled =
    let P = IsInferred opts.cluster workload in
    let account = service_account_name_for_pod_spec spec.service_account_name in
    let containers = containers_edges-IsInferred opts.cluster workload in
    All-append P _ _ (containers false false opts.redact_secret_keys spec.containers) (
      All-append P _ _
        (All-if P opts.include_init_containers _
          (containers true false opts.redact_secret_keys spec.init_containers))
        (All-append P _ _
          (All-if P opts.include_ephemeral_containers _
            (containers false true opts.redact_secret_keys spec.ephemeral_containers))
          (All-append P _ _
            (All-each P _ (volume_edge-IsInferred opts.cluster workload) 0 spec.volumes)
            (All-append P _ _
              (All-each P _ (projected-IsInferred opts.cluster workload) 0 spec.volumes)
              (All-if P opts.include_image_pull_secrets _ (
                All-append P _ _
                  (All-each P _ (image_pull-IsInferred opts.cluster workload) 0
                    spec.image_pull_secrets)
                  (if_no_pull_secrets-IsInferred opts.cluster workload spec.image_pull_secrets _ (
                    All-each_where P (λ name. name ≢ []) _
                      (service_account-IsInferred opts.cluster workload account) 0
                      (service_account_image_pull_secret_names opts workload.namespace account)
                      filled))))))))
