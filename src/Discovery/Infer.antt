-- ===== src/Discovery/Infer.antt =====
-- The edges that internal/discovery/extractor.go infers from specs and reads from annotations.
pub mod Redaction
pub mod Sound
use kbeacon.Prelude.{
  Outcome, ok, err, ℕ, suc, ◌+◌, Bool, true, false, ◌&&◌, not, Option, none, some, List, [], ◌∷◌,
  ◌++◌, if◌then◌else◌, some_or,
}
use kbeacon.Text.{Text, str, ◌==◌, trim_space, decimal}
use kbeacon.Dict.{Dict, get}
use kbeacon.Graph.Types.{
  DiscoveryMode, infer, explicit, SecretRef, WorkloadRef, DependencySource, DependencyEdge,
}
use kbeacon.Graph.Keys.{edge_id}
use kbeacon.Discovery.SecretRefs.{RefError, parse_secret_ref, parse_watch_secrets}
use kbeacon.Discovery.Objects.{
  SecretKeySelector, EnvVarSource, EnvVar, NamedSecret, EnvFromSource, Container, Projection,
  Volume, PodSpec, Options, Ingress,
}
use kbeacon.Discovery.Metadata.{annotation_watch_secrets, annotation_watch_secrets_json, text_of}

unfoldable pub new_edge :
    Text → WorkloadRef → Text → Text → Bool → DiscoveryMode → DependencySource → DependencyEdge
new_edge cluster workload secret_namespace secret_name optional mode source =
    let secret : SecretRef = record {
      cluster = cluster;
      namespace = secret_namespace;
      name = secret_name;
      key = [];
    } in
    record {
      id = edge_id workload secret;
      cluster = cluster;
      workload = workload;
      secret = secret;
      discovery_mode = mode;
      sources = source ∷ [];
      optional = optional;
      resolved = false;
      owner_team = [];
      criticality = [];
      purpose = [];
      first_observed_at = 0;
      last_observed_at = 0;
    }

abbrev pub no_source : DependencySource
no_source = record {
  type = [];
  path = [];
  container = [];
  init_container = [];
  ephemeral = false;
  volume = [];
  env_var = [];
  annotation = [];
  resource_field = [];
}

-- A loop that appends what each element gives, at its index.
unfoldable pub each {ℓ} :
    {A : Type ℓ} → (ℕ → A → List DependencyEdge) → ℕ → List A → List DependencyEdge
each f i [] = []
each f i (x ∷ xs) = f i x ++ each f (i + 1) xs

-- `p != nil && *p`
abbrev pub is_set : Option Bool → Bool
is_set none = false
is_set (some b) = b

unfoldable pub format_secret_key_ref_source_path : Text → Text → Text → Bool → Text
format_secret_key_ref_source_path env_name secret_name key redact =
    let shown = if redact && not (key == []) then str "<redacted>" else key in
    str "env["
    ++ (env_name
        ++ (str "].valueFrom.secretKeyRef[" ++ (secret_name ++ (str "#" ++ (shown ++ str "]")))))

-- Where a container's edge says it comes from. `init` is the role "init".
abbrev pub in_container : Text → Bool → Bool → DependencySource → DependencySource
in_container name init ephemeral source = record source {
  container = (if init then [] else name);
  init_container = (if init then name else []);
  ephemeral = ephemeral;
}

module _ (cluster : Text) (workload : WorkloadRef) where
  -- An edge to a Secret of the workload's own namespace, unless the name is empty.
  unfoldable pub infer_edge : Text → Bool → DependencySource → List DependencyEdge
  infer_edge name optional source =
      if name == []
      then []
      else new_edge cluster workload workload.namespace name optional infer source ∷ []

  module _ (container : Text) (init ephemeral redact : Bool) where
    unfoldable pub selector_edge : Text → Option SecretKeySelector → List DependencyEdge
    selector_edge env_name none = []
    selector_edge env_name (some selector) = infer_edge selector.name (is_set selector.optional) (
        in_container container init ephemeral (record no_source {
          type = str "env.secretKeyRef";
          path = format_secret_key_ref_source_path env_name selector.name selector.key redact;
          env_var = env_name;
        }))

    unfoldable pub value_from_edge : Text → Option EnvVarSource → List DependencyEdge
    unfolding selector_edge
    value_from_edge env_name none = []
    value_from_edge env_name (some source) = selector_edge env_name source.secret_key_ref

    unfoldable pub env_edge : ℕ → EnvVar → List DependencyEdge
    unfolding value_from_edge
    env_edge i item = value_from_edge item.name item.value_from

    unfoldable pub secret_ref_edge : Option NamedSecret → List DependencyEdge
    secret_ref_edge none = []
    secret_ref_edge (some ref) = infer_edge ref.name (is_set ref.optional) (
        in_container container init ephemeral (record no_source {
          type = str "envFrom.secretRef";
          path = str "envFrom.secretRef[" ++ (ref.name ++ str "]");
        }))

    unfoldable pub env_from_edge : ℕ → EnvFromSource → List DependencyEdge
    unfolding secret_ref_edge
    env_from_edge i item = secret_ref_edge item.secret_ref

    unfoldable pub container_edges : List EnvVar → List EnvFromSource → List DependencyEdge
    container_edges env env_from = each env_edge 0 env ++ each env_from_edge 0 env_from

  -- One container of a list, in its role.
  unfoldable pub containers_edges : Bool → Bool → Bool → List Container → List DependencyEdge
  containers_edges init ephemeral redact =
      each (λ i c. container_edges c.name init ephemeral redact c.env c.env_from) 0

  unfoldable pub volume_secret_edge : Text → Option NamedSecret → List DependencyEdge
  volume_secret_edge volume none = []
  volume_secret_edge volume (some secret) =
      infer_edge secret.name (is_set secret.optional) (record no_source {
        type = str "volumes.secret";
        path = str "spec.volumes[" ++ (volume ++ str "].secret.secretName");
        volume = volume;
      })

  unfoldable pub volume_edge : ℕ → Volume → List DependencyEdge
  unfolding volume_secret_edge
  volume_edge i volume = volume_secret_edge volume.name volume.secret

  unfoldable pub projection_secret_edge : Text → ℕ → Option NamedSecret → List DependencyEdge
  projection_secret_edge volume i none = []
  projection_secret_edge volume i (some secret) =
      infer_edge secret.name (is_set secret.optional) (record no_source {
        type = str "volumes.projected.sources.secret";
        path =
            str "spec.volumes["
            ++ (volume ++ (str "].projected.sources[" ++ (decimal i ++ str "].secret.name")));
        volume = volume;
      })

  unfoldable pub projected_edges : Text → Option (List Projection) → List DependencyEdge
  unfolding projection_secret_edge
  projected_edges volume none = []
  projected_edges volume (some sources) =
      each (λ i p. projection_secret_edge volume i p.secret) 0 sources

  unfoldable pub projected_volume_edges : ℕ → Volume → List DependencyEdge
  unfolding projected_edges
  projected_volume_edges i volume = projected_edges volume.name volume.projected

  unfoldable pub image_pull_secret_edge : ℕ → Text → List DependencyEdge
  image_pull_secret_edge i name = infer_edge name false (record no_source {
    type = str "imagePullSecrets";
    path = str "spec.imagePullSecrets[" ++ (decimal i ++ str "].name");
  })

  -- The list comes from `rebuild`, which keeps no empty name, so no name is tested here.
  unfoldable pub service_account_edge : Text → ℕ → Text → List DependencyEdge
  service_account_edge account i name =
      new_edge cluster workload workload.namespace name false infer (record no_source {
        type = str "serviceAccount.imagePullSecrets";
        path =
            str "serviceAccount["
            ++ (account ++ (str "].imagePullSecrets[" ++ (decimal i ++ str "].name")));
        resource_field = str "imagePullSecrets";
      })
      ∷ []

  unfoldable pub ingress_tls_edge : ℕ → Text → List DependencyEdge
  ingress_tls_edge i name = infer_edge name false (record no_source {
    type = str "ingress.tls";
    path = str "spec.tls[" ++ (decimal i ++ str "].secretName");
    resource_field = str "spec.tls.secretName";
  })

  unfoldable pub infer_ingress_edges : List Text → List DependencyEdge
  infer_ingress_edges = each ingress_tls_edge 0

  unfoldable pub explicit_edge : Text → SecretRef → DependencyEdge
  explicit_edge annotation ref =
      new_edge cluster workload ref.namespace ref.name false explicit (record no_source {
        type = str "annotation";
        path = str "metadata.annotations[" ++ (annotation ++ str "]");
        annotation = annotation;
      })

  unfoldable pub watch_secrets_edges : Outcome RefError (List SecretRef) → List DependencyEdge
  unfolding explicit_edge
  watch_secrets_edges (err e) = []
  watch_secrets_edges (ok refs) =
      each (λ i ref. explicit_edge annotation_watch_secrets ref ∷ []) 0 refs

  unfoldable pub token_edge : Outcome RefError SecretRef → List DependencyEdge
  unfolding explicit_edge
  token_edge (err e) = []
  token_edge (ok ref) = explicit_edge annotation_watch_secrets_json ref ∷ []

  unfoldable pub tokens_edges : Option (List Text) → List DependencyEdge
  unfolding token_edge
  tokens_edges none = []
  tokens_edges (some tokens) =
      each (λ i token. token_edge (parse_secret_ref cluster workload.namespace token)) 0 tokens

  -- `unmarshal` is `json.Unmarshal` into a `[]string`, with `none` for its errors.
  unfoldable pub explicit_annotation_edges :
      (Text → Option (List Text)) → Dict Text → List DependencyEdge
  explicit_annotation_edges unmarshal annotations =
      let listed = trim_space (text_of annotation_watch_secrets annotations) in
      let encoded = trim_space (text_of annotation_watch_secrets_json annotations) in
      (if listed == []
        then []
        else watch_secrets_edges (parse_watch_secrets cluster workload.namespace listed))
      ++ (if encoded == [] then [] else tokens_edges (unmarshal encoded))

unfoldable pub service_account_name_for_pod_spec : Text → Text
service_account_name_for_pod_spec name = if trim_space name == [] then str "default" else name

unfoldable pub service_account_key : Text → Text → Text
service_account_key namespace name =
    namespace ++ (str "/" ++ service_account_name_for_pod_spec name)

unfoldable pub service_account_image_pull_secret_names : Options → Text → Text → List Text
service_account_image_pull_secret_names opts namespace account =
    some_or [] (get (service_account_key namespace account) opts.service_account_image_pull_secrets)

abbrev pub if_no_pull_secrets : List Text → List DependencyEdge → List DependencyEdge
if_no_pull_secrets [] edges = edges
if_no_pull_secrets (x ∷ xs) edges = []

unfoldable pub infer_pod_spec_edges : Options → WorkloadRef → PodSpec → List DependencyEdge
infer_pod_spec_edges opts workload spec =
    let account = service_account_name_for_pod_spec spec.service_account_name in
    containers_edges opts.cluster workload false false opts.redact_secret_keys spec.containers
    ++ ((if opts.include_init_containers
          then containers_edges opts.cluster workload true false opts.redact_secret_keys
              spec.init_containers
          else [])
        ++ ((if opts.include_ephemeral_containers
              then containers_edges opts.cluster workload false true opts.redact_secret_keys
                  spec.ephemeral_containers
              else [])
            ++ (each (volume_edge opts.cluster workload) 0 spec.volumes
                ++ (each (projected_volume_edges opts.cluster workload) 0 spec.volumes
                    ++ (if opts.include_image_pull_secrets
                        then each (image_pull_secret_edge opts.cluster workload) 0
                            spec.image_pull_secrets
                          ++ if_no_pull_secrets spec.image_pull_secrets (
                              each (service_account_edge opts.cluster workload account) 0 (
                                service_account_image_pull_secret_names opts workload.namespace
                                  account))
                        else [])))))
