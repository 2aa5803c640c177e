-- ===== src/Discovery/Extract.antt =====
-- internal/discovery/extractor.go: from objects to the inputs of `ApplySnapshot`.
pub mod Laws
use kbeacon.Prelude.{Bool, true, false, Option, none, some, List, [], ◌++◌, if◌then◌else◌}
use kbeacon.Text.{Text, str}
use kbeacon.Dict.{Dict}
use kbeacon.Graph.Types.{
  DiscoveryMode, unset, infer, explicit, hybrid, disabled, WorkloadRef, DependencyEdge, SecretInput,
  WorkloadInput,
}
use kbeacon.Discovery.Objects.{
  PodSpec, ObjectMeta, Templated, Pod, Ingress, Secret, MetadataLabelKeyConfig, Options,
}
use kbeacon.Discovery.Metadata.{
  annotation_owner_team, annotation_service, annotation_environment, annotation_criticality,
  text_of, effective, metadata_value, with_defaults, discovery_mode_for,
}
use kbeacon.Discovery.Infer.{infer_pod_spec_edges, infer_ingress_edges, explicit_annotation_edges}
use kbeacon.Discovery.Merge.{filter_and_merge_edges, ignored_secrets}

unfoldable pub secret_input_from_secret : Text → Secret → SecretInput
secret_input_from_secret cluster secret = record {
  ref = record {
    cluster = cluster;
    namespace = secret.meta.namespace;
    name = secret.meta.name;
    key = [];
  };
  type = secret.type;
  owner_team = text_of annotation_owner_team secret.meta.annotations;
  criticality = text_of annotation_criticality secret.meta.annotations;
  resource_version = secret.resource_version;
  creation_timestamp = secret.creation_timestamp;
}

abbrev pub infers : DiscoveryMode → Bool
infers infer = true
infers hybrid = true
infers _ = false

abbrev pub reads_annotations : DiscoveryMode → Bool
reads_annotations explicit = true
reads_annotations hybrid = true
reads_annotations _ = false

-- What the Go code takes from outside: the order of a map's range, and `json.Unmarshal` into a
-- `[]string`.
pub record Runtime : Type 0 where
  pub order : List DependencyEdge → List DependencyEdge
  pub unmarshal : Text → Option (List Text)

module _ (rt : Runtime) where
  -- The edges of a mode, from those that the spec gives and those that the annotations give.
  unfoldable pub mode_edges :
      DiscoveryMode → List DependencyEdge → List DependencyEdge → List Text → List DependencyEdge
  mode_edges disabled inferred annotated ignore = []
  mode_edges mode inferred annotated ignore =
      filter_and_merge_edges rt.order
        ((if infers mode then inferred else [])
          ++ (if reads_annotations mode then annotated else []))
        ignore

  unfoldable pub workload_input :
      Options → WorkloadRef → Dict Text → Dict Text → List DependencyEdge → WorkloadInput
  unfolding mode_edges
  workload_input opts ref annotations labels inferred =
      let keys = with_defaults opts.metadata_label_keys in
      let mode = discovery_mode_for annotations opts.default_mode in
      let enabled = opts.metadata_labels_enabled in
      record {
        ref = ref;
        owner_team =
            metadata_value (text_of annotation_owner_team annotations) labels keys.owner_team
              enabled;
        service =
            metadata_value (text_of annotation_service annotations) labels keys.service enabled;
        environment =
            metadata_value (text_of annotation_environment annotations) labels keys.environment
              enabled;
        criticality =
            metadata_value (text_of annotation_criticality annotations) labels keys.criticality
              enabled;
        discovery_mode = mode;
        edges =
            mode_edges mode inferred
              (explicit_annotation_edges opts.cluster ref rt.unmarshal annotations)
              (ignored_secrets opts.cluster ref.namespace annotations);
      }

  unfoldable pub workload_from_pod_spec :
      Options → Text → Text → ObjectMeta → Dict Text → Dict Text → PodSpec → WorkloadInput
  unfolding workload_input
  workload_from_pod_spec opts api_version kind meta template_annotations template_labels spec =
      let with_template = opts.read_pod_template_annotations in
      let ref : WorkloadRef = record {
        cluster = opts.cluster;
        namespace = meta.namespace;
        api_version = api_version;
        kind = kind;
        name = meta.name;
        uid = meta.uid;
      } in
      workload_input opts ref (effective meta.annotations template_annotations with_template)
        (effective meta.labels template_labels with_template) (infer_pod_spec_edges opts ref spec)

  abbrev from_template : Text → Text → Options → Templated → WorkloadInput
  from_template api_version kind opts w =
      workload_from_pod_spec opts api_version kind w.meta w.template_annotations w.template_labels
        w.spec

  unfoldable pub workload_from_deployment : Options → Templated → WorkloadInput
  workload_from_deployment = from_template (str "apps/v1") (str "Deployment")

  unfoldable pub workload_from_stateful_set : Options → Templated → WorkloadInput
  workload_from_stateful_set = from_template (str "apps/v1") (str "StatefulSet")

  unfoldable pub workload_from_daemon_set : Options → Templated → WorkloadInput
  workload_from_daemon_set = from_template (str "apps/v1") (str "DaemonSet")

  unfoldable pub workload_from_job : Options → Templated → WorkloadInput
  workload_from_job = from_template (str "batch/v1") (str "Job")

  unfoldable pub workload_from_cron_job : Options → Templated → WorkloadInput
  workload_from_cron_job = from_template (str "batch/v1") (str "CronJob")

  unfoldable pub workload_from_pod : Options → Pod → WorkloadInput
  workload_from_pod opts pod =
      workload_from_pod_spec opts (str "v1") (str "Pod") pod.meta [] [] pod.spec

  unfoldable pub workload_from_ingress : Options → Ingress → WorkloadInput
  unfolding workload_input
  workload_from_ingress opts ingress =
      let ref : WorkloadRef = record {
        cluster = opts.cluster;
        namespace = ingress.meta.namespace;
        api_version = str "networking.k8s.io/v1";
        kind = str "Ingress";
        name = ingress.meta.name;
        uid = ingress.meta.uid;
      } in
      workload_input opts ref ingress.meta.annotations ingress.meta.labels
        (infer_ingress_edges opts.cluster ref ingress.tls)
