-- ===== src/Discovery/Edges/Workloads.antt =====
-- The edges of the workload inputs of the built-in kinds and of the connectors.
use mathlib.Core.List.{Permᴰ}
use kbeacon.Prelude.{◌≢◌, List, [], All, All-append}
use kbeacon.Text.{Text}
use kbeacon.Dict.{Dict}
use kbeacon.Graph.Types.{
  DiscoveryMode, unset, infer, explicit, hybrid, disabled, WorkloadRef, DependencyEdge,
  WorkloadInput,
}
use kbeacon.Discovery.Objects.{PodSpec, ObjectMeta, Ingress, Options}
use kbeacon.Discovery.Metadata.{effective}
use kbeacon.Discovery.Infer.{
  service_account_name_for_pod_spec, service_account_image_pull_secret_names,
}
use kbeacon.Discovery.Infer.Sound.{infer_pod_spec_edges-IsInferred}
use kbeacon.Discovery.Extract.{
  Runtime, mode_edges, workload_input, workload_from_pod_spec, workload_from_ingress,
}
use kbeacon.Discovery.Custom.{annotated_input}
use kbeacon.Discovery.Edges.{IsEdgeOf, All-inferred-IsEdgeOf}
use kbeacon.Discovery.Edges.Found.{
  infer_ingress_edges-IsEdgeOf, explicit_annotation_edges-IsEdgeOf, filter_and_merge_edges-IsEdgeOf,
}

-- Every edge of a workload input is an edge of its workload.
abbrev pub HasOwnEdges : Text → WorkloadInput → Type 0
HasOwnEdges cluster w = All (IsEdgeOf cluster w.ref) w.edges

module _ (rt : Runtime) (rearranges : (xs : List DependencyEdge) → Permᴰ (rt.order xs) xs)
    (opts : Options) where
  module _ (workload : WorkloadRef) where
    abbrev P : DependencyEdge → Type 0
    P = IsEdgeOf opts.cluster workload

    mode_edges-IsEdgeOf :
        (mode : DiscoveryMode) (inferred annotated : List DependencyEdge) (ignore : List Text)
        → All P inferred
        → All P annotated
        → All P (mode_edges rt mode inferred annotated ignore)
    unfolding mode_edges
    mode_edges-IsEdgeOf disabled is ans ignore h k = tt
    mode_edges-IsEdgeOf unset is ans ignore h k =
        filter_and_merge_edges-IsEdgeOf opts.cluster workload rt.order _ ignore rearranges tt
    mode_edges-IsEdgeOf infer is ans ignore h k =
        filter_and_merge_edges-IsEdgeOf opts.cluster workload rt.order _ ignore rearranges
          (All-append P is [] h tt)
    mode_edges-IsEdgeOf explicit is ans ignore h k =
        filter_and_merge_edges-IsEdgeOf opts.cluster workload rt.order _ ignore rearranges k
    mode_edges-IsEdgeOf hybrid is ans ignore h k =
        filter_and_merge_edges-IsEdgeOf opts.cluster workload rt.order _ ignore rearranges
          (All-append P is ans h k)

    pub workload_input-HasOwnEdges :
        (annotations labels : Dict Text) (inferred : List DependencyEdge)
        → All P inferred
        → HasOwnEdges opts.cluster (workload_input rt opts workload annotations labels inferred)
    unfolding workload_input
    workload_input-HasOwnEdges annotations labels inferred h =
        mode_edges-IsEdgeOf _ inferred _ _ h
          (explicit_annotation_edges-IsEdgeOf opts.cluster workload rt.unmarshal annotations)

    pub annotated_input-HasOwnEdges :
        (annotations : Dict Text) (inferred : List DependencyEdge)
        → All P inferred
        → HasOwnEdges opts.cluster (annotated_input rt opts workload annotations inferred)
    unfolding annotated_input
    annotated_input-HasOwnEdges annotations inferred h =
        mode_edges-IsEdgeOf _ inferred _ _ h
          (explicit_annotation_edges-IsEdgeOf opts.cluster workload rt.unmarshal annotations)

  -- No pull secret that is listed for a service account has an empty name.
  abbrev pub AccountsNamed : Type 0
  AccountsNamed =
      (namespace account : Text)
      → All (λ name. name ≢ []) (service_account_image_pull_secret_names opts namespace account)

  pub workload_from_pod_spec-HasOwnEdges :
      (api_version kind : Text) (meta : ObjectMeta)
      (template_annotations template_labels : Dict Text) (spec : PodSpec)
      → meta.namespace ≢ []
      → AccountsNamed
      → HasOwnEdges opts.cluster (
          workload_from_pod_spec rt opts api_version kind meta template_annotations template_labels
            spec)
  unfolding workload_from_pod_spec
  workload_from_pod_spec-HasOwnEdges api_version kind meta ta tl spec there named =
      workload_input-HasOwnEdges _ _ (effective meta.labels tl opts.read_pod_template_annotations) _
        (All-inferred-IsEdgeOf opts.cluster _ _ there (
          infer_pod_spec_edges-IsInferred opts _ spec
            (named meta.namespace (service_account_name_for_pod_spec spec.service_account_name))))

  pub workload_from_ingress-HasOwnEdges :
      (ingress : Ingress)
      → ingress.meta.namespace ≢ []
      → HasOwnEdges opts.cluster (workload_from_ingress rt opts ingress)
  unfolding workload_from_ingress
  workload_from_ingress-HasOwnEdges ingress there =
      workload_input-HasOwnEdges _ _ ingress.meta.labels _
        (infer_ingress_edges-IsEdgeOf opts.cluster _ ingress.tls there)
