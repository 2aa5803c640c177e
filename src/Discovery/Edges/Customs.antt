-- ===== src/Discovery/Edges/Customs.antt =====
-- The edges of the workload inputs of custom resources.
use mathlib.Core.List.{Permᴰ}
use kbeacon.Prelude.{◌≢◌, some, List, []}
use kbeacon.Graph.Types.{DependencyEdge}
use kbeacon.Discovery.Objects.{Options}
use kbeacon.Discovery.Extract.{Runtime}
use kbeacon.Discovery.Custom.{CustomObject, Nested}
use kbeacon.Discovery.Custom.Certificate.{certificate_ref, workload_from_certificate}
use kbeacon.Discovery.Custom.ExternalSecret.{external_secret_ref, workload_from_external_secret}
use kbeacon.Discovery.Custom.SecretProviderClass.{
  secret_provider_class_ref, workload_from_secret_provider_class,
}
use kbeacon.Discovery.Custom.KafkaConnector.{
  strimzi_kafka_connector_ref, workload_from_strimzi_kafka_connector,
}
use kbeacon.Discovery.Custom.Connector.{confluent_connector_ref, workload_from_confluent_connector}
use kbeacon.Discovery.Custom.Sound.{
  certificate-IsEdgeOf, external_secret-IsEdgeOf, secret_provider_class-IsEdgeOf, strimzi-IsEdgeOf,
}
use kbeacon.Discovery.Custom.Connector.Sound.{confluent-IsEdgeOf}
use kbeacon.Discovery.Edges.Workloads.{
  HasOwnEdges, workload_input-HasOwnEdges, annotated_input-HasOwnEdges,
}

module _ (rt : Runtime) (rearranges : (xs : List DependencyEdge) → Permᴰ (rt.order xs) xs)
    (nested : Nested) (opts : Options) (c : CustomObject) (there : c.meta.namespace ≢ []) where
  pub certificate-HasOwnEdges :
      HasOwnEdges opts.cluster (workload_from_certificate rt nested opts (some c))
  unfolding workload_from_certificate
  certificate-HasOwnEdges =
      workload_input-HasOwnEdges rt rearranges opts (certificate_ref opts c) c.meta.annotations
        c.meta.labels _ (certificate-IsEdgeOf opts.cluster (certificate_ref opts c) there _)

  pub external_secret-HasOwnEdges :
      HasOwnEdges opts.cluster (workload_from_external_secret rt nested opts (some c))
  unfolding workload_from_external_secret
  external_secret-HasOwnEdges =
      workload_input-HasOwnEdges rt rearranges opts (external_secret_ref opts c) c.meta.annotations
        c.meta.labels _
        (external_secret-IsEdgeOf opts.cluster (external_secret_ref opts c) there c.meta.name _)

  pub secret_provider_class-HasOwnEdges :
      HasOwnEdges opts.cluster (workload_from_secret_provider_class rt nested opts (some c))
  unfolding workload_from_secret_provider_class
  secret_provider_class-HasOwnEdges =
      let ref = secret_provider_class_ref opts c in
      workload_input-HasOwnEdges rt rearranges opts ref c.meta.annotations c.meta.labels _
        (secret_provider_class-IsEdgeOf opts.cluster ref there nested _)

  pub strimzi-HasOwnEdges :
      HasOwnEdges opts.cluster (workload_from_strimzi_kafka_connector rt nested opts c)
  unfolding workload_from_strimzi_kafka_connector
  strimzi-HasOwnEdges =
      let ref = strimzi_kafka_connector_ref opts c in
      annotated_input-HasOwnEdges rt rearranges opts ref c.meta.annotations _
        (strimzi-IsEdgeOf opts.cluster ref _)

  pub confluent-HasOwnEdges :
      HasOwnEdges opts.cluster (workload_from_confluent_connector rt nested opts c)
  unfolding workload_from_confluent_connector
  confluent-HasOwnEdges =
      let ref = confluent_connector_ref opts c in
      annotated_input-HasOwnEdges rt rearranges opts ref c.meta.annotations _
        (confluent-IsEdgeOf opts.cluster ref there nested c.object)
