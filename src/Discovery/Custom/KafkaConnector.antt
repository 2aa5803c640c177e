-- ===== src/Discovery/Custom/KafkaConnector.antt =====
-- internal/discovery/kafkaconnector.go: Strimzi KafkaConnectors.
pub mod RoundTrip
use kbeacon.Prelude.{◌||◌, Option, none, some, List, [], ◌∷◌, ◌++◌, if◌then◌else◌}
use kbeacon.Text.{Text, str, ◌==◌, trim_space, cut, has_byte}
use kbeacon.Json.{Json, text, Fields, get_field}
use kbeacon.Graph.Types.{WorkloadRef, DependencySource, DependencyEdge, WorkloadInput}
use kbeacon.Discovery.Objects.{Options}
use kbeacon.Discovery.Infer.{no_source}
use kbeacon.Discovery.Extract.{Runtime}
use kbeacon.Discovery.Custom.{
  CustomObject, Nested, unless_blank, custom_ref, custom_edge, annotated_input, crd_sorted_keys,
  crd_map_field_path,
}
use kbeacon.Discovery.Custom.References.{find_all}

abbrev pub strimzi_prefix : Text
strimzi_prefix = str "${secrets:"

abbrev strimzi_source : Text → DependencySource
strimzi_source path = record no_source {
  type = str "strimzi.kafkaconnector.spec.config.secrets";
  path = path;
  resource_field = path;
}

abbrev pub no_target : Text × Text
no_target = ([], [])

abbrev pub target_parts : Text → Text → Option (Text × Text) → Text × Text
target_parts default token none = (default, token)
target_parts default token (some (namespace, name)) = (trim_space namespace, trim_space name)

abbrev pub checked_target : Text × Text → Text × Text
checked_target (namespace, name) =
    if namespace == [] || (name == [] || has_byte b'/' name) then no_target else (namespace, name)

-- The namespace and the name, or two empty texts.
unfoldable pub parse_strimzi_kafka_connector_secret_target : Text → Text → Text × Text
parse_strimzi_kafka_connector_secret_target default token =
    let trimmed = trim_space token in
    if trimmed == []
    then no_target
    else checked_target (target_parts default trimmed (cut b'/' trimmed))

module _ (cluster : Text) (workload : WorkloadRef) where
  unfoldable pub strimzi_target_edge : Text → Text × Text → List DependencyEdge
  strimzi_target_edge path (namespace, name) =
      if namespace == [] || name == []
      then []
      else custom_edge cluster workload namespace name (strimzi_source path) ∷ []

  -- The loop over the matches in a value.
  unfoldable pub strimzi_match_edges : Text → List (Text × Text) → List DependencyEdge
  strimzi_match_edges path [] = []
  strimzi_match_edges path ((target, key) ∷ matches) =
      strimzi_target_edge path
        (parse_strimzi_kafka_connector_secret_target workload.namespace target)
      ++ strimzi_match_edges path matches

  unfoldable pub strimzi_value_edges : Text → Option Json → List DependencyEdge
  strimzi_value_edges key (some (text value)) =
      if trim_space value == []
      then []
      else strimzi_match_edges (crd_map_field_path (str "spec.config") key)
          (find_all strimzi_prefix 0 value)
  strimzi_value_edges key _ = []

  unfoldable pub strimzi_key_edges : Fields → List Text → List DependencyEdge
  strimzi_key_edges config [] = []
  strimzi_key_edges config (key ∷ keys) =
      strimzi_value_edges key (get_field key config) ++ strimzi_key_edges config keys

  unfoldable pub infer_strimzi_kafka_connector_edges : Option Fields → List DependencyEdge
  infer_strimzi_kafka_connector_edges none = []
  infer_strimzi_kafka_connector_edges (some config) =
      strimzi_key_edges config (crd_sorted_keys config)

unfoldable pub strimzi_kafka_connector_ref : Options → CustomObject → WorkloadRef
strimzi_kafka_connector_ref opts c =
    custom_ref opts c (unless_blank (str "kafka.strimzi.io/v1beta2") c.api_version)
      (unless_blank (str "KafkaConnector") c.kind)

unfoldable pub workload_from_strimzi_kafka_connector :
    Runtime → Nested → Options → CustomObject → WorkloadInput
unfolding strimzi_kafka_connector_ref
workload_from_strimzi_kafka_connector rt nested opts c =
    let ref = strimzi_kafka_connector_ref opts c in
    let path = str "spec" ∷ str "config" ∷ [] in
    annotated_input rt opts ref c.meta.annotations
      (infer_strimzi_kafka_connector_edges opts.cluster ref (nested.nested_map c.object path))
