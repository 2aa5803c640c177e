-- ===== src/Discovery/Custom/Sound.antt =====
-- Every edge inferred from a custom resource leads to a named Secret with a namespace.
use kbeacon.Prelude.{
  ℕ, ◌≡◌, ◌≢◌, false, ◌||◌, Option, none, some, List, [], ◌∷◌, arith, if◌then◌else◌, All,
  All-append, Bool-cases, inl, inr,
}
use kbeacon.Text.{Text, ◌==◌, ==_iff, trim_space}
use kbeacon.Json.{Json, text, obj, Items, Fields, to_list}
use kbeacon.Graph.Types.{infer, WorkloadRef, DependencySource, DependencyEdge}
use kbeacon.Discovery.Infer.Sound.{All-each}
use kbeacon.Discovery.Edges.{IsEdgeOf, new_edge-IsEdgeOf}
use kbeacon.Discovery.Custom.{Nested, custom_edge}
use kbeacon.Discovery.Custom.Certificate.{certificate_secret_name, certificate_edges}
use kbeacon.Discovery.Custom.ExternalSecret.{
  metadata_name_target, external_secret_target_secret_name, external_secret_edges,
}
use kbeacon.Discovery.Custom.SecretProviderClass.{
  secret_object_edge, secret_object_target, secret_provider_class_edges,
}
use kbeacon.Discovery.Custom.KafkaConnector.{
  strimzi_target_edge, strimzi_match_edges, strimzi_value_edges, strimzi_key_edges,
  infer_strimzi_kafka_connector_edges,
}

module _ (cluster : Text) (workload : WorkloadRef) where
  abbrev P : DependencyEdge → Type 0
  P = IsEdgeOf cluster workload

  filled : (s : Text) → (s == []) ≡ false → s ≢ []
  filled s e = λ z. ground (arith, ==_iff s [])

  custom_edge-IsEdgeOf :
      (namespace name : Text) (source : DependencySource)
      → (namespace == [] || name == []) ≡ false
      → P (custom_edge cluster workload namespace name source)
  unfolding custom_edge
  custom_edge-IsEdgeOf namespace name source e =
      new_edge-IsEdgeOf cluster workload namespace name false infer source
        (filled namespace (ground arith)) (filled name (ground arith))

  -- An edge to a Secret of the workload's own namespace.
  own_edge-IsEdgeOf :
      (name : Text) (source : DependencySource)
      → workload.namespace ≢ []
      → (name == []) ≡ false
      → P (custom_edge cluster workload workload.namespace name source)
  unfolding custom_edge
  own_edge-IsEdgeOf name source there e =
      new_edge-IsEdgeOf cluster workload workload.namespace name false infer source there
        (filled name e)

  -- One edge unless its two texts are not both there.
  pub checked_edge-IsEdgeOf :
      (namespace name : Text) (source : DependencySource)
      → All P (
          if namespace == [] || name == []
          then []
          else custom_edge cluster workload namespace name source ∷ [])
  checked_edge-IsEdgeOf namespace name source = elim (Bool-cases (namespace == [] || name == [])) [
    | inl e ↦ rw e tt
    | inr e ↦ rw e (custom_edge-IsEdgeOf namespace name source e, tt)
  ]

  pub named_edge-IsEdgeOf :
      (name : Text) (source : DependencySource)
      → workload.namespace ≢ []
      → All P (
          if name == []
          then []
          else custom_edge cluster workload workload.namespace name source ∷ [])
  named_edge-IsEdgeOf name source there = elim (Bool-cases (name == [])) [
    | inl e ↦ rw e tt
    | inr e ↦ rw e (own_edge-IsEdgeOf name source there e, tt)
  ]

  strimzi_match_edges-IsEdgeOf :
      (path : Text) (ms : List (Text × Text)) → All P (strimzi_match_edges cluster workload path ms)
  unfolding strimzi_match_edges strimzi_target_edge
  strimzi_match_edges-IsEdgeOf path [] = tt
  strimzi_match_edges-IsEdgeOf path ((target, key) ∷ ms) =
      All-append P _ _ (checked_edge-IsEdgeOf _ _ _) (strimzi_match_edges-IsEdgeOf path ms)

  strimzi_value_edges-IsEdgeOf :
      (key : Text) (o : Option Json) → All P (strimzi_value_edges cluster workload key o)
  unfolding strimzi_value_edges
  strimzi_value_edges-IsEdgeOf key none = tt
  strimzi_value_edges-IsEdgeOf key (some (text value)) =
      elim (Bool-cases (trim_space value == [])) [
        | inl e ↦ rw e tt
        | inr e ↦ rw e (strimzi_match_edges-IsEdgeOf _ _)
      ]
  strimzi_value_edges-IsEdgeOf key (some _) = tt

  strimzi_key_edges-IsEdgeOf :
      (config : Fields) (keys : List Text) → All P (strimzi_key_edges cluster workload config keys)
  unfolding strimzi_key_edges
  strimzi_key_edges-IsEdgeOf config [] = tt
  strimzi_key_edges-IsEdgeOf config (key ∷ keys) =
      All-append P _ _ (strimzi_value_edges-IsEdgeOf key _) (strimzi_key_edges-IsEdgeOf config keys)

  pub strimzi-IsEdgeOf :
      (o : Option Fields) → All P (infer_strimzi_kafka_connector_edges cluster workload o)
  unfolding infer_strimzi_kafka_connector_edges
  strimzi-IsEdgeOf none = tt
  strimzi-IsEdgeOf (some config) = strimzi_key_edges-IsEdgeOf config _

  -- What follows leads to Secrets of the workload's own namespace.
  module _ (there : workload.namespace ≢ []) where
    pub certificate-IsEdgeOf :
        (o : Option Text) → All P (certificate_edges cluster workload (certificate_secret_name o))
    unfolding certificate_edges certificate_secret_name
    certificate-IsEdgeOf none = tt
    certificate-IsEdgeOf (some name) = elim (Bool-cases (trim_space name == [])) [
      | inl e ↦ rw e tt
      | inr e ↦ rw e (own_edge-IsEdgeOf _ _ there e, tt)
    ]

    metadata_name-IsEdgeOf :
        (name : Text) → All P (external_secret_edges cluster workload (metadata_name_target name))
    unfolding external_secret_edges metadata_name_target
    metadata_name-IsEdgeOf name = elim (Bool-cases (trim_space name == [])) [
      | inl e ↦ rw e tt
      | inr e ↦ rw e (own_edge-IsEdgeOf _ _ there e, tt)
    ]

    pub external_secret-IsEdgeOf :
        (name : Text) (o : Option Text)
        → All P (external_secret_edges cluster workload (external_secret_target_secret_name name o))
    unfolding external_secret_target_secret_name
    external_secret-IsEdgeOf name none = metadata_name-IsEdgeOf name
    external_secret-IsEdgeOf name (some target) = elim (Bool-cases (trim_space target == [])) [
      | inl e ↦ rw e (metadata_name-IsEdgeOf name)
      | inr e ↦
          rw e
            (unfold external_secret_edges in (own_edge-IsEdgeOf (trim_space target) _ there e, tt))
    ]

    secret_object-IsEdgeOf :
        (nested : Nested) (i : ℕ) (o : Option Text)
        → All P (secret_object_edge nested cluster workload i o)
    unfolding secret_object_edge
    secret_object-IsEdgeOf nested i none = tt
    secret_object-IsEdgeOf nested i (some name) = named_edge-IsEdgeOf _ _ there

    secret_object_target-IsEdgeOf :
        (nested : Nested) (i : ℕ) (item : Json)
        → All P (secret_object_target nested cluster workload i item)
    unfolding secret_object_target
    secret_object_target-IsEdgeOf nested i (obj fields) = secret_object-IsEdgeOf nested i _
    secret_object_target-IsEdgeOf nested i _ = tt

    pub secret_provider_class-IsEdgeOf :
        (nested : Nested) (o : Option Items)
        → All P (secret_provider_class_edges nested cluster workload o)
    unfolding secret_provider_class_edges
    secret_provider_class-IsEdgeOf nested none = tt
    secret_provider_class-IsEdgeOf nested (some items) =
        All-each P _ (secret_object_target-IsEdgeOf nested) 0 (to_list items)
