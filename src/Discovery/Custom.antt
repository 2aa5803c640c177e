-- ===== src/Discovery/Custom.antt =====
-- What internal/discovery reads of custom resources: internal/discovery/crd_helpers.go, and the parts
-- that the files of the five kinds share.
mod Tests
pub mod Certificate
pub mod ExternalSecret
pub mod SecretProviderClass
pub mod References
pub mod KafkaConnector
pub mod Connector
pub mod Sound
use kbeacon.Prelude.{Bool, Option, List, [], ◌∷◌, ◌++◌, if◌then◌else◌, is_some, loop}
use kbeacon.Text.{Text, str, ◌==◌, trim_space, strip_prefix, quote}
use kbeacon.Dict.{Dict}
use kbeacon.Sort.{sort_by}
use kbeacon.Json.{Fields, end, field, Items}
use kbeacon.Graph.Types.{unset, infer, WorkloadRef, DependencySource, DependencyEdge, WorkloadInput}
use kbeacon.Discovery.Objects.{ObjectMeta, Options}
use kbeacon.Discovery.Metadata.{
  annotation_owner_team, annotation_service, annotation_environment, annotation_criticality,
  text_of, discovery_mode_for,
}
use kbeacon.Discovery.Infer.{new_edge, explicit_annotation_edges}
use kbeacon.Discovery.Merge.{ignored_secrets}
use kbeacon.Discovery.Extract.{Runtime, mode_edges}

-- What the accessors of an unstructured object return, and its field `Object`.
pub record CustomObject : Type 0 where
  pub meta : ObjectMeta
  pub api_version : Text
  pub kind : Text
  pub object : Fields

-- `unstructured.NestedString`, `NestedMap` and `NestedSlice`, with `none` for an error and for a field
-- that is not there.
pub record Nested : Type 0 where
  pub nested_string : Fields → List Text → Option Text
  pub nested_map : Fields → List Text → Option Fields
  pub nested_slice : Fields → List Text → Option Items

unfoldable pub field_keys : Fields → List Text
field_keys end = []
field_keys (field key value fs) = key ∷ field_keys fs

unfoldable pub crd_sorted_keys : Fields → List Text
unfolding field_keys
crd_sorted_keys values = sort_by (λ key. key) (field_keys values)

unfoldable pub crd_map_field_path : Text → Text → Text
crd_map_field_path parent key = parent ++ (str "[" ++ (quote key ++ str "]"))

unfoldable pub join_path_part : Text → Text → Text
join_path_part out part =
    if part == []
    then out
    else if is_some (strip_prefix (str "[") part)
    then out ++ part
    else (if out == [] then out else out ++ str ".") ++ part

unfoldable pub crd_join_path : List Text → Text
unfolding join_path_part
crd_join_path parts = loop join_path_part [] parts

-- The trimmed value, or a default for a blank one.
unfoldable pub trimmed_or : Text → Text → Text
trimmed_or default value =
    let trimmed = trim_space value in if trimmed == [] then default else trimmed

-- The value as it is, or a default for a blank one.
unfoldable pub unless_blank : Text → Text → Text
unless_blank default value = if trim_space value == [] then default else value

abbrev pub custom_ref : Options → CustomObject → Text → Text → WorkloadRef
custom_ref opts c api_version kind = record {
  cluster = opts.cluster;
  namespace = c.meta.namespace;
  api_version = api_version;
  kind = kind;
  name = c.meta.name;
  uid = c.meta.uid;
}

-- `graph.WorkloadInput{}`, for a nil object.
abbrev pub no_input : WorkloadInput
no_input = record {
  ref = record { cluster = []; namespace = []; api_version = []; kind = []; name = []; uid = [] };
  owner_team = [];
  service = [];
  environment = [];
  criticality = [];
  discovery_mode = unset;
  edges = [];
}

-- An inferred edge that is not optional.
unfoldable pub custom_edge : Text → WorkloadRef → Text → Text → DependencySource → DependencyEdge
custom_edge cluster workload namespace name source =
    new_edge cluster workload namespace name Bool.false infer source

-- The input of a connector: the annotations are taken as they are, and labels are not read.
unfoldable pub annotated_input :
    Runtime → Options → WorkloadRef → Dict Text → List DependencyEdge → WorkloadInput
annotated_input rt opts ref annotations inferred =
    let mode = discovery_mode_for annotations opts.default_mode in
    record {
      ref = ref;
      owner_team = text_of annotation_owner_team annotations;
      service = text_of annotation_service annotations;
      environment = text_of annotation_environment annotations;
      criticality = text_of annotation_criticality annotations;
      discovery_mode = mode;
      edges =
          mode_edges rt mode inferred
            (explicit_annotation_edges opts.cluster ref rt.unmarshal annotations)
            (ignored_secrets opts.cluster ref.namespace annotations);
    }
