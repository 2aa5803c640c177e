-- ===== src/Discovery/Custom/Connector.antt =====
-- internal/discovery/confluentconnector.go: Confluent for Kubernetes Connectors.
pub mod Sound
pub mod Scan
use kbeacon.Prelude.{ℕ, ◌+◌, ◌||◌, Option, none, some, List, [], ◌∷◌, ◌++◌, eqb, if◌then◌else◌}
use kbeacon.Text.{Text, str, ◌==◌, trim_space, equal_fold, cut, has_byte, strip_prefix, decimal}
use kbeacon.Sort.{sort_by}
use kbeacon.Json.{Json, text, arr, obj, Items, nil, cons, Fields, end, field, get_field}
use kbeacon.Graph.Types.{WorkloadRef, DependencySource, DependencyEdge, WorkloadInput}
use kbeacon.Discovery.Objects.{Options}
use kbeacon.Discovery.Infer.{no_source}
use kbeacon.Discovery.Extract.{Runtime}
use kbeacon.Discovery.Custom.{
  CustomObject, Nested, unless_blank, custom_ref, custom_edge, annotated_input, crd_sorted_keys,
  crd_map_field_path, crd_join_path,
}
use kbeacon.Discovery.Custom.References.{find_all}

abbrev pub file_prefix : Text
file_prefix = str "${file:"

abbrev rest_source : Text → DependencySource
rest_source path = record no_source {
  type = str "confluent.connector.spec.connectRest.authentication.secretRef";
  path = path;
  resource_field = path;
}

abbrev mounted_source : Text → DependencySource
mounted_source path = record no_source {
  type = str "confluent.connector.spec.configs.file.mountedSecret";
  path = path;
  resource_field = path;
}

abbrev pub trimmed_text : Option Json → Text
trimmed_text (some (text value)) = trim_space value
trimmed_text _ = []

unfoldable pub first_string_field : Fields → List Text → Text
first_string_field values [] = []
first_string_field values (name ∷ names) =
    let rest = first_string_field values names in
    let trimmed = trimmed_text (get_field name values) in if trimmed == [] then rest else trimmed

abbrev pub no_ref : Text × Text
no_ref = ([], [])

-- The namespace and the name, or two empty texts.
unfoldable pub parse_confluent_connector_secret_ref : Text → Json → Text × Text
parse_confluent_connector_secret_ref default (text value) =
    let name = trim_space value in if name == [] then no_ref else (default, name)
parse_confluent_connector_secret_ref default (obj fields) =
    let name = first_string_field fields (str "name" ∷ str "secretName" ∷ []) in
    let given = first_string_field fields (str "namespace" ∷ []) in
    let namespace = if given == [] then default else given in
    if name == [] || namespace == [] then no_ref else (namespace, name)
parse_confluent_connector_secret_ref default _ = no_ref

-- `strings.TrimLeft(s, "/")`
unfoldable pub trim_left_slashes : Text → Text
trim_left_slashes [] = []
trim_left_slashes (c ∷ s) = let rest = trim_left_slashes s in if eqb c b'/' then rest else c ∷ s

abbrev pub before_cut : Text → Option (Text × Text) → Text
before_cut whole none = whole
before_cut whole (some (front, rest)) = front

abbrev pub checked_mounted_name : Text → Text
checked_mounted_name name = if name == [] || has_byte b'/' name then [] else name

abbrev mounted_name : Option Text → Text
mounted_name none = []
mounted_name (some behind) =
    let remainder = trim_left_slashes behind in
    if remainder == []
    then []
    else checked_mounted_name (trim_space (before_cut remainder (cut b'/' remainder)))

unfoldable pub parse_confluent_connector_mounted_secret_name : Text → Text
parse_confluent_connector_mounted_secret_name path =
    mounted_name (strip_prefix (str "/mnt/secrets/") (trim_space path))

unfoldable pub append_path : List Text → Text → List Text
append_path path item = path ++ item ∷ []

abbrev pub concat_edges : List (Text × List DependencyEdge) → List DependencyEdge
concat_edges [] = []
concat_edges ((key, edges) ∷ more) = edges ++ concat_edges more

-- The edges below the keys of a map, in the order of the keys.
unfoldable pub in_key_order : List (Text × List DependencyEdge) → List DependencyEdge
in_key_order found = concat_edges (sort_by (λ entry. entry.0) found)

abbrev pub authentication_path : List Text
authentication_path = str "spec" ∷ str "connectRest" ∷ str "authentication" ∷ []

module _ (cluster : Text) (workload : WorkloadRef) where
  unfoldable pub rest_edge : List Text → Text × Text → List DependencyEdge
  rest_edge path (namespace, name) =
      if namespace == [] || name == []
      then []
      else custom_edge cluster workload namespace name (rest_source (crd_join_path path)) ∷ []

  unfoldable pub secret_ref_field_edge : List Text → Text → Json → List DependencyEdge
  secret_ref_field_edge path key value =
      if equal_fold key (str "secretRef")
      then rest_edge path (parse_confluent_connector_secret_ref workload.namespace value)
      else []

  unfoldable mutual
    pub scan_confluent_connector_secret_refs : Json → List Text → List DependencyEdge
    scan_confluent_connector_secret_refs (obj fields) path = in_key_order (scan_fields fields path)
    scan_confluent_connector_secret_refs (arr items) path = scan_items items 0 path
    scan_confluent_connector_secret_refs _ path = []

    pub scan_fields : Fields → List Text → List (Text × List DependencyEdge)
    scan_fields end path = []
    scan_fields (field key value fields) path =
        (
          key,
          secret_ref_field_edge (append_path path key) key value
              ++ scan_confluent_connector_secret_refs value (append_path path key),
        )
        ∷ scan_fields fields path

    pub scan_items : Items → ℕ → List Text → List DependencyEdge
    scan_items nil i path = []
    scan_items (cons item items) i path =
        scan_confluent_connector_secret_refs item
          (append_path path (str "[" ++ (decimal i ++ str "]")))
        ++ scan_items items (i + 1) path

  unfoldable pub infer_confluent_connector_connect_rest_authentication_edges :
      Option Fields → List DependencyEdge
  infer_confluent_connector_connect_rest_authentication_edges none = []
  infer_confluent_connector_connect_rest_authentication_edges (some authentication) =
      scan_confluent_connector_secret_refs (obj authentication) authentication_path

  unfoldable pub mounted_secret_edge : Text → Text → List DependencyEdge
  mounted_secret_edge path name =
      if name == []
      then []
      else custom_edge cluster workload workload.namespace name (mounted_source path) ∷ []

  -- The loop over the matches in a value.
  unfoldable pub mounted_match_edges : Text → List (Text × Text) → List DependencyEdge
  mounted_match_edges path [] = []
  mounted_match_edges path ((target, key) ∷ matches) =
      mounted_secret_edge path (parse_confluent_connector_mounted_secret_name target)
      ++ mounted_match_edges path matches

  unfoldable pub mounted_value_edges : Text → Option Json → List DependencyEdge
  mounted_value_edges key (some (text value)) =
      if trim_space value == []
      then []
      else mounted_match_edges (crd_map_field_path (str "spec.configs") key)
          (find_all file_prefix 0 value)
  mounted_value_edges key _ = []

  unfoldable pub mounted_key_edges : Fields → List Text → List DependencyEdge
  mounted_key_edges configs [] = []
  mounted_key_edges configs (key ∷ keys) =
      mounted_value_edges key (get_field key configs) ++ mounted_key_edges configs keys

  unfoldable pub infer_confluent_connector_mounted_secret_edges :
      Option Fields → List DependencyEdge
  infer_confluent_connector_mounted_secret_edges none = []
  infer_confluent_connector_mounted_secret_edges (some configs) =
      mounted_key_edges configs (crd_sorted_keys configs)

unfoldable pub infer_confluent_connector_edges :
    Nested → Text → WorkloadRef → Fields → List DependencyEdge
infer_confluent_connector_edges nested cluster workload object =
    infer_confluent_connector_connect_rest_authentication_edges cluster workload
      (nested.nested_map object authentication_path)
    ++ infer_confluent_connector_mounted_secret_edges cluster workload
        (nested.nested_map object (str "spec" ∷ str "configs" ∷ []))

unfoldable pub confluent_connector_ref : Options → CustomObject → WorkloadRef
confluent_connector_ref opts c =
    custom_ref opts c (unless_blank (str "platform.confluent.io/v1beta1") c.api_version)
      (unless_blank (str "Connector") c.kind)

unfoldable pub workload_from_confluent_connector :
    Runtime → Nested → Options → CustomObject → WorkloadInput
unfolding confluent_connector_ref
workload_from_confluent_connector rt nested opts c =
    let ref = confluent_connector_ref opts c in
    annotated_input rt opts ref c.meta.annotations
      (infer_confluent_connector_edges nested opts.cluster ref c.object)
