-- ===== src/Discovery/Custom/Connector/Sound.antt =====
-- Every edge inferred from a Connector leads to a named Secret with a namespace.
use kbeacon.Prelude.{
  ℕ, ◌+◌, ◌≢◌, Option, none, some, List, [], ◌∷◌, ◌++◌, All, All-append, Bool-cases, inl, inr,
}
use kbeacon.Text.{Text, str, ◌==◌, trim_space, equal_fold, decimal}
use kbeacon.Rearrange.{All-perm}
use kbeacon.Sort.{sort_by-perm}
use kbeacon.Json.{Json, null, bool, num, text, arr, obj, Items, nil, cons, Fields, end, field}
use kbeacon.Graph.Types.{WorkloadRef, DependencyEdge}
use kbeacon.Discovery.Edges.{IsEdgeOf}
use kbeacon.Discovery.Custom.{Nested}
use kbeacon.Discovery.Custom.Sound.{checked_edge-IsEdgeOf, named_edge-IsEdgeOf}
use kbeacon.Discovery.Custom.Connector.{
  append_path, concat_edges, in_key_order, rest_edge, secret_ref_field_edge,
  scan_confluent_connector_secret_refs, scan_fields, scan_items,
  infer_confluent_connector_connect_rest_authentication_edges, mounted_secret_edge,
  mounted_match_edges, mounted_value_edges, mounted_key_edges,
  infer_confluent_connector_mounted_secret_edges, infer_confluent_connector_edges,
}

module _ (cluster : Text) (workload : WorkloadRef) where
  abbrev P : DependencyEdge → Type 0
  P = IsEdgeOf cluster workload

  -- Edges below keys.
  abbrev Below : Text × List DependencyEdge → Type 0
  Below entry = All P entry.1

  concat_edges-IsEdgeOf :
      (found : List (Text × List DependencyEdge)) → All Below found → All P (concat_edges found)
  concat_edges-IsEdgeOf [] h = tt
  concat_edges-IsEdgeOf ((key, es) ∷ more) (p, h) =
      All-append P es _ p (concat_edges-IsEdgeOf more h)

  secret_ref_field_edge-IsEdgeOf :
      (path : List Text) (key : Text) (value : Json)
      → All P (secret_ref_field_edge cluster workload path key value)
  unfolding secret_ref_field_edge rest_edge
  secret_ref_field_edge-IsEdgeOf path key value =
      elim (Bool-cases (equal_fold key (str "secretRef"))) [
        | inl e ↦ rw e (checked_edge-IsEdgeOf cluster workload _ _ _)
        | inr e ↦ rw e tt
      ]

  mutual
    unfolding scan_confluent_connector_secret_refs in_key_order

    scan-IsEdgeOf :
        (value : Json) (path : List Text)
        → All P (scan_confluent_connector_secret_refs cluster workload value path)
    scan-IsEdgeOf null path = tt
    scan-IsEdgeOf (bool b) path = tt
    scan-IsEdgeOf (num n) path = tt
    scan-IsEdgeOf (text s) path = tt
    scan-IsEdgeOf (arr items) path = scan_items-IsEdgeOf items 0 path
    scan-IsEdgeOf (obj fields) path =
        concat_edges-IsEdgeOf _
          (All-perm Below (sort_by-perm _ _) (scan_fields-IsEdgeOf fields path))

    scan_fields-IsEdgeOf :
        (fields : Fields) (path : List Text) → All Below (scan_fields cluster workload fields path)
    scan_fields-IsEdgeOf end path = tt
    scan_fields-IsEdgeOf (field key value fields) path = (
      All-append P _ _ (secret_ref_field_edge-IsEdgeOf (append_path path key) key value)
          (scan-IsEdgeOf value (append_path path key)),
      scan_fields-IsEdgeOf fields path,
    )

    scan_items-IsEdgeOf :
        (items : Items) (i : ℕ) (path : List Text)
        → All P (scan_items cluster workload items i path)
    scan_items-IsEdgeOf nil i path = tt
    scan_items-IsEdgeOf (cons item items) i path =
        All-append P _ _ (scan-IsEdgeOf item (append_path path (str "[" ++ (decimal i ++ str "]"))))
          (scan_items-IsEdgeOf items (i + 1) path)

  rest-IsEdgeOf :
      (o : Option Fields)
      → All P (infer_confluent_connector_connect_rest_authentication_edges cluster workload o)
  unfolding infer_confluent_connector_connect_rest_authentication_edges
  rest-IsEdgeOf none = tt
  rest-IsEdgeOf (some fields) = scan-IsEdgeOf (obj fields) _

  -- What follows leads to Secrets of the workload's own namespace.
  module _ (there : workload.namespace ≢ []) where
    mounted_match_edges-IsEdgeOf :
        (path : Text) (ms : List (Text × Text))
        → All P (mounted_match_edges cluster workload path ms)
    unfolding mounted_match_edges mounted_secret_edge
    mounted_match_edges-IsEdgeOf path [] = tt
    mounted_match_edges-IsEdgeOf path ((target, key) ∷ ms) =
        All-append P _ _ (named_edge-IsEdgeOf cluster workload _ _ there)
          (mounted_match_edges-IsEdgeOf path ms)

    mounted_value_edges-IsEdgeOf :
        (key : Text) (o : Option Json) → All P (mounted_value_edges cluster workload key o)
    unfolding mounted_value_edges
    mounted_value_edges-IsEdgeOf key none = tt
    mounted_value_edges-IsEdgeOf key (some (text value)) =
        elim (Bool-cases (trim_space value == [])) [
          | inl e ↦ rw e tt
          | inr e ↦ rw e (mounted_match_edges-IsEdgeOf _ _)
        ]
    mounted_value_edges-IsEdgeOf key (some _) = tt

    mounted_key_edges-IsEdgeOf :
        (configs : Fields) (keys : List Text)
        → All P (mounted_key_edges cluster workload configs keys)
    unfolding mounted_key_edges
    mounted_key_edges-IsEdgeOf configs [] = tt
    mounted_key_edges-IsEdgeOf configs (key ∷ keys) =
        All-append P _ _ (mounted_value_edges-IsEdgeOf key _)
          (mounted_key_edges-IsEdgeOf configs keys)

    mounted-IsEdgeOf :
        (o : Option Fields)
        → All P (infer_confluent_connector_mounted_secret_edges cluster workload o)
    unfolding infer_confluent_connector_mounted_secret_edges
    mounted-IsEdgeOf none = tt
    mounted-IsEdgeOf (some configs) = mounted_key_edges-IsEdgeOf configs _

    pub confluent-IsEdgeOf :
        (nested : Nested) (object : Fields)
        → All P (infer_confluent_connector_edges nested cluster workload object)
    unfolding infer_confluent_connector_edges
    confluent-IsEdgeOf nested object = All-append P _ _ (rest-IsEdgeOf _) (mounted-IsEdgeOf _)
