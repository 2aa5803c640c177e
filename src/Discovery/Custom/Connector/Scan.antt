-- ===== src/Discovery/Custom/Connector/Scan.antt =====
-- The scan of a Connector's authentication settings finds exactly the references in them.
use mathlib.Core.List.Permᴰ
use kbeacon.Prelude.{
  ℕ, ◌+◌, ◌≡◌, ◌≢◌, ◌↔◌, true, false, ◌||◌, List, [], ◌∷◌, ◌++◌, arith, Bool-cases, inl, inr, Any,
  here, there, Any-left, Any-right, Any-split, Any-one, not-Any-nil,
}
use kbeacon.Text.{Text, str, ◌==◌, ==_iff, equal_fold, decimal}
use kbeacon.Rearrange.{Any-perm}
use kbeacon.Sort.{sort_by-perm}
use kbeacon.Json.{Json, null, bool, num, text, arr, obj, Items, nil, cons, Fields, end, field}
use kbeacon.Graph.Types.{WorkloadRef, DependencyEdge}
use kbeacon.Discovery.Infer.{new_edge}
use kbeacon.Discovery.Custom.{custom_edge}
use kbeacon.Discovery.Custom.Connector.{
  parse_confluent_connector_secret_ref, append_path, concat_edges, in_key_order, rest_edge,
  secret_ref_field_edge, scan_confluent_connector_secret_refs, scan_fields, scan_items,
}

-- A value mentions a Secret: somewhere in it there is a field that is called `secretRef`, in any case,
-- and whose value names the Secret.
module _ (default namespace name : Text) where
  mutual
    pub data Mentions : Json → Type 0 where
      in_array : {items : Items} → ItemsMention items → Mentions (arr items)
      in_object : {fields : Fields} → FieldsMention fields → Mentions (obj fields)

    pub data ItemsMention : Items → Type 0 where
      this_item : {item : Json} {items : Items} → Mentions item → ItemsMention (cons item items)
      later_item :
          {item : Json} {items : Items} → ItemsMention items → ItemsMention (cons item items)

    pub data FieldsMention : Fields → Type 0 where
      named :
          {key : Text} {value : Json} {fields : Fields}
          → equal_fold key (str "secretRef") ≡ true
          → parse_confluent_connector_secret_ref default value ≡ (namespace, name)
          → FieldsMention (field key value fields)
      below :
          {key : Text} {value : Json} {fields : Fields}
          → Mentions value
          → FieldsMention (field key value fields)
      later_field :
          {key : Text} {value : Json} {fields : Fields}
          → FieldsMention fields
          → FieldsMention (field key value fields)

-- The edge leads to this Secret.
abbrev pub LeadsTo : Text → Text → DependencyEdge → Type 0
LeadsTo namespace name e = (e.secret.namespace ≡ namespace) × (e.secret.name ≡ name)

module _ (cluster : Text) (workload : WorkloadRef) (namespace name : Text) (hn : namespace ≢ [])
    (hm : name ≢ []) where
  abbrev P : DependencyEdge → Type 0
  P = LeadsTo namespace name

  abbrev Below : Text × List DependencyEdge → Type 0
  Below entry = Any P entry.1

  rest_edge_complete :
      (path : List Text) (target : Text × Text)
      → target ≡ (namespace, name)
      → Any P (rest_edge cluster workload path target)
  unfolding rest_edge custom_edge new_edge
  rest_edge_complete path (n, m) e =
      let en : n ≡ namespace = ground arith in
      let em : m ≡ name = ground arith in
      let both : (n == [] || m == []) ≡ false = ground (arith, ==_iff n [], ==_iff m []) in
      rw both (here (en, em))

  rest_edge_sound :
      (path : List Text) (target : Text × Text)
      → Any P (rest_edge cluster workload path target)
      → target ≡ (namespace, name)
  unfolding rest_edge custom_edge new_edge
  rest_edge_sound path (n, m) a = elim (Bool-cases (n == [] || m == [])) [
    | inl e ↦ absurd (not-Any-nil (rw e at a))
    | inr e ↦ let (en, em) = Any-one (rw e at a) in ground arith
  ]

  secret_ref_field_edge_complete :
      (path : List Text) (key : Text) (value : Json)
      → equal_fold key (str "secretRef") ≡ true
      → parse_confluent_connector_secret_ref workload.namespace value ≡ (namespace, name)
      → Any P (secret_ref_field_edge cluster workload path key value)
  unfolding secret_ref_field_edge
  secret_ref_field_edge_complete path key value e h = rw e (rest_edge_complete path _ h)

  secret_ref_field_edge_sound :
      (path : List Text) (key : Text) (value : Json)
      → Any P (secret_ref_field_edge cluster workload path key value)
      → (equal_fold key (str "secretRef") ≡ true)
        × (parse_confluent_connector_secret_ref workload.namespace value ≡ (namespace, name))
  unfolding secret_ref_field_edge
  secret_ref_field_edge_sound path key value a =
      elim (Bool-cases (equal_fold key (str "secretRef"))) [
        | inl e ↦ (e, rest_edge_sound path _ (rw e at a))
        | inr e ↦ absurd (not-Any-nil (rw e at a))
      ]

  concat_edges_complete :
      (found : List (Text × List DependencyEdge)) → Any Below found → Any P (concat_edges found)
  concat_edges_complete [] a = elim a [ ]
  concat_edges_complete ((key, es) ∷ more) (here p) = Any-left (concat_edges more) p
  concat_edges_complete ((key, es) ∷ more) (there a) = Any-right es (concat_edges_complete more a)

  concat_edges_sound :
      (found : List (Text × List DependencyEdge)) → Any P (concat_edges found) → Any Below found
  concat_edges_sound [] a = absurd (not-Any-nil a)
  concat_edges_sound ((key, es) ∷ more) a = elim (Any-split es a) [
    | inl b ↦ here b
    | inr b ↦ there (concat_edges_sound more b)
  ]

  -- Ordering the keys loses no edge and adds none.
  in_key_order_complete :
      (found : List (Text × List DependencyEdge)) → Any Below found → Any P (in_key_order found)
  unfolding in_key_order
  in_key_order_complete found a =
      concat_edges_complete _ (Any-perm Below (Permᴰ.symm (sort_by-perm _ found)) a)

  in_key_order_sound :
      (found : List (Text × List DependencyEdge)) → Any P (in_key_order found) → Any Below found
  unfolding in_key_order
  in_key_order_sound found a = Any-perm Below (sort_by-perm _ found) (concat_edges_sound _ a)

  mutual
    unfolding scan_confluent_connector_secret_refs

    scan_complete :
        (value : Json) (path : List Text)
        → Mentions workload.namespace namespace name value
        → Any P (scan_confluent_connector_secret_refs cluster workload value path)
    scan_complete null path m = elim m [ ]
    scan_complete (bool b) path m = elim m [ ]
    scan_complete (num n) path m = elim m [ ]
    scan_complete (text s) path m = elim m [ ]
    scan_complete (arr items) path (in_array m) = scan_items_complete items 0 path m
    scan_complete (obj fields) path (in_object m) =
        in_key_order_complete _ (scan_fields_complete fields path m)

    scan_fields_complete :
        (fields : Fields) (path : List Text)
        → FieldsMention workload.namespace namespace name fields
        → Any Below (scan_fields cluster workload fields path)
    scan_fields_complete end path m = elim m [ ]
    scan_fields_complete (field key value fields) path (named e h) = here (
        Any-left
          (scan_confluent_connector_secret_refs cluster workload value (append_path path key))
          (secret_ref_field_edge_complete (append_path path key) key value e h))
    scan_fields_complete (field key value fields) path (below m) = here (
        Any-right (secret_ref_field_edge cluster workload (append_path path key) key value)
          (scan_complete value (append_path path key) m))
    scan_fields_complete (field key value fields) path (later_field m) =
        there (scan_fields_complete fields path m)

    scan_items_complete :
        (items : Items) (i : ℕ) (path : List Text)
        → ItemsMention workload.namespace namespace name items
        → Any P (scan_items cluster workload items i path)
    scan_items_complete nil i path m = elim m [ ]
    scan_items_complete (cons item items) i path (this_item m) =
        Any-left (scan_items cluster workload items (i + 1) path) (scan_complete item _ m)
    scan_items_complete (cons item items) i path (later_item m) =
        Any-right
          (scan_confluent_connector_secret_refs cluster workload item
            (append_path path (str "[" ++ (decimal i ++ str "]"))))
          (scan_items_complete items (i + 1) path m)

  mutual
    unfolding scan_confluent_connector_secret_refs

    scan_sound :
        (value : Json) (path : List Text)
        → Any P (scan_confluent_connector_secret_refs cluster workload value path)
        → Mentions workload.namespace namespace name value
    scan_sound null path a = absurd (not-Any-nil a)
    scan_sound (bool b) path a = absurd (not-Any-nil a)
    scan_sound (num n) path a = absurd (not-Any-nil a)
    scan_sound (text s) path a = absurd (not-Any-nil a)
    scan_sound (arr items) path a = in_array (scan_items_sound items 0 path a)
    scan_sound (obj fields) path a =
        in_object (scan_fields_sound fields path (in_key_order_sound _ a))

    scan_fields_sound :
        (fields : Fields) (path : List Text)
        → Any Below (scan_fields cluster workload fields path)
        → FieldsMention workload.namespace namespace name fields
    scan_fields_sound end path a = absurd (not-Any-nil a)
    scan_fields_sound (field key value fields) path (here a) =
        let at_key = append_path path key in
        let deeper = scan_sound value at_key in
        elim (Any-split (secret_ref_field_edge cluster workload at_key key value) a) [
          | inl b ↦ let (e, h) = secret_ref_field_edge_sound at_key key value b in named e h
          | inr b ↦ below (deeper b)
        ]
    scan_fields_sound (field key value fields) path (there a) =
        later_field (scan_fields_sound fields path a)

    scan_items_sound :
        (items : Items) (i : ℕ) (path : List Text)
        → Any P (scan_items cluster workload items i path)
        → ItemsMention workload.namespace namespace name items
    scan_items_sound nil i path a = absurd (not-Any-nil a)
    scan_items_sound (cons item items) i path a =
        let at_item = append_path path (str "[" ++ (decimal i ++ str "]")) in
        let in_item = scan_sound item at_item in
        let in_rest = scan_items_sound items (i + 1) path in
        elim (Any-split (scan_confluent_connector_secret_refs cluster workload item at_item) a) [
          | inl b ↦ this_item (in_item b)
          | inr b ↦ later_item (in_rest b)
        ]

  -- A scan gives an edge to a Secret that has a namespace and a name exactly if the scanned value
  -- mentions this Secret in a field called `secretRef`, in any case, at any depth of objects and arrays.
  pub scan_confluent_connector_secret_refs_iff :
      (value : Json) (path : List Text)
      → Any
          (LeadsTo namespace name)
          (scan_confluent_connector_secret_refs cluster workload value path)
        ↔ Mentions workload.namespace namespace name value
  scan_confluent_connector_secret_refs_iff value path =
      (scan_sound value path, scan_complete value path)
