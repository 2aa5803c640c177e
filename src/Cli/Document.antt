-- ===== src/Cli/Document.antt =====
-- What cmd/kbeaconctl/snapshot_diff.go reads of a snapshot document: the values of a resource and
-- their ids. `sprint` is `fmt.Sprint` of a value that is no string.
use kbeacon.Prelude.{◌||◌, Option, none, some, List, [], ◌∷◌, ◌++◌, if◌then◌else◌, some_or}
use kbeacon.Text.{Text, str, ◌==◌, trim_space, to_lower, join}
use kbeacon.Json.{Json, null, bool, num, text, arr, obj, Fields, end, field, get_field, to_list}

abbrev pub member : Text → Json → Json
member key (obj fs) = some_or null (get_field key fs)
member key _ = null

unfoldable pub get_snapshot_path : Json → List Text → Json
get_snapshot_path value [] = value
get_snapshot_path value (part ∷ parts) = get_snapshot_path (member part value) parts

abbrev pub first_of : List (Option (List Json)) → List Json → Option (List Json)
first_of [] last = some last
first_of (none ∷ os) last = first_of os last
first_of (some vs ∷ os) last = some vs

unfoldable mutual
  pub snapshot_values_from_any : Json → Option (List Json)
  snapshot_values_from_any null = none
  snapshot_values_from_any (arr vs) = some (to_list vs)
  snapshot_values_from_any (obj fs) =
      first_of
        (values_at (str "data") fs ∷ values_at (str "items") fs ∷ values_at (str "edges") fs ∷ [])
        (obj fs ∷ [])
  snapshot_values_from_any (bool b) = some (bool b ∷ [])
  snapshot_values_from_any (num n) = some (num n ∷ [])
  snapshot_values_from_any (text t) = some (text t ∷ [])

  -- The values under a key of a map.
  pub values_at : Text → Fields → Option (List Json)
  values_at key end = none
  values_at key (field k v fs) =
      let rest = values_at key fs in
      let here = snapshot_values_from_any v in if k == key then here else rest

-- The first of the paths at which there are values.
unfoldable pub first_snapshot_array : Json → List (List Text) → List Json
unfolding get_snapshot_path
first_snapshot_array doc [] = []
first_snapshot_array doc (path ∷ paths) =
    some_or (first_snapshot_array doc paths) (snapshot_values_from_any (get_snapshot_path doc path))

abbrev pub in_resources : List Text → List Text
in_resources path = str "resources" ∷ path

-- The paths of a resource that has no list of its own.
abbrev pub default_paths : Text → List (List Text)
default_paths resource =
    in_resources (resource ∷ [])
    ∷ in_resources (resource ∷ str "data" ∷ [])
    ∷ (str "data" ∷ resource ∷ [])
    ∷ (resource ∷ [])
    ∷ []

abbrev pub edges_paths : List (List Text)
edges_paths =
    in_resources (str "dependency-map" ∷ str "data" ∷ str "edges" ∷ [])
    ∷ in_resources (str "dependency-map" ∷ str "edges" ∷ [])
    ∷ in_resources (str "dependencyMap" ∷ str "data" ∷ str "edges" ∷ [])
    ∷ default_paths (str "edges")

unfoldable pub extract_snapshot_resource_values : Json → Text → List Json
unfolding first_snapshot_array
extract_snapshot_resource_values doc resource =
    first_snapshot_array doc
      (if resource == str "edges" then edges_paths else default_paths resource)

abbrev pub add_nonblank : Text → List Text → List Text
add_nonblank part parts = if part == [] then parts else part ∷ parts

abbrev pub trimmed_parts : List Text → List Text
trimmed_parts [] = []
trimmed_parts (part ∷ parts) = add_nonblank (trim_space part) (trimmed_parts parts)

unfoldable pub join_non_empty : Text → List Text → Text
join_non_empty separator parts = join separator (trimmed_parts parts)

unfoldable pub snapshot_map_at : Text → Fields → Option Fields
snapshot_map_at key fs = elim (some_or null (get_field key fs)) [ obj gs ↦ some gs | _ ↦ none ]

module _ (sprint : Json → Text) where
  abbrev pub printed_text : Json → Text
  printed_text null = []
  printed_text (text t) = t
  printed_text (bool b) = trim_space (sprint (bool b))
  printed_text (num n) = trim_space (sprint (num n))
  printed_text (arr vs) = trim_space (sprint (arr vs))
  printed_text (obj fs) = trim_space (sprint (obj fs))

  unfoldable pub snapshot_string_at : Text → Fields → Text
  snapshot_string_at key fs = printed_text (some_or null (get_field key fs))

  abbrev pub secret_ref_id : Fields → Text
  secret_ref_id fs =
      join_non_empty (str "/")
        (snapshot_string_at (str "namespace") fs ∷ snapshot_string_at (str "name") fs ∷ [])

  abbrev pub workload_ref_id : Fields → Text
  workload_ref_id fs = join_non_empty (str "/") (
      snapshot_string_at (str "namespace") fs
      ∷ to_lower (snapshot_string_at (str "kind") fs)
      ∷ snapshot_string_at (str "name") fs
      ∷ [])

  abbrev pub edge_item_id : Option Fields → Option Fields → Text
  edge_item_id (some workload) (some secret) =
      let left = workload_ref_id workload in
      let right = secret_ref_id secret in
      if left == [] || right == [] then [] else left ++ (str "->" ++ right)
  edge_item_id _ _ = []

  abbrev pub or_text : Text → Text → Text
  or_text [] other = other
  or_text (c ∷ t) other = c ∷ t

  abbrev pub own_id : Fields → Option Text → Text
  own_id fs of_ref =
      or_text (snapshot_string_at (str "id") fs)
        (some_or (snapshot_string_at (str "name") fs) of_ref)

  -- The id of the map under the key `ref`, if there is one, for a resource other than Secrets,
  -- workloads and edges.
  unfoldable mutual
    pub default_ref : Fields → Option Text
    default_ref end = none
    default_ref (field k v fs) =
        let rest = default_ref fs in
        let here = default_ref_value v in if k == str "ref" then here else rest

    pub default_ref_value : Json → Option Text
    default_ref_value (obj fs) = some (own_id fs (default_ref fs))
    default_ref_value _ = none

  unfoldable pub default_id : Fields → Text
  unfolding default_ref
  default_id fs = own_id fs (default_ref fs)

  abbrev pub object_id : Text → Fields → Text
  object_id resource fs =
      if resource == str "secrets"
      then secret_ref_id (some_or fs (snapshot_map_at (str "ref") fs))
      else if resource == str "workloads"
      then workload_ref_id (some_or fs (snapshot_map_at (str "ref") fs))
      else if resource == str "edges"
      then edge_item_id (snapshot_map_at (str "workload") fs) (snapshot_map_at (str "secret") fs)
      else default_id fs

  unfoldable pub snapshot_item_id : Text → Json → Text
  snapshot_item_id resource (obj fs) =
      or_text (snapshot_string_at (str "id") fs) (object_id resource fs)
  snapshot_item_id resource _ = []
