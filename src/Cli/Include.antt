-- ===== src/Cli/Include.antt =====
-- `parseSnapshotDiffInclude` of cmd/kbeaconctl/snapshot_diff.go: which resources are compared.
pub mod Chosen
use kbeacon.Prelude.{Bool, true, false, ◌||◌, Outcome, ok, err, List, [], ◌∷◌, if◌then◌else◌, loop}
use kbeacon.Text.{Text, str, ◌==◌, trim_space, to_lower, split, elem}
use kbeacon.Dict.Sets.{add}

unfoldable pub normalize_snapshot_diff_resource : Text → Text
normalize_snapshot_diff_resource value =
    let v = to_lower (trim_space value) in
    if elem v (str "secret" ∷ str "secrets" ∷ [])
    then str "secrets"
    else if elem v (str "workload" ∷ str "workloads" ∷ [])
    then str "workloads"
    else if elem v (
        str "edge"
        ∷ str "edges"
        ∷ str "dependency"
        ∷ str "dependencies"
        ∷ str "dependency-map"
        ∷ str "dependency_map"
        ∷ [])
    then str "edges"
    else v

abbrev pub every_resource : List Text
every_resource = str "secrets" ∷ str "workloads" ∷ str "edges" ∷ []

-- What one part adds. `seen` holds the members of `out`, so that a resource is appended once.
unfoldable pub include_part : List Text → Text → List Text
include_part out part =
    let resource = normalize_snapshot_diff_resource part in
    if resource == []
    then out
    else if resource == str "all"
    then loop add out every_resource
    else add out resource

abbrev pub not_empty : List Text → Outcome Text (List Text)
not_empty [] = err (str "empty include list")
not_empty (r ∷ rs) = ok (r ∷ rs)

unfoldable pub parse_snapshot_diff_include : Text → Outcome Text (List Text)
unfolding include_part
parse_snapshot_diff_include value = not_empty (loop include_part [] (split b',' value))
