-- ===== src/Cli/Index.antt =====
-- `indexSnapshotItems` of cmd/kbeaconctl/snapshot_diff.go: every value under an id of its own.
pub mod Fresh
use kbeacon.Prelude.{
  ℕ, zero, suc, ◌+◌, Option, some, none, List, [], ◌∷◌, ◌++◌, if◌then◌else◌, length,
}
use kbeacon.Text.{Text, str, ◌==◌, decimal}
use kbeacon.Dict.{Dict, has, put}
use kbeacon.Json.{Json}
use kbeacon.Cli.Document.{snapshot_item_id}

-- `fmt.Sprintf("%s#%d", originalID, collision)`
unfoldable pub numbered : Text → ℕ → Text
numbered original collision = original ++ (str "#" ++ decimal collision)

-- The loop over `collision`: `id` is tried first. There is one round of fuel for each id that may be
-- taken.
unfoldable pub free_id : ℕ → Dict Json → Text → ℕ → Text → Text
free_id zero indexed original collision id = id
free_id (suc fuel) indexed original collision id =
    let next = free_id fuel indexed original (collision + 1) (numbered original collision) in
    if has id indexed then next else id

-- The id of a value before collisions are resolved.
abbrev pub or_position : Text → ℕ → Text → Text
or_position resource i id = if id == [] then resource ++ (str "[" ++ (decimal i ++ str "]")) else id

unfoldable pub index_item : Text → (Json → Text) → ℕ → Dict Json → Json → Dict Json
unfolding free_id
index_item resource sprint i indexed value =
    let id = or_position resource i (snapshot_item_id sprint resource value) in
    put (free_id (length indexed) indexed id 2 id) value indexed

unfoldable pub index_from : Text → (Json → Text) → ℕ → Dict Json → List Json → Dict Json
unfolding index_item
index_from resource sprint i indexed [] = indexed
index_from resource sprint i indexed (value ∷ values) =
    index_from resource sprint (i + 1) (index_item resource sprint i indexed value) values

unfoldable pub index_snapshot_items : (Json → Text) → Text → List Json → Dict Json
unfolding index_from
index_snapshot_items sprint resource values = index_from resource sprint 0 [] values
