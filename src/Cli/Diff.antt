-- ===== src/Cli/Diff.antt =====
-- `diffSnapshotResource` and `buildSnapshotDiff` of cmd/kbeaconctl/snapshot_diff.go.
pub mod Classes
pub mod Unchanged
use kbeacon.Prelude.{
  ℕ, ◌+◌, Bool, true, false, ◌||◌, not, Option, none, some, List, [], ◌∷◌, ◌++◌, if◌then◌else◌,
  length, loop, ltb, Outcome, ok, err, ◌>>=◌, map, some_or,
}
use kbeacon.Text.{Text, str, ◌==◌, trim_space}
use kbeacon.Dict.{Dict, get, keys}
use kbeacon.Dict.Sets.{add}
use kbeacon.Sort.{sort_by}
use kbeacon.Json.{Json, null, bool, num, text, arr, obj, Fields, get_field, deep_equal}
use kbeacon.Cli.Document.{extract_snapshot_resource_values}
use kbeacon.Cli.Index.{index_snapshot_items}

pub record DiffItem : Type 0 where
  pub id : Text
  pub old : Option Json
  pub new : Option Json

pub record ResourceDiff : Type 0 where
  pub name : Text
  pub added : List DiffItem
  pub removed : List DiffItem
  pub changed : List DiffItem

pub record DiffSummary : Type 0 where
  pub has_changes : Bool
  pub added : ℕ
  pub removed : ℕ
  pub changed : ℕ

pub record DiffDocument : Type 0 where
  pub old : Text
  pub new : Text
  pub summary : DiffSummary
  pub resources : List ResourceDiff

-- The `switch` of one id.
unfoldable pub place_item : Text → Option Json → Option Json → ResourceDiff → ResourceDiff
place_item id none (some b) out = record out {
  added = out.added ++ record { id = id; old = none; new = some b } ∷ [];
}
place_item id (some a) none out = record out {
  removed = out.removed ++ record { id = id; old = some a; new = none } ∷ [];
}
place_item id (some a) (some b) out =
    if not (deep_equal a b)
    then record out { changed = out.changed ++ record { id = id; old = some a; new = some b } ∷ [] }
    else out
place_item id none none out = out

abbrev pub itself : Text → Text
itself id = id

unfoldable pub sorted_ids : Dict Json → Dict Json → List Text
sorted_ids old new = sort_by itself (loop add (loop add [] (keys old)) (keys new))

unfoldable pub diff_items : Text → Dict Json → Dict Json → ResourceDiff
unfolding place_item sorted_ids
diff_items name old new =
    loop (λ out id. place_item id (get id old) (get id new) out)
      (record { name = name; added = []; removed = []; changed = [] }) (sorted_ids old new)

unfoldable pub summarize : DiffSummary → List ResourceDiff → DiffSummary
summarize s [] = s
summarize s (r ∷ rs) =
    summarize
      (record s {
        added = s.added + length r.added;
        removed = s.removed + length r.removed;
        changed = s.changed + length r.changed;
      })
      rs

abbrev pub empty_summary : DiffSummary
empty_summary = record { has_changes = false; added = 0; removed = 0; changed = 0 }

abbrev pub counted : DiffSummary → DiffSummary
counted s = record s { has_changes = ltb 0 s.added || (ltb 0 s.removed || ltb 0 s.changed) }

-- `sprint` is `fmt.Sprint` of a value that is no string.
module _ (sprint : Json → Text) where
  unfoldable pub indexed : Json → Text → Dict Json
  indexed doc resource =
      index_snapshot_items sprint resource (extract_snapshot_resource_values doc resource)

  unfoldable pub diff_snapshot_resource : Text → Json → Json → ResourceDiff
  unfolding indexed diff_items
  diff_snapshot_resource resource old new =
      diff_items resource (indexed old resource) (indexed new resource)

  -- What `buildSnapshotDiff` makes of two documents that were read.
  unfoldable pub diff_documents : Text → Text → List Text → Json → Json → DiffDocument
  unfolding diff_snapshot_resource summarize
  diff_documents old_path new_path resources old new =
      let diffs = map (λ resource. diff_snapshot_resource resource old new) resources in
      record {
        old = old_path;
        new = new_path;
        summary = counted (summarize empty_summary diffs);
        resources = diffs;
      }

  abbrev pub print_value : Json → Text
  print_value (text t) = t
  print_value value = sprint value

  unfoldable pub checked_kind : Fields → Outcome Text Json
  checked_kind doc =
      if trim_space (print_value (some_or null (get_field (str "kind") doc)))
        == str "KBeaconSnapshot"
      then ok (obj doc)
      else err (str "input is not a KBeaconSnapshot document")

  -- `os.ReadFile` and `json.Unmarshal` into a map, with the texts of their errors.
  module _ (read_file : Text → Outcome Text Text) (unmarshal : Text → Outcome Text Fields) where
    unfoldable pub read_snapshot_document : Text → Outcome Text Json
    unfolding checked_kind
    read_snapshot_document path = do raw ← read_file path; doc ← unmarshal raw; checked_kind doc

    abbrev pub in_context : Text → Outcome Text Json → Outcome Text Json
    in_context context (ok doc) = ok doc
    in_context context (err message) = err (context ++ message)

    unfoldable pub build_snapshot_diff : Text → Text → List Text → Outcome Text DiffDocument
    unfolding read_snapshot_document diff_documents
    build_snapshot_diff old_path new_path resources = do
      old ← in_context (str "read old snapshot: ") (read_snapshot_document old_path)
      new ← in_context (str "read new snapshot: ") (read_snapshot_document new_path)
      ok (diff_documents old_path new_path resources old new)
