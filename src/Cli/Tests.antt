-- ===== src/Cli/Tests.antt =====
-- Tests of the snapshot commands of kbeaconctl on small documents, and the theorems at them.
use kbeacon.Prelude.{ok, ◌≡◌, ◌≢◌, ◌↔◌, refl, true, false, List, [], ◌∷◌, map, All}
use kbeacon.Text.{
  Text, str, ◌==◌, elem, to_lower, trim_space, trim_left, trim_right, lower_byte, is_space, join,
  split, decimal, text_ltb,
}
use kbeacon.Dict.{Dict, get, put, keys, values, Unique}
use kbeacon.Dict.Sets.{add, Distinct}
use kbeacon.Sort.{sort_by}
use kbeacon.Json.{
  Json, Fields, text, arr, obj, nil, cons, end, field, get_field, deep_equal, to_list,
}
use kbeacon.Json.Laws.{IsKeyed}
use kbeacon.Cli.Document.{
  get_snapshot_path, snapshot_values_from_any, first_snapshot_array,
  extract_snapshot_resource_values, join_non_empty, snapshot_map_at, snapshot_string_at,
  default_ref, default_id, snapshot_item_id,
}
use kbeacon.Cli.Index.{numbered, free_id, index_item, index_from, index_snapshot_items}
use kbeacon.Cli.Index.Fresh.{values-index_snapshot_items}
use kbeacon.Cli.Diff.{
  place_item, sorted_ids, diff_items, summarize, indexed, diff_snapshot_resource, diff_documents,
  read_snapshot_document, build_snapshot_diff,
}
use kbeacon.Cli.Diff.Classes.{item_id, IsDiff, diff_items-IsDiff}
use kbeacon.Cli.Diff.Unchanged.{Unchanged, diff_documents-Unchanged_iff}
use kbeacon.Cli.Diff.Unchanged.Same.{diff_documents-same}
use kbeacon.Cli.Include.{
  normalize_snapshot_diff_resource, include_part, parse_snapshot_diff_include,
}
use kbeacon.Cli.Include.Chosen.{parse_snapshot_diff_include-Chosen, any_asks}
use kbeacon.Cli.Run.{Calls, DiffFlags, write_diff, run_snapshot_diff}
use kbeacon.Cli.Run.Passes.{Passed, run_snapshot_diff-Passed}

-- Its unfolding line opens the whole component.
cli : Unit {0}
unfolding ◌==◌ elem to_lower trim_space trim_left trim_right lower_byte is_space join split decimal
    text_ltb get put keys values add sort_by get_field deep_equal to_list get_snapshot_path
    snapshot_values_from_any first_snapshot_array extract_snapshot_resource_values join_non_empty
    snapshot_map_at snapshot_string_at default_ref default_id snapshot_item_id numbered free_id
    index_item index_from index_snapshot_items place_item sorted_ids diff_items summarize indexed
    diff_snapshot_resource diff_documents normalize_snapshot_diff_resource include_part
    parse_snapshot_diff_include read_snapshot_document build_snapshot_diff write_diff
    run_snapshot_diff
cli = tt

abbrev unprinted : Json → Text
unprinted v = []

-- A Secret of the snapshot, under a name and with a version.
abbrev secret : Text → Text → Json
secret name version = obj (
    field (str "ref")
      (obj (field (str "namespace") (text (str "p")) (field (str "name") (text name) end)))
      (field (str "version") (text version) end))

abbrev two_secrets : List Json
two_secrets = secret (str "a") (str "1") ∷ secret (str "a") (str "2") ∷ []

abbrev document : Json → Json → Json
document one other = obj (
    field (str "kind") (text (str "KBeaconSnapshot")) (
      field (str "resources")
        (obj (
          field (str "secrets") (obj (field (str "data") (arr (cons one (cons other nil))) end))
            end))
        end))

abbrev old : Json
old = document (secret (str "a") (str "1")) (secret (str "b") (str "1"))

abbrev new : Json
new = document (secret (str "a") (str "2")) (secret (str "c") (str "1"))

-- Two Secrets of one name get two ids.
same_names :
    keys (index_snapshot_items unprinted (str "secrets") two_secrets) ≡ str "p/a" ∷ str "p/a#2" ∷ []
unfolding cli
same_names = refl

one_each :
    map item_id (diff_snapshot_resource unprinted (str "secrets") old new).added ≡ str "p/c" ∷ []
unfolding cli
one_each = refl

changed_one :
    map item_id (diff_snapshot_resource unprinted (str "secrets") old new).changed ≡ str "p/a" ∷ []
unfolding cli
changed_one = refl

values-index_snapshot_items_example :
    (values (index_snapshot_items unprinted (str "secrets") two_secrets) ≡ two_secrets)
    × Unique (index_snapshot_items unprinted (str "secrets") two_secrets)
values-index_snapshot_items_example =
    values-index_snapshot_items unprinted (str "secrets") two_secrets

abbrev old_index : Dict Json
old_index = (str "p/a", text (str "1")) ∷ (str "p/b", text (str "1")) ∷ []

abbrev new_index : Dict Json
new_index = (str "p/a", text (str "2")) ∷ (str "p/c", text (str "1")) ∷ []

diff_items-IsDiff_example :
    IsDiff old_index new_index (diff_items (str "secrets") old_index new_index)
diff_items-IsDiff_example = diff_items-IsDiff old_index new_index (str "secrets")

diff_documents-Unchanged_iff_example :
    ((diff_documents unprinted
        (str "a.json")
        (str "b.json")
        (str "secrets" ∷ [])
        old
        new).summary.has_changes
      ≡ false)
    ↔ All (Unchanged unprinted old new) (str "secrets" ∷ [])
diff_documents-Unchanged_iff_example =
    diff_documents-Unchanged_iff unprinted old new (str "a.json") (str "b.json")
      (str "secrets" ∷ [])

secret-IsKeyed : (name version : Text) → IsKeyed (secret name version)
unfolding cli IsKeyed
secret-IsKeyed name version = (refl, (refl, tt, (refl, tt, tt)), (refl, tt, tt))

old-IsKeyed : IsKeyed old
unfolding cli IsKeyed
old-IsKeyed = (
  refl,
  tt,
  (
    refl,
    (
      refl,
      (refl, (secret-IsKeyed (str "a") (str "1"), (secret-IsKeyed (str "b") (str "1"), tt)), tt),
      tt,
    ),
    tt,
  ),
)

diff_documents-same_example :
    (diff_documents unprinted
      (str "a.json")
      (str "b.json")
      (str "secrets" ∷ [])
      old
      old).summary.has_changes
    ≡ false
diff_documents-same_example =
    diff_documents-same unprinted old old-IsKeyed (str "a.json") (str "b.json") (str "secrets" ∷ [])

abbrev chosen : List Text
chosen = str "edges" ∷ str "secrets" ∷ str "workloads" ∷ []

chosen_accepted : parse_snapshot_diff_include (str "edges,,all") ≡ ok chosen
unfolding cli
chosen_accepted = refl

parse_snapshot_diff_include-Chosen_example :
    (chosen ≢ [])
    × Distinct chosen
    × ((z : Text) → elem z chosen ≡ any_asks z (split b',' (str "edges,,all")))
parse_snapshot_diff_include-Chosen_example =
    parse_snapshot_diff_include-Chosen (str "edges,,all") chosen chosen_accepted

abbrev old_fields : Fields
old_fields = field (str "kind") (text (str "KBeaconSnapshot")) (field (str "secrets") (arr nil) end)

abbrev calls : Calls
calls = record {
  program = str "kbeaconctl";
  sprint = unprinted;
  quote = λ t. t;
  read_file = λ path. ok [];
  unmarshal = λ raw. ok old_fields;
  encode = λ diff. ok [];
}

abbrev flags : DiffFlags
flags = record {
  format = str "md";
  include = str "secret,edges";
  fail_on_change = true;
  rest = str "a.json" ∷ str "b.json" ∷ [];
}

passes : (run_snapshot_diff calls (ok flags)).status ≡ 0
unfolding cli
passes = refl

run_snapshot_diff-Passed_example : Passed calls flags
run_snapshot_diff-Passed_example = run_snapshot_diff-Passed calls flags refl passes
