-- ===== src/Cli/Render.antt =====
-- How cmd/kbeaconctl/snapshot_diff.go writes a difference as text and as Markdown.
use kbeacon.Prelude.{Bool, true, false, ◌||◌, List, [], ◌∷◌, ◌++◌, if◌then◌else◌, length, not}
use kbeacon.Text.{Text, str, ◌==◌, decimal, replace_byte, upper_byte}
use kbeacon.Cli.Diff.{DiffItem, ResourceDiff, DiffDocument}

-- `fmt.Fprintln` of a text.
abbrev pub line : Text → Text
line t = t ++ (b'\n' ∷ [])

abbrev pub each {ℓ} : {A : Type ℓ} → (A → Text) → List A → Text
each write [] = []
each write (x ∷ xs) = write x ++ each write xs

abbrev pub capitalized : Text → Text
capitalized [] = str "Unknown"
capitalized (b ∷ s) = upper_byte b ++ s

unfoldable pub snapshot_diff_resource_label : Text → Text
snapshot_diff_resource_label resource =
    if resource == str "secrets"
    then str "Secrets"
    else if resource == str "workloads"
    then str "Workloads"
    else if resource == str "edges"
    then str "Edges"
    else capitalized resource

unfoldable pub snapshot_markdown_inline_code : Text → Text
snapshot_markdown_inline_code value = b'`' ∷ (replace_byte b'`' (str "'") value ++ (b'`' ∷ []))

unfoldable pub snapshot_markdown_table_text : Text → Text
snapshot_markdown_table_text value =
    replace_byte b'|' (b'\\' ∷ b'|' ∷ []) (replace_byte b'\n' (str " ") value)

unfoldable pub write_snapshot_diff_text_items : Text → List DiffItem → Text
write_snapshot_diff_text_items prefix items =
    each (λ item. line (prefix ++ (str " " ++ item.id))) items

abbrev pub text_resource : ResourceDiff → Text
text_resource r =
    line (
      snapshot_diff_resource_label r.name
      ++ (str ": +"
          ++ (decimal (length r.added)
              ++ (str " -"
                  ++ (decimal (length r.removed) ++ (str " ~" ++ decimal (length r.changed)))))))
    ++ (write_snapshot_diff_text_items (str "  +") r.added
        ++ (write_snapshot_diff_text_items (str "  -") r.removed
            ++ (write_snapshot_diff_text_items (str "  ~") r.changed ++ line [])))

abbrev pub no_changes : Text
no_changes = line (str "No snapshot changes detected.")

unfoldable pub write_snapshot_diff_text : DiffDocument → Text
write_snapshot_diff_text diff =
    line (str "KBeacon Snapshot Diff")
    ++ (line (str "Old: " ++ diff.old)
        ++ (line (str "New: " ++ diff.new)
            ++ (line []
                ++ (if diff.summary.has_changes
                    then each text_resource diff.resources
                    else no_changes))))

unfoldable pub write_snapshot_diff_markdown_items : Text → List DiffItem → Text
write_snapshot_diff_markdown_items label [] = []
write_snapshot_diff_markdown_items label (item ∷ items) =
    line (str "**" ++ (label ++ str "**"))
    ++ (line []
        ++ (each (λ i. line (str "- " ++ snapshot_markdown_inline_code i.id)) (item ∷ items)
            ++ line []))

abbrev pub table_row : ResourceDiff → Text
table_row r = line (
    str "| "
    ++ (snapshot_markdown_table_text (snapshot_diff_resource_label r.name)
        ++ (str " | "
            ++ (decimal (length r.added)
                ++ (str " | "
                    ++ (decimal (length r.removed)
                        ++ (str " | " ++ (decimal (length r.changed) ++ str " |"))))))))

-- The test that `len(…) == 0`.
abbrev pub none_in {ℓ} : {A : Type ℓ} → List A → Bool
none_in [] = true
none_in (x ∷ xs) = false

abbrev pub details : ResourceDiff → Text
details r =
    if not (none_in r.added) || (not (none_in r.removed) || not (none_in r.changed))
    then line (str "<details>")
      ++ (line (
            str "<summary>"
            ++ (snapshot_markdown_table_text (snapshot_diff_resource_label r.name)
                ++ str " details</summary>"))
          ++ (line []
              ++ (write_snapshot_diff_markdown_items (str "Added") r.added
                  ++ (write_snapshot_diff_markdown_items (str "Removed") r.removed
                      ++ (write_snapshot_diff_markdown_items (str "Changed") r.changed
                          ++ (line (str "</details>") ++ line []))))))
    else []

unfoldable pub write_snapshot_diff_markdown : DiffDocument → Text
write_snapshot_diff_markdown diff =
    line (str "## KBeacon Snapshot Diff")
    ++ (line []
        ++ (line (str "**Old snapshot:** " ++ (snapshot_markdown_inline_code diff.old ++ str "  "))
            ++ (line (str "**New snapshot:** " ++ snapshot_markdown_inline_code diff.new)
                ++ (line []
                    ++ (line (str "| Resource | Added | Removed | Changed |")
                        ++ (line (str "| --- | ---: | ---: | ---: |")
                            ++ (each table_row diff.resources
                                ++ (line []
                                    ++ (if diff.summary.has_changes
                                        then each details diff.resources
                                        else no_changes)))))))))
