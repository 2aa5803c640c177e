-- ===== src/Cli/Run.antt =====
-- `runSnapshotDiff` of cmd/kbeaconctl/snapshot_diff.go: the command and its exit status.
pub mod Passes
use kbeacon.Prelude.{
  ℕ, Bool, true, false, ◌&&◌, Outcome, ok, err, List, [], ◌∷◌, ◌++◌, if◌then◌else◌,
}
use kbeacon.Text.{Text, str, ◌==◌, trim_space, to_lower, elem}
use kbeacon.Json.{Json, Fields}
use kbeacon.Cli.Usage.{usage}
use kbeacon.Cli.Diff.{DiffDocument, build_snapshot_diff}
use kbeacon.Cli.Include.{parse_snapshot_diff_include}
use kbeacon.Cli.Render.{line, write_snapshot_diff_text, write_snapshot_diff_markdown}

-- The flags of the command and the arguments after them.
pub record DiffFlags : Type 0 where
  pub format : Text
  pub include : Text
  pub fail_on_change : Bool
  pub rest : List Text

-- What a command returns and writes.
pub record Exit : Type 0 where
  pub status : ℕ
  pub stdout : Text
  pub stderr : Text

abbrev pub failed : ℕ → Text → Exit
failed status message = record { status = status; stdout = []; stderr = line message }

abbrev pub printed : Bool → Text → Exit
printed changed output = record { status = if changed then 2 else 0; stdout = output; stderr = [] }

-- `programName`, `fmt.Sprint`, `%q`, `os.ReadFile`, `json.Unmarshal` and the JSON encoder.
pub record Calls : Type 0 where
  pub program : Text
  pub sprint : Json → Text
  pub quote : Text → Text
  pub read_file : Text → Outcome Text Text
  pub unmarshal : Text → Outcome Text Fields
  pub encode : DiffDocument → Outcome Text Text

module _ (calls : Calls) where
  abbrev pub write_encoded : Bool → Outcome Text Text → Exit
  write_encoded changed (ok output) = printed changed output
  write_encoded changed (err message) = failed 1 (str "write snapshot diff json: " ++ message)

  -- The `switch` on the format, and the status after it.
  unfoldable pub write_diff : DiffFlags → DiffDocument → Exit
  write_diff flags diff =
      let format = to_lower (trim_space flags.format) in
      let changed = flags.fail_on_change && diff.summary.has_changes in
      if format == str "json"
      then write_encoded changed (calls.encode diff)
      else if elem format (str "markdown" ∷ str "md" ∷ [])
      then printed changed (write_snapshot_diff_markdown diff)
      else if elem format (str "text" ∷ [] ∷ [])
      then printed changed (write_snapshot_diff_text diff)
      else failed 2 (str "unsupported snapshot diff format " ++ calls.quote flags.format)

  abbrev pub with_diff : DiffFlags → Outcome Text DiffDocument → Exit
  with_diff flags (err message) = failed 1 (str "snapshot diff failed: " ++ message)
  with_diff flags (ok diff) = write_diff flags diff

  abbrev pub with_resources : DiffFlags → Text → Text → Outcome Text (List Text) → Exit
  with_resources flags old_path new_path (err message) =
      failed 2 (str "snapshot diff include list is invalid: " ++ message)
  with_resources flags old_path new_path (ok resources) =
      with_diff flags (
        build_snapshot_diff calls.sprint calls.read_file calls.unmarshal old_path new_path
          resources)

  abbrev pub with_paths : DiffFlags → List Text → Exit
  with_paths flags (old_path ∷ new_path ∷ []) =
      with_resources flags old_path new_path (parse_snapshot_diff_include flags.include)
  with_paths flags _ = failed 2 (
      usage calls.program (
        str
          "snapshot diff [--format text|json|markdown] [--include LIST] [--fail-on-change] <old-snapshot.json> <new-snapshot.json>"))

  -- The flag set has read the arguments, or refused them with what it prints.
  unfoldable pub run_snapshot_diff : Outcome Text DiffFlags → Exit
  unfolding write_diff
  run_snapshot_diff (err message) = record { status = 2; stdout = []; stderr = message }
  run_snapshot_diff (ok flags) = with_paths flags flags.rest
