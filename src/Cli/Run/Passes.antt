-- ===== src/Cli/Run/Passes.antt =====
-- What the exit status of `kbeaconctl snapshot diff --fail-on-change` tells.
use kbeacon.Prelude.{
  ◌≡◌, ◌≢◌, refl, true, false, Outcome, ok, err, ◌>>=◌, chained, ok_injective, List, [], ◌∷◌, arith,
  All,
}
use kbeacon.Text.{Text, str}
use kbeacon.Json.{Json}
use kbeacon.Cli.Diff.{
  DiffDocument, read_snapshot_document, in_context, diff_documents, build_snapshot_diff,
}
use kbeacon.Cli.Diff.Unchanged.{Unchanged, diff_documents-Unchanged_iff}
use kbeacon.Cli.Include.{parse_snapshot_diff_include}
use kbeacon.Cli.Run.{
  DiffFlags, Calls, write_diff, write_encoded, with_diff, with_resources, with_paths,
  run_snapshot_diff,
}

module _ (calls : Calls) where
  abbrev pub read : Text → Outcome Text Json
  read = read_snapshot_document calls.sprint calls.read_file calls.unmarshal

  -- Both files hold snapshots that agree on every resource that was asked for.
  pub record Passed (flags : DiffFlags) : Type 0 where
    pub old_path : Text
    pub new_path : Text
    pub resources : List Text
    pub old : Json
    pub new : Json
    pub paths : flags.rest ≡ old_path ∷ new_path ∷ []
    pub chosen : parse_snapshot_diff_include flags.include ≡ ok resources
    pub old_read : read old_path ≡ ok old
    pub new_read : read new_path ≡ ok new
    pub unchanged : All (Unchanged calls.sprint old new) resources

  in_context-ok :
      (context : Text) (o : Outcome Text Json) (doc : Json)
      → in_context calls.sprint calls.read_file calls.unmarshal context o ≡ ok doc
      → o ≡ ok doc
  in_context-ok context (ok d) doc h = cc
  in_context-ok context (err m) doc h = cc

  module _ (flags : DiffFlags) (failing : flags.fail_on_change ≡ true) where
    write_encoded-status : (o : Outcome Text Text) → (write_encoded calls true o).status ≢ 0
    write_encoded-status (ok output) h = omega arith
    write_encoded-status (err message) h = omega arith

    write_diff-status :
        (diff : DiffDocument)
        → (write_diff calls flags diff).status ≡ 0
        → diff.summary.has_changes ≡ false
    unfolding write_diff
    write_diff-status diff h = ground (arith, failing, write_encoded-status (calls.encode diff))

    agreed :
        {diff other : DiffDocument}
        → other ≡ diff
        → (write_diff calls flags diff).status ≡ 0
        → other.summary.has_changes ≡ false
    agreed same h = rw same (write_diff-status _ h)

    module _ (old_path new_path : Text) (paths : flags.rest ≡ old_path ∷ new_path ∷ []) where
      abbrev read_as : Text → Text → Outcome Text Json
      read_as context path =
          in_context calls.sprint calls.read_file calls.unmarshal context (read path)

      abbrev compared : List Text → Json → Json → Outcome Text DiffDocument
      compared resources old new =
          ok (diff_documents calls.sprint old_path new_path resources old new)

      abbrev then_new : List Text → Json → Outcome Text DiffDocument
      then_new resources old =
          read_as (str "read new snapshot: ") new_path >>= compared resources old

      Passed-with_diff :
          (resources : List Text) (o : Outcome Text DiffDocument)
          → parse_snapshot_diff_include flags.include ≡ ok resources
          → build_snapshot_diff calls.sprint calls.read_file calls.unmarshal old_path new_path
              resources
            ≡ o
          → (with_diff calls flags o).status ≡ 0
          → Passed flags
      unfolding build_snapshot_diff
      Passed-with_diff resources (err message) chosen e h = absurd (omega arith)
      Passed-with_diff resources (ok diff) chosen e h =
          let first =
            chained (read_as (str "read old snapshot: ") old_path) (then_new resources) e in
          let second =
            chained (read_as (str "read new snapshot: ") new_path) (compared resources first.value)
              first.gave in
          let same = ok_injective refl second.gave in
          let iff =
            diff_documents-Unchanged_iff calls.sprint first.value second.value old_path new_path
              resources in
          record {
            old_path = old_path;
            new_path = new_path;
            resources = resources;
            old = first.value;
            new = second.value;
            paths = paths;
            chosen = chosen;
            old_read =
                in_context-ok (str "read old snapshot: ") (read old_path) first.value first.went;
            new_read =
                in_context-ok (str "read new snapshot: ") (read new_path) second.value second.went;
            unchanged = iff.0 (
                agreed
                  {other = diff_documents calls.sprint old_path new_path resources first.value
                    second.value}
                  same h);
          }

      Passed-with_resources :
          (o : Outcome Text (List Text))
          → parse_snapshot_diff_include flags.include ≡ o
          → (with_resources calls flags old_path new_path o).status ≡ 0
          → Passed flags
      Passed-with_resources (err message) e h = absurd (omega arith)
      Passed-with_resources (ok resources) e h = Passed-with_diff resources _ e refl h

    Passed-with_paths :
        (rest : List Text)
        → flags.rest ≡ rest
        → (with_paths calls flags rest).status ≡ 0
        → Passed flags
    Passed-with_paths [] e h = absurd (omega arith)
    Passed-with_paths (a ∷ []) e h = absurd (omega arith)
    Passed-with_paths (a ∷ b ∷ []) e h =
        Passed-with_resources a b e (parse_snapshot_diff_include flags.include) refl h
    Passed-with_paths (a ∷ b ∷ c ∷ rest) e h = absurd (omega arith)

    -- With --fail-on-change the command exits with status 0 only if both files hold snapshots whose
    -- values agree, id by id, on every resource of an accepted include list.
    pub run_snapshot_diff-Passed : (run_snapshot_diff calls (ok flags)).status ≡ 0 → Passed flags
    unfolding run_snapshot_diff
    run_snapshot_diff-Passed = Passed-with_paths flags.rest refl
