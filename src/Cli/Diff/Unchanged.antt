-- ===== src/Cli/Diff/Unchanged.antt =====
-- When a comparison of two documents reports no change.
pub mod Same
use kbeacon.Prelude.{
  ℕ, zero, suc, ◌+◌, ◌<◌, ◌≡◌, ◌↔◌, refl, sym, ap, ◌∙◌, Bool, true, false, ◌&&◌, ◌||◌, not, Option,
  none, some, List, [], ◌∷◌, map, arith, ltb, length, if◌then◌else◌, All, is_some,
}
use kbeacon.Text.{Text, ◌==◌, ==_refl, elem}
use kbeacon.Dict.{Dict, get, has}
use kbeacon.Json.{Json, deep_equal}
use kbeacon.Cli.Diff.{
  DiffItem, ResourceDiff, DiffSummary, diff_items, indexed, diff_snapshot_resource, summarize,
  counted, empty_summary, diff_documents,
}
use kbeacon.Cli.Diff.Classes.{item_id, differ, IsDiff, diff_items-IsDiff}

-- Two documents have equal values at one id, or both have none.
abbrev pub agree : Option Json → Option Json → Bool
agree none none = true
agree (some a) (some b) = deep_equal a b
agree _ _ = false

abbrev pub Agree : Dict Json → Dict Json → Type 0
Agree old new = (z : Text) → agree (get z old) (get z new) ≡ true

abbrev changes : ResourceDiff → ℕ
changes r = length r.added + (length r.removed + length r.changed)

no_items : (xs : List DiffItem) → ((z : Text) → elem z (map item_id xs) ≡ false) → length xs ≡ 0
unfolding elem
no_items [] h = refl
no_items (x ∷ xs) h = ground (arith, h x.id, ==_refl x.id)

no_ids : (z : Text) (xs : List DiffItem) → length xs ≡ 0 → elem z (map item_id xs) ≡ false
unfolding elem
no_ids z [] h = refl
no_ids z (x ∷ xs) h = ground arith

agree_of_classes :
    (o n : Option Json)
    → not (is_some o) && is_some n ≡ false
    → is_some o && not (is_some n) ≡ false
    → differ o n ≡ false
    → agree o n ≡ true
agree_of_classes none none a r c = refl
agree_of_classes none (some b) a r c = cc
agree_of_classes (some x) none a r c = cc
agree_of_classes (some x) (some y) a r c = ground arith

classes_of_agree :
    (o n : Option Json)
    → agree o n ≡ true
    → (not (is_some o) && is_some n ≡ false)
      × (is_some o && not (is_some n) ≡ false)
      × (differ o n ≡ false)
classes_of_agree none none h = (refl, refl, refl)
classes_of_agree none (some b) h = cc
classes_of_agree (some x) none h = cc
classes_of_agree (some x) (some y) h = ground arith

module _ (old new : Dict Json) (r : ResourceDiff) (d : IsDiff old new r) where
  Agree-of_none : changes r ≡ 0 → Agree old new
  Agree-of_none h z =
      agree_of_classes (get z old) (get z new) (sym (d.added z) ∙ no_ids z r.added (omega arith))
        (sym (d.removed z) ∙ no_ids z r.removed (omega arith))
        (sym (d.changed z) ∙ no_ids z r.changed (omega arith))

  none_of_Agree : Agree old new → changes r ≡ 0
  none_of_Agree h = omega (
    arith,
    no_items r.added (λ z. d.added z ∙ (classes_of_agree (get z old) (get z new) (h z)).0),
    no_items r.removed (λ z. d.removed z ∙ (classes_of_agree (get z old) (get z new) (h z)).1),
    no_items r.changed (λ z. d.changed z ∙ (classes_of_agree (get z old) (get z new) (h z)).2),
  )

total : DiffSummary → ℕ
total s = s.added + (s.removed + s.changed)

abbrev all_changes : List ResourceDiff → ℕ
all_changes [] = 0
all_changes (r ∷ rs) = changes r + all_changes rs

total-summarize :
    (s : DiffSummary) (rs : List ResourceDiff) → total (summarize s rs) ≡ total s + all_changes rs
unfolding summarize total
total-summarize s [] = omega arith
total-summarize s (r ∷ rs) =
    let s' : DiffSummary = record s {
      added = s.added + length r.added;
      removed = s.removed + length r.removed;
      changed = s.changed + length r.changed;
    } in
    omega (arith, total-summarize s' rs)

counted_iff : (s : DiffSummary) → ((counted s).has_changes ≡ false) ↔ (total s ≡ 0)
unfolding total
counted_iff s = ground arith

module _ (sprint : Json → Text) (old new : Json) where
  abbrev pub Unchanged : Text → Type 0
  Unchanged resource = Agree (indexed sprint old resource) (indexed sprint new resource)

  no_changes_iff :
      (resources : List Text)
      → (all_changes (map (λ r. diff_snapshot_resource sprint r old new) resources) ≡ 0)
        ↔ All Unchanged resources
  unfolding diff_snapshot_resource
  no_changes_iff [] = (λ h. tt, λ h. refl)
  no_changes_iff (r ∷ rs) =
      let o = indexed sprint old r in
      let n = indexed sprint new r in
      let d = diff_items-IsDiff o n r in
      (
        λ h. (
          Agree-of_none o n (diff_items r o n) d (omega arith),
          (no_changes_iff rs).0 (omega arith),
        ),
        λ h. omega (arith, none_of_Agree o n (diff_items r o n) d h.0, (no_changes_iff rs).1 h.1),
      )

  -- A comparison reports no change exactly when, for each compared resource and each id, both documents
  -- have equal values under the id or neither has one.
  pub diff_documents-Unchanged_iff :
      (old_path new_path : Text) (resources : List Text)
      → ((diff_documents sprint old_path new_path resources old new).summary.has_changes ≡ false)
        ↔ All Unchanged resources
  unfolding diff_documents
  diff_documents-Unchanged_iff old_path new_path resources =
      let diffs = map (λ r. diff_snapshot_resource sprint r old new) resources in
      let all = no_changes_iff resources in
      let sums = total-summarize empty_summary diffs in
      (
        λ h. all.0 (
            unfold total in omega (arith, sums, (counted_iff (summarize empty_summary diffs)).0 h)),
        λ h.
            (counted_iff (summarize empty_summary diffs)).1
              (unfold total in omega (arith, sums, all.1 h)),
      )
