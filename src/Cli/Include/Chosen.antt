-- ===== src/Cli/Include/Chosen.antt =====
-- What an accepted include list chooses.
use kbeacon.Prelude.{
  ◌≡◌, sym, ap, ◌∙◌, Bool, false, ◌&&◌, ◌||◌, not, ok, List, [], ◌∷◌, arith, if◌then◌else◌, loop,
  loop_inv, Bool-cases, inl, inr, ◌≢◌,
}
use kbeacon.Text.{Text, str, ◌==◌, split, elem}
use kbeacon.Dict.Sets.{add, elem-add, elem-loop, Distinct, Distinct-add}
use kbeacon.Cli.Include.{
  normalize_snapshot_diff_resource, every_resource, include_part, not_empty,
  parse_snapshot_diff_include,
}

-- A part of the list asks for a resource: by a name that stands for it, or by `all`.
abbrev pub asks_for : Text → Text → Bool
asks_for z part =
    let resource = normalize_snapshot_diff_resource part in
    not (resource == []) && (if resource == str "all" then elem z every_resource else resource == z)

abbrev pub any_asks : Text → List Text → Bool
any_asks z [] = false
any_asks z (part ∷ parts) = asks_for z part || any_asks z parts

elem-include_part :
    (z part : Text) (out : List Text)
    → elem z (include_part out part) ≡ elem z out || asks_for z part
unfolding include_part
elem-include_part z part out =
    let resource = normalize_snapshot_diff_resource part in
    elim (Bool-cases (resource == [])) [
      | inl e ↦ rw e (ground arith)
      | inr e ↦ elim (Bool-cases (resource == str "all")) [
        | inl k ↦ rw (e, k) (elem-loop out every_resource z)
        | inr k ↦ rw (e, k) (elem-add out resource z)
      ]
    ]

elem-loop-include :
    (z : Text) (out parts : List Text)
    → elem z (loop include_part out parts) ≡ elem z out || any_asks z parts
elem-loop-include z out [] = ground arith
elem-loop-include z out (part ∷ parts) =
    ground (arith, elem-loop-include z (include_part out part) parts, elem-include_part z part out)

loop-add-Distinct : (out xs : List Text) → Distinct out → Distinct (loop add out xs)
loop-add-Distinct = loop_inv Distinct add Distinct-add

include_part-Distinct :
    (out : List Text) (part : Text) → Distinct out → Distinct (include_part out part)
unfolding include_part
include_part-Distinct out part d =
    let resource = normalize_snapshot_diff_resource part in
    elim (Bool-cases (resource == [])) [
      | inl e ↦ rw e d
      | inr e ↦ elim (Bool-cases (resource == str "all")) [
        | inl k ↦ rw (e, k) (loop-add-Distinct out every_resource d)
        | inr k ↦ rw (e, k) (Distinct-add out resource d)
      ]
    ]

not_empty-eq-ok : (xs ys : List Text) → not_empty xs ≡ ok ys → xs ≡ ys
not_empty-eq-ok [] ys h = cc
not_empty-eq-ok (x ∷ xs) ys h = cc

not_empty-ne : (xs ys : List Text) → not_empty xs ≡ ok ys → ys ≢ []
not_empty-ne [] ys h e = cc
not_empty-ne (x ∷ xs) ys h e = cc

-- An include list that is accepted chooses at least one resource, chooses none twice, and chooses
-- exactly the resources that one of its comma-separated parts asks for.
pub parse_snapshot_diff_include-Chosen :
    (value : Text) (resources : List Text)
    → parse_snapshot_diff_include value ≡ ok resources
    → (resources ≢ [])
      × Distinct resources
      × ((z : Text) → elem z resources ≡ any_asks z (split b',' value))
unfolding parse_snapshot_diff_include
parse_snapshot_diff_include-Chosen value resources h =
    let parts = split b',' value in
    let same = not_empty-eq-ok (loop include_part [] parts) resources h in
    (
      not_empty-ne (loop include_part [] parts) resources h,
      rw (← same) (loop_inv Distinct include_part include_part-Distinct [] parts tt),
      λ z. ap (elem z) (sym same) ∙ (unfold elem in elem-loop-include z [] parts),
    )
