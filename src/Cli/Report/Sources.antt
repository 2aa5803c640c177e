-- ===== src/Cli/Report/Sources.antt =====
-- Which types of sources a report shows.
use kbeacon.Prelude.{
  ◌≡◌, refl, sym, ap, ◌∙◌, Bool, false, ◌&&◌, ◌||◌, not, List, [], ◌∷◌, arith, loop, map,
  Bool-cases, inl, inr,
}
use kbeacon.Text.{Text, ◌==◌, elem, trim_space}
use kbeacon.Dict.Sets.{add, elem-add}
use kbeacon.Rearrange.{elem-map-perm}
use kbeacon.Sort.{sort_by-perm, IsSorted, sort_by-IsSorted}
use kbeacon.Graph.Types.{DependencySource}
use kbeacon.Cli.Report.{add_type, shown_types}

-- A source has this type, which is not blank.
abbrev has_type : Text → List DependencySource → Bool
has_type z [] = false
has_type z (s ∷ ss) = (not (trim_space s.type == []) && trim_space s.type == z) || has_type z ss

elem-loop-type :
    (z : Text) (out : List Text) (ss : List DependencySource)
    → elem z (loop add_type out ss) ≡ elem z out || has_type z ss
elem-loop-type z out [] = ground arith
elem-loop-type z out (s ∷ ss) = elim (Bool-cases (trim_space s.type == [])) [
  | inl e ↦ rw e (elem-loop-type z out ss)
  | inr e ↦ rw e (
      elem-loop-type z (add out (trim_space s.type)) ss
      ∙ rw (elem-add out (trim_space s.type) z) (ground arith))
]

map-same : (xs : List Text) → map (λ t. t) xs ≡ xs
map-same [] = refl
map-same (x ∷ xs) = ap (λ ys. x ∷ ys) (map-same xs)

-- The types that are shown are in the order of their texts, and they are exactly the types, without
-- the spaces around them, of the sources whose type is not blank.
shown_types_lem :
    (sources : List DependencySource)
    → IsSorted (λ t. t) (shown_types sources)
      × ((z : Text) → elem z (shown_types sources) ≡ has_type z sources)
unfolding shown_types
shown_types_lem sources =
    let found = loop add_type [] sources in
    (
      sort_by-IsSorted (λ t. t) found,
      λ z.
          ap (elem z) (sym (map-same (shown_types sources)))
          ∙ elem-map-perm (λ t. t) z (sort_by-perm (λ t. t) found)
          ∙ ap (elem z) (map-same found)
          ∙ (unfold elem in elem-loop-type z [] sources),
    )
