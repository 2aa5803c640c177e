-- ===== src/Cli/Diff/Classes.antt =====
-- Which ids a difference lists as added, removed and changed, and with which values.
use kbeacon.Prelude.{
  ◌≡◌, refl, sym, ap, ◌∙◌, Bool, false, ◌&&◌, ◌||◌, not, Option, none, some, List, [], ◌∷◌, ◌++◌,
  map, arith, loop, loop_inv, All, All-append, is_some, Bool-cases, inl, inr,
}
use kbeacon.Text.{Text, ◌==◌, ==_iff, elem}
use kbeacon.Dict.{Dict, get, has, keys}
use kbeacon.Dict.Sets.{add, elem-loop}
use kbeacon.Sort.{sort_by-perm}
use kbeacon.Rearrange.{elem-map-perm}
use kbeacon.Json.{Json, deep_equal}
use kbeacon.Cli.Index.Fresh.{elem-keys}
use kbeacon.Cli.Diff.{DiffItem, ResourceDiff, place_item, itself, sorted_ids, diff_items}

abbrev pub item_id : DiffItem → Text
item_id i = i.id

-- Two documents have different values at one id.
abbrev pub differ : Option Json → Option Json → Bool
differ (some a) (some b) = not (deep_equal a b)
differ _ _ = false

elem-snoc :
    (z : Text) (xs : List DiffItem) (i : DiffItem)
    → elem z (map item_id (xs ++ i ∷ [])) ≡ elem z (map item_id xs) || i.id == z
unfolding elem
elem-snoc z [] i = ground arith
elem-snoc z (x ∷ xs) i = ground (arith, elem-snoc z xs i)

-- What one id, with its values, adds to each list.
record Placed (z id : Text) (o n : Option Json) (s t : ResourceDiff) : Type 0 where
  added :
      elem z (map item_id t.added)
      ≡ elem z (map item_id s.added) || (id == z && (not (is_some o) && is_some n))
  removed :
      elem z (map item_id t.removed)
      ≡ elem z (map item_id s.removed) || (id == z && (is_some o && not (is_some n)))
  changed :
      elem z (map item_id t.changed) ≡ elem z (map item_id s.changed) || (id == z && differ o n)

place_item-Placed :
    (z id : Text) (o n : Option Json) (s : ResourceDiff) → Placed z id o n s (place_item id o n s)
unfolding place_item
place_item-Placed z id none none s = record {
  added = ground arith;
  removed = ground arith;
  changed = ground arith;
}
place_item-Placed z id none (some b) s = record {
  added = ground (arith, elem-snoc z s.added (record { id = id; old = none; new = some b }));
  removed = ground arith;
  changed = ground arith;
}
place_item-Placed z id (some a) none s = record {
  added = ground arith;
  removed = ground (arith, elem-snoc z s.removed (record { id = id; old = some a; new = none }));
  changed = ground arith;
}
place_item-Placed z id (some a) (some b) s = elim (Bool-cases (deep_equal a b)) [
  | inl e ↦ rw e (record { added = ground arith; removed = ground arith; changed = ground arith })
  | inr e ↦ rw e (record {
    added = ground arith;
    removed = ground arith;
    changed =
        ground (arith, elem-snoc z s.changed (record { id = id; old = some a; new = some b }));
  })
]

-- Only an equal id counts.
at_equal : (f : Text → Bool) (z id : Text) → id == z && f id ≡ id == z && f z
at_equal f z id = elim (Bool-cases (id == z)) [
  | inl e ↦ let same = ap f ((==_iff id z).0 e) in ground arith
  | inr e ↦ rw e
]

map-itself : (xs : List Text) → map itself xs ≡ xs
map-itself [] = refl
map-itself (x ∷ xs) = ap (λ l. x ∷ l) (map-itself xs)

-- Two values that are there are compared.
in_both : (e : Bool) (o n : Option Json) → e ≡ is_some o || is_some n → e && differ o n ≡ differ o n
in_both e none n h = ground arith
in_both e (some a) none h = ground arith
in_both e (some a) (some b) h = ground arith

module _ (old new : Dict Json) where
  abbrev pub Carries : DiffItem → Type 0
  Carries i = (i.old ≡ get i.id old) × (i.new ≡ get i.id new)

  -- A difference of two indexed documents: it lists as added the ids that only the new one has, as
  -- removed the ids that only the old one has, as changed the ids that both have with values that are
  -- not equal, and each id with its values.
  pub record IsDiff (r : ResourceDiff) : Type 0 where
    pub added : (z : Text) → elem z (map item_id r.added) ≡ not (has z old) && has z new
    pub removed : (z : Text) → elem z (map item_id r.removed) ≡ has z old && not (has z new)
    pub changed : (z : Text) → elem z (map item_id r.changed) ≡ differ (get z old) (get z new)
    pub carried : All Carries r.added × All Carries r.removed × All Carries r.changed

  abbrev step : ResourceDiff → Text → ResourceDiff
  step out id = place_item id (get id old) (get id new) out

  abbrev is_added : Text → Bool
  is_added z = not (has z old) && has z new

  abbrev is_removed : Text → Bool
  is_removed z = has z old && not (has z new)

  abbrev is_changed : Text → Bool
  is_changed z = differ (get z old) (get z new)

  added-loop :
      (z : Text) (s : ResourceDiff) (ids : List Text)
      → elem z (map item_id (loop step s ids).added)
        ≡ elem z (map item_id s.added) || (elem z ids && is_added z)
  unfolding elem
  added-loop z s [] = ground arith
  added-loop z s (id ∷ ids) =
      let placed = place_item-Placed z id (get id old) (get id new) s in
      ground (arith, added-loop z (step s id) ids, placed.added, at_equal is_added z id)

  removed-loop :
      (z : Text) (s : ResourceDiff) (ids : List Text)
      → elem z (map item_id (loop step s ids).removed)
        ≡ elem z (map item_id s.removed) || (elem z ids && is_removed z)
  unfolding elem
  removed-loop z s [] = ground arith
  removed-loop z s (id ∷ ids) =
      let placed = place_item-Placed z id (get id old) (get id new) s in
      ground (arith, removed-loop z (step s id) ids, placed.removed, at_equal is_removed z id)

  changed-loop :
      (z : Text) (s : ResourceDiff) (ids : List Text)
      → elem z (map item_id (loop step s ids).changed)
        ≡ elem z (map item_id s.changed) || (elem z ids && is_changed z)
  unfolding elem
  changed-loop z s [] = ground arith
  changed-loop z s (id ∷ ids) =
      let placed = place_item-Placed z id (get id old) (get id new) s in
      ground (arith, changed-loop z (step s id) ids, placed.changed, at_equal is_changed z id)

  -- The ids that are compared are those of both documents.
  elem-sorted_ids : (z : Text) → elem z (sorted_ids old new) ≡ has z old || has z new
  unfolding sorted_ids
  elem-sorted_ids z =
      let union = loop add (loop add [] (keys old)) (keys new) in
      ap (elem z) (sym (map-itself (sorted_ids old new)))
      ∙ elem-map-perm itself z (sort_by-perm itself union)
      ∙ ap (elem z) (map-itself union)
      ∙ unfold elem in
        ground (
          arith,
          elem-loop (loop add [] (keys old)) (keys new) z,
          elem-loop [] (keys old) z,
          elem-keys z old,
          elem-keys z new,
        )

  abbrev AllCarry : ResourceDiff → Type 0
  AllCarry r = All Carries r.added × All Carries r.removed × All Carries r.changed

  place_item-AllCarry :
      (id : Text) (o n : Option Json) (s : ResourceDiff)
      → o ≡ get id old
      → n ≡ get id new
      → AllCarry s
      → AllCarry (place_item id o n s)
  unfolding place_item
  place_item-AllCarry id none none s p q h = h
  place_item-AllCarry id none (some b) s p q (ha, hr, hc) =
      (All-append Carries s.added _ ha ((p, q), tt), hr, hc)
  place_item-AllCarry id (some a) none s p q (ha, hr, hc) =
      (ha, All-append Carries s.removed _ hr ((p, q), tt), hc)
  place_item-AllCarry id (some a) (some b) s p q (ha, hr, hc) = elim (Bool-cases (deep_equal a b)) [
    | inl e ↦ rw e (ha, hr, hc)
    | inr e ↦ rw e (ha, hr, All-append Carries s.changed _ hc ((p, q), tt))
  ]

  -- A difference lists exactly the ids that only the new document has, those that only the old one
  -- has, and those that both have with unequal values, each with the values of the documents.
  pub diff_items-IsDiff : (name : Text) → IsDiff (diff_items name old new)
  unfolding diff_items
  diff_items-IsDiff name =
      let start : ResourceDiff = record { name = name; added = []; removed = []; changed = [] } in
      let ids = sorted_ids old new in
      record {
        added = λ z. unfold elem in ground (arith, added-loop z start ids, elem-sorted_ids z);
        removed = λ z. unfold elem in ground (arith, removed-loop z start ids, elem-sorted_ids z);
        changed = λ z.
            changed-loop z start ids
            ∙ unfold elem in in_both (elem z ids) (get z old) (get z new) (elem-sorted_ids z);
        carried =
            loop_inv AllCarry step
              (λ s id h. place_item-AllCarry id (get id old) (get id new) s refl refl h) start ids
              (tt, tt, tt);
      }
