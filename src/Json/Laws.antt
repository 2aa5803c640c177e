-- ===== src/Json/Laws.antt =====
-- A document in which no object has a key twice is equal to itself.
use kbeacon.Prelude.{◌≡◌, refl, Bool, true, false, none, some, arith, Bool-cases, inl, inr}
use kbeacon.Text.{Text, ◌==◌, ==_iff, ==_refl}
use kbeacon.Json.{
  Json, null, bool, num, text, arr, obj, Items, nil, cons, Fields, end, field, get_field, same_bool,
  deep_equal, deep_equal_items, deep_equal_fields,
}

-- No key stands twice in any object of the document.
unfoldable mutual
  pub IsKeyed : Json → Type 0
  IsKeyed (arr xs) = ItemsKeyed xs
  IsKeyed (obj fs) = FieldsKeyed fs
  IsKeyed _ = Unit

  pub ItemsKeyed : Items → Type 0
  ItemsKeyed nil = Unit
  ItemsKeyed (cons x xs) = IsKeyed x × ItemsKeyed xs

  pub FieldsKeyed : Fields → Type 0
  FieldsKeyed end = Unit
  FieldsKeyed (field k v fs) = (get_field k fs ≡ none) × IsKeyed v × FieldsKeyed fs

-- Every field of a map is found, as it is, in a second map.
abbrev Within : Fields → Fields → Type 0
Within end gs = Unit
Within (field k v fs) gs = (get_field k gs ≡ some v) × Within fs gs

Within-field :
    (k : Text) (v : Json) (fs gs : Fields)
    → get_field k fs ≡ none
    → Within fs gs
    → Within fs (field k v gs)
unfolding get_field
Within-field k v end gs h w = tt
Within-field k v (field j x fs) gs h (at, w) = elim (Bool-cases (k == j)) [
  | inl e ↦ ground (arith, ==_iff k j, ==_iff j k)
  | inr e ↦ elim (Bool-cases (j == k)) [
    | inl e' ↦ absurd (ground arith)
    | inr e' ↦ (rw e at, Within-field k v fs gs (rw e' at h) w)
  ]
]

Within-refl : (fs : Fields) → FieldsKeyed fs → Within fs fs
unfolding get_field FieldsKeyed
Within-refl end h = tt
Within-refl (field k v fs) (fresh, _, h) =
    (rw (==_refl k), Within-field k v fs fs fresh (Within-refl fs h))

same_bool_refl : (b : Bool) → same_bool b b ≡ true
same_bool_refl true = refl
same_bool_refl false = refl

mutual
  unfolding deep_equal IsKeyed

  deep_equal_self : (v : Json) → IsKeyed v → deep_equal v v ≡ true
  deep_equal_self null h = refl
  deep_equal_self (bool b) h = same_bool_refl b
  deep_equal_self (num n) h = ground arith
  deep_equal_self (text t) h = ==_refl t
  deep_equal_self (arr xs) h = deep_equal_items_self xs h
  deep_equal_self (obj fs) h = ground (arith, deep_equal_fields_self fs fs h (Within-refl fs h))

  deep_equal_items_self : (xs : Items) → ItemsKeyed xs → deep_equal_items xs xs ≡ true
  deep_equal_items_self nil h = refl
  deep_equal_items_self (cons x xs) (hx, hxs) =
      ground (arith, deep_equal_self x hx, deep_equal_items_self xs hxs)

  deep_equal_fields_self :
      (fs gs : Fields) → FieldsKeyed fs → Within fs gs → deep_equal_fields fs gs ≡ true
  deep_equal_fields_self end gs h w = refl
  deep_equal_fields_self (field k v fs) gs (_, hv, h) (at, w) =
      rw at (ground (arith, deep_equal_self v hv, deep_equal_fields_self fs gs h w))

-- A value in which no object has a key twice is equal to itself.
pub deep_equal_refl : (v : Json) → IsKeyed v → deep_equal v v ≡ true
deep_equal_refl v h = deep_equal_self v h
