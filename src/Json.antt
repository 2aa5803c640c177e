-- ===== src/Json.antt =====
-- Decoded JSON documents, as `encoding/json` gives them for the type any, and `reflect.DeepEqual`.
pub mod Laws
use kbeacon.Prelude.{
  ℕ, suc, Bool, true, false, ◌&&◌, Option, none, some, List, [], ◌∷◌, eqb, if◌then◌else◌,
}
use kbeacon.Text.{Text, ◌==◌}

-- A number stands for a float64; the two zeros, which are equal, are one number. An object is a Go
-- map: no key stands twice.
mutual
  pub data Json : Type 0 where
    null : Json
    bool : Bool → Json
    num : ℕ → Json
    text : Text → Json
    arr : Items → Json
    obj : Fields → Json

  pub data Items : Type 0 where
    nil : Items
    cons : Json → Items → Items

  pub data Fields : Type 0 where
    end : Fields
    field : Text → Json → Fields → Fields

-- `value, ok := m[key]`
unfoldable pub get_field : Text → Fields → Option Json
get_field key end = none
get_field key (field k v fs) = if k == key then some v else get_field key fs

abbrev pub count_fields : Fields → ℕ
count_fields end = 0
count_fields (field k v fs) = suc (count_fields fs)

unfoldable pub to_list : Items → List Json
to_list nil = []
to_list (cons v vs) = v ∷ to_list vs

abbrev pub same_bool : Bool → Bool → Bool
same_bool true b = b
same_bool false true = false
same_bool false false = true

abbrev pub found_and : Option Json → (Json → Bool) → Bool
found_and none test = false
found_and (some w) test = test w

unfoldable mutual
  pub deep_equal : Json → Json → Bool
  deep_equal null null = true
  deep_equal (bool a) (bool b) = same_bool a b
  deep_equal (num a) (num b) = eqb a b
  deep_equal (text a) (text b) = a == b
  deep_equal (arr xs) (arr ys) = deep_equal_items xs ys
  deep_equal (obj fs) (obj gs) = eqb (count_fields fs) (count_fields gs) && deep_equal_fields fs gs
  deep_equal _ _ = false

  pub deep_equal_items : Items → Items → Bool
  deep_equal_items nil nil = true
  deep_equal_items (cons x xs) (cons y ys) = deep_equal x y && deep_equal_items xs ys
  deep_equal_items _ _ = false

  -- Every field of the first map is in the second, with an equal value.
  pub deep_equal_fields : Fields → Fields → Bool
  deep_equal_fields end gs = true
  deep_equal_fields (field k v fs) gs =
      found_and (get_field k gs) (deep_equal v) && deep_equal_fields fs gs
