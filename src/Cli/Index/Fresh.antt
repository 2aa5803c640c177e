-- ===== src/Cli/Index/Fresh.antt =====
-- The loop over collisions ends at an id that is not taken, so no value is lost.
use mathlib.Core.List.{append_cancel_left}
use kbeacon.Prelude.{
  ℕ, zero, suc, ◌+◌, ◌≤◌, ◌<◌, ◌≡◌, refl, sym, ap, ◌∙◌, true, false, List, [], ◌∷◌, ◌++◌, arith,
  length, length-append, append-nil, append_assoc, Bool-cases, inl, inr,
}
use kbeacon.Text.{Text, str, ◌==◌, ==_iff, elem, decimal, decimal_injective}
use kbeacon.Dict.{Dict, get, put, has, keys, values, Unique, Unique-put}
use kbeacon.Dict.Sets.{Distinct, length_mono}
use kbeacon.Json.{Json}
use kbeacon.Cli.Document.{snapshot_item_id}
use kbeacon.Cli.Index.{numbered, free_id, or_position, index_item, index_from, index_snapshot_items}

numbered_injective : (o : Text) (a b : ℕ) → numbered o a ≡ numbered o b → a ≡ b
unfolding numbered
numbered_injective o a b e =
    decimal_injective a b (append_cancel_left (str "#") _ _ (append_cancel_left o _ _ e))

numbered-ne : (o : Text) (c : ℕ) → o == numbered o c ≡ false
unfolding numbered
numbered-ne o c = elim (Bool-cases (o == numbered o c)) [
  | inl e ↦
      let longer = ap length ((==_iff o (numbered o c)).0 e) in
      absurd (omega (arith, longer, length-append o (str "#" ++ decimal c)))
  | inr e ↦ e
]

-- The numbered ids that the loop tries, from a number on.
tried : Text → ℕ → ℕ → List Text
tried o c zero = []
tried o c (suc n) = numbered o c ∷ tried o (c + 1) n

elem-tried : (o : Text) (a c n : ℕ) → a < c → elem (numbered o a) (tried o c n) ≡ false
unfolding elem tried
elem-tried o a c zero h = refl
elem-tried o a c (suc n) h = elim (Bool-cases (numbered o c == numbered o a)) [
  | inl e ↦
      let same = numbered_injective o c a ((==_iff (numbered o c) (numbered o a)).0 e) in
      absurd (omega arith)
  | inr e ↦ rw e (elem-tried o a (c + 1) n (omega arith))
]

original-tried : (o : Text) (c n : ℕ) → elem o (tried o c n) ≡ false
unfolding elem tried
original-tried o c zero = refl
original-tried o c (suc n) = ground (
  arith,
  original-tried o (c + 1) n,
  numbered-ne o c,
  ==_iff (numbered o c) o,
  ==_iff o (numbered o c),
)

tried-Distinct : (o : Text) (c n : ℕ) → Distinct (tried o c n)
unfolding tried
tried-Distinct o c zero = tt
tried-Distinct o c (suc n) = (elem-tried o c (c + 1) n (omega arith), tried-Distinct o (c + 1) n)

length-tried : (o : Text) (c n : ℕ) → length (tried o c n) ≡ n
unfolding tried
length-tried o c zero = refl
length-tried o c (suc n) = ap suc (length-tried o (c + 1) n)

-- If the loop ends at a taken id, every id that it tried is taken.
free_id-taken :
    (fuel : ℕ) (m : Dict Json) (o id : Text) (c : ℕ)
    → has (free_id fuel m o c id) m ≡ true
    → (z : Text) → elem z (id ∷ tried o c fuel) ≡ true
    → has z m ≡ true
unfolding free_id elem tried
free_id-taken zero m o id c h z e = let same = (==_iff id z).0 (ground arith) in ground arith
free_id-taken (suc fuel) m o id c h z e = elim (Bool-cases (has id m)) [
  | inl taken ↦
      let rest = free_id-taken fuel m o (numbered o c) (c + 1) (rw taken at h) z in
      elim (Bool-cases (id == z)) [
        | inl here ↦ let same = (==_iff id z).0 here in ground arith
        | inr there ↦ rest (rw there at e)
      ]
  | inr free ↦ absurd (ground arith)
]

pub elem-keys : (z : Text) (m : Dict Json) → elem z (keys m) ≡ has z m
unfolding elem keys get
elem-keys z [] = refl
elem-keys z ((k, v) ∷ m) = ground (arith, elem-keys z m)

pub length-keys : (m : Dict Json) → length (keys m) ≡ length m
unfolding keys
length-keys [] = refl
length-keys ((k, v) ∷ m) = ap suc (length-keys m)

-- With a round for each taken id, the loop ends at an id that is not taken.
free_id-free : (m : Dict Json) (o : Text) → has (free_id (length m) m o 2 o) m ≡ false
free_id-free m o = elim (Bool-cases (has (free_id (length m) m o 2 o) m)) [
  | inl taken ↦
      let all = free_id-taken (length m) m o o 2 taken in
      let more : suc (length (tried o 2 (length m))) ≤ length (keys m) =
        length_mono (o ∷ tried o 2 (length m)) (keys m)
          (original-tried o 2 (length m), tried-Distinct o 2 (length m))
          (λ z h. elem-keys z m ∙ all z h) in
      absurd (omega (arith, length-tried o 2 (length m), length-keys m))
  | inr free ↦ free
]

put-fresh :
    (k : Text) (v : Json) (m : Dict Json)
    → has k m ≡ false
    → values (put k v m) ≡ values m ++ v ∷ []
unfolding put values get
put-fresh k v [] h = refl
put-fresh k v ((j, w) ∷ m) h = ground (arith, put-fresh k v m)

index_from-values :
    (resource : Text) (sprint : Json → Text) (i : ℕ) (m : Dict Json) (vs : List Json)
    → Unique m
    → (values (index_from resource sprint i m vs) ≡ values m ++ vs)
      × Unique (index_from resource sprint i m vs)
unfolding index_from index_item
index_from-values resource sprint i m [] u = (sym (append-nil (values m)), u)
index_from-values resource sprint i m (v ∷ vs) u =
    let id = or_position resource i (snapshot_item_id sprint resource v) in
    let k = free_id (length m) m id 2 id in
    let (same, unique) =
      index_from-values resource sprint (i + 1) (put k v m) vs (Unique-put k v m u) in
    (
      same
          ∙ ap (λ l. l ++ vs) (put-fresh k v m (free_id-free m id))
          ∙ append_assoc (values m) (v ∷ []) vs,
      unique,
    )

-- The index of a list of values holds each of them once, in order, each under an id of its own, also
-- where several values have one id.
pub values-index_snapshot_items :
    (sprint : Json → Text) (resource : Text) (vs : List Json)
    → (values (index_snapshot_items sprint resource vs) ≡ vs)
      × Unique (index_snapshot_items sprint resource vs)
unfolding index_snapshot_items
values-index_snapshot_items sprint resource vs =
    unfold values in index_from-values resource sprint 0 [] vs tt
