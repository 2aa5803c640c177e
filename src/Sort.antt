-- ===== src/Sort.antt =====
-- `sort.Slice` and `sort.Strings` by a string key. Where the keys differ, every sorting algorithm
-- gives the list that insertion gives.
use mathlib.Core.List.{Permᴰ}
use mathlib.Core.List.Permᴰ
use kbeacon.Prelude.{
  ◌≡◌, refl, true, false, List, [], ◌∷◌, arith, if◌then◌else◌, Bool-cases, inl, inr, All,
}
use kbeacon.Rearrange.{All-perm}
use kbeacon.Text.{Text, text_ltb, text_ltb_trans, text_ltb_irrefl}

module _ {ℓ} {A : Type ℓ} (key : A → Text) where
  unfoldable pub insert_by : A → List A → List A
  insert_by x [] = x ∷ []
  insert_by x (y ∷ ys) =
      let rest = insert_by x ys in if text_ltb (key x) (key y) then x ∷ y ∷ ys else y ∷ rest

  unfoldable pub sort_by : List A → List A
  unfolding insert_by
  sort_by [] = []
  sort_by (x ∷ xs) = insert_by x (sort_by xs)

  -- No later element has a smaller key.
  abbrev pub NotBefore : A → A → Type 0
  NotBefore x y = text_ltb (key y) (key x) ≡ false

  abbrev pub IsSorted : List A → Type 0
  IsSorted [] = Unit
  IsSorted (x ∷ xs) = All (NotBefore x) xs × IsSorted xs

  insert_by-perm : (x : A) (ys : List A) → Permᴰ (insert_by x ys) (x ∷ ys)
  unfolding insert_by
  insert_by-perm x [] = Permᴰ.refl _
  insert_by-perm x (y ∷ ys) = elim (Bool-cases (text_ltb (key x) (key y))) [
    | inl h ↦ rw h (Permᴰ.refl _)
    | inr h ↦ rw h (Permᴰ.trans (Permᴰ.cons refl (insert_by-perm x ys)) (Permᴰ.swap refl refl))
  ]

  pub sort_by-perm : (xs : List A) → Permᴰ (sort_by xs) xs
  unfolding sort_by
  sort_by-perm [] = Permᴰ.nil
  sort_by-perm (x ∷ xs) =
      Permᴰ.trans (insert_by-perm x (sort_by xs)) (Permᴰ.cons refl (sort_by-perm xs))

  NotBefore-lt : (x y z : A) → text_ltb (key x) (key y) ≡ true → NotBefore y z → NotBefore x z
  NotBefore-lt x y z h k = elim (Bool-cases (text_ltb (key z) (key x))) [
    | inl b ↦ absurd (ground (arith, text_ltb_trans (key z) (key x) (key y)))
    | inr b ↦ b
  ]

  All-NotBefore :
      (x y : A) (ys : List A)
      → text_ltb (key x) (key y) ≡ true
      → All (NotBefore y) ys
      → All (NotBefore x) ys
  All-NotBefore x y [] h _ = tt
  All-NotBefore x y (z ∷ ys) h (k, ks) = (NotBefore-lt x y z h k, All-NotBefore x y ys h ks)

  lt_asymm : (x y : A) → text_ltb (key x) (key y) ≡ true → NotBefore x y
  lt_asymm x y h = elim (Bool-cases (text_ltb (key y) (key x))) [
    | inl b ↦
        absurd (ground (arith, text_ltb_trans (key x) (key y) (key x), text_ltb_irrefl (key x)))
    | inr b ↦ b
  ]

  insert_by-IsSorted : (x : A) (ys : List A) → IsSorted ys → IsSorted (insert_by x ys)
  unfolding insert_by
  insert_by-IsSorted x [] h = (tt, tt)
  insert_by-IsSorted x (y ∷ ys) (h, hs) = elim (Bool-cases (text_ltb (key x) (key y))) [
    | inl b ↦ rw b ((lt_asymm x y b, All-NotBefore x y ys b h), (h, hs))
    | inr b ↦ rw b (All-perm (NotBefore y) (insert_by-perm x ys) (b, h), insert_by-IsSorted x ys hs)
  ]

  pub sort_by-IsSorted : (xs : List A) → IsSorted (sort_by xs)
  unfolding sort_by
  sort_by-IsSorted [] = tt
  sort_by-IsSorted (x ∷ xs) = insert_by-IsSorted x (sort_by xs) (sort_by-IsSorted xs)
