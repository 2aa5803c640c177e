-- ===== src/Prelude/Lists.antt =====
-- Lists measured by native numbers, and predicates and loops over lists.
use Prim.Native.Nat.{ℕ, zero, suc, ◌+◌, ◌-◌, min}
use mathlib.Core.Path.{◌≡◌, refl, ap}
use mathlib.Core.Logic.{◌⊎◌, inl, inr}
use mathlib.Core.Bool.{Bool}
use mathlib.Core.List.{List, [], ◌∷◌, ◌++◌}
use native.Mathlib.Omega.{arith}
use kbeacon.Prelude.Tests.{if◌then◌else◌}

module _ {ℓ} {A : Type ℓ} where
  abbrev pub length : List A → ℕ
  length [] = 0
  length (x ∷ xs) = suc (length xs)

  pub length-append : (xs ys : List A) → length (xs ++ ys) ≡ length xs + length ys
  length-append [] ys = omega arith
  length-append (x ∷ xs) ys = omega (arith, length-append xs ys)

  abbrev pub take : ℕ → List A → List A
  take zero xs = []
  take (suc n) [] = []
  take (suc n) (x ∷ xs) = x ∷ take n xs

  abbrev pub drop : ℕ → List A → List A
  drop zero xs = xs
  drop (suc n) [] = []
  drop (suc n) (x ∷ xs) = drop n xs

  pub length-take : (n : ℕ) (xs : List A) → length (take n xs) ≡ min n (length xs)
  length-take zero xs = omega arith
  length-take (suc n) [] = omega arith
  length-take (suc n) (x ∷ xs) = omega (arith, length-take n xs)

  pub length-drop : (n : ℕ) (xs : List A) → length (drop n xs) ≡ length xs - n
  length-drop zero xs = omega arith
  length-drop (suc n) [] = omega arith
  length-drop (suc n) (x ∷ xs) = omega (arith, length-drop n xs)

  pub take-append-drop : (n : ℕ) (xs : List A) → take n xs ++ drop n xs ≡ xs
  take-append-drop zero xs = refl
  take-append-drop (suc n) [] = refl
  take-append-drop (suc n) (x ∷ xs) = ap (λ l. x ∷ l) (take-append-drop n xs)

  -- The elements that pass a test, in order.
  abbrev pub keep : (A → Bool) → List A → List A
  keep p [] = []
  keep p (x ∷ xs) = let rest = keep p xs in if p x then x ∷ rest else rest

-- A loop over a list that updates a state.
abbrev pub loop {ℓ κ} : {A : Type ℓ} {S : Type κ} → (S → A → S) → S → List A → S
loop f s [] = s
loop f s (x ∷ xs) = loop f (f s x) xs

pub loop-append {ℓ κ} :
    {A : Type ℓ} {S : Type κ} (f : S → A → S) (s : S) (xs ys : List A)
    → loop f s (xs ++ ys) ≡ loop f (loop f s xs) ys
loop-append f s [] ys = refl
loop-append f s (x ∷ xs) ys = loop-append f (f s x) xs ys

-- What every step keeps, the loop keeps.
pub loop_inv {ℓ κ μ} :
    {A : Type ℓ} {S : Type κ} (P : S → Type μ) (f : S → A → S)
    → ((s : S) (x : A) → P s → P (f s x))
    → (s : S) (xs : List A) → P s
    → P (loop f s xs)
loop_inv P f step s [] h = h
loop_inv P f step s (x ∷ xs) h = loop_inv P f step (f s x) xs (step s x h)

module _ {ℓ κ} {A : Type ℓ} (P : A → Type κ) where
  abbrev pub All : List A → Type κ
  All [] = Unit
  All (x ∷ xs) = P x × All xs

  pub All-append : (xs ys : List A) → All xs → All ys → All (xs ++ ys)
  All-append [] ys _ hy = hy
  All-append (x ∷ xs) ys (px, hx) hy = (px, All-append xs ys hx hy)

-- The same, where every element of the list meets a condition.
pub loop_inv-All {ℓ κ μ ν} :
    {A : Type ℓ} {S : Type κ} (P : S → Type μ) (Q : A → Type ν) (f : S → A → S)
    → ((s : S) (x : A) → P s → Q x → P (f s x))
    → (s : S) (xs : List A) → P s
    → All Q xs
    → P (loop f s xs)
loop_inv-All P Q f step s [] h _ = h
loop_inv-All P Q f step s (x ∷ xs) h (q, qs) = loop_inv-All P Q f step (f s x) xs (step s x h q) qs

module _ {ℓ κ} {A : Type ℓ} (P : A → Type κ) where
  -- Some element has the property.
  pub data Any : List A → Type (ℓ ⊔ κ) where
    here : {x : A} {xs : List A} → P x → Any (x ∷ xs)
    there : {x : A} {xs : List A} → Any xs → Any (x ∷ xs)

module _ {ℓ κ} {A : Type ℓ} {P : A → Type κ} where
  pub Any-left : {xs : List A} (ys : List A) → Any P xs → Any P (xs ++ ys)
  Any-left ys (here p) = here p
  Any-left ys (there a) = there (Any-left ys a)

  pub Any-right : (xs : List A) {ys : List A} → Any P ys → Any P (xs ++ ys)
  Any-right [] a = a
  Any-right (x ∷ xs) a = there (Any-right xs a)

  pub Any-split : (xs : List A) {ys : List A} → Any P (xs ++ ys) → Any P xs ⊎ Any P ys
  Any-split [] a = inr a
  Any-split (x ∷ xs) (here p) = inl (here p)
  Any-split (x ∷ xs) (there a) = elim (Any-split xs a) [ inl b ↦ inl (there b) | inr b ↦ inr b ]

  pub not-Any-nil : Any P [] → ⊥
  not-Any-nil a = elim a [ ]

  pub Any-one : {x : A} → Any P (x ∷ []) → P x
  Any-one (here p) = p
  Any-one (there a) = absurd (not-Any-nil a)
