-- ===== src/Dict/Sets.antt =====
-- Go sets `map[string]struct{}`: lists of distinct texts. The size of such a set is determined by
-- its members.
use kbeacon.Prelude.{
  suc, ◌≤◌, ◌≡◌, refl, true, false, ◌||◌, List, [], ◌∷◌, arith, length, if◌then◌else◌, Bool-cases,
  inl, inr, loop,
}
use kbeacon.Text.{Text, ◌==◌, ==_iff, elem}

-- `set[x] = struct{}{}`
unfoldable pub add : List Text → Text → List Text
add [] x = x ∷ []
add (y ∷ ys) x = let rest = add ys x in if y == x then y ∷ ys else y ∷ rest

abbrev pub Distinct : List Text → Type 0
Distinct [] = Unit
Distinct (x ∷ xs) = (elem x xs ≡ false) × Distinct xs

pub elem-add : (xs : List Text) (x y : Text) → elem y (add xs x) ≡ elem y xs || x == y
unfolding elem add
elem-add [] x y = ground arith
elem-add (z ∷ xs) x y = ground (arith, elem-add xs x y, ==_iff z x, ==_iff z y, ==_iff x y)

pub Distinct-add : (xs : List Text) (x : Text) → Distinct xs → Distinct (add xs x)
unfolding add
Distinct-add [] x h = unfold elem in (refl, tt)
Distinct-add (z ∷ xs) x (fresh, h) =
    ground (arith, elem-add xs x z, ==_iff z x, ==_iff x z, Distinct-add xs x h)

-- The set of the members of a list.
unfoldable pub set_of : List Text → List Text
set_of xs = loop add [] xs

Distinct-loop : (s xs : List Text) → Distinct s → Distinct (loop add s xs)
Distinct-loop s [] h = h
Distinct-loop s (x ∷ xs) h = Distinct-loop (add s x) xs (Distinct-add s x h)

pub elem-loop : (s xs : List Text) (y : Text) → elem y (loop add s xs) ≡ elem y s || elem y xs
unfolding elem
elem-loop s [] y = ground arith
elem-loop s (x ∷ xs) y = ground (arith, elem-loop (add s x) xs y, elem-add s x y)

pub Distinct-set_of : (xs : List Text) → Distinct (set_of xs)
unfolding set_of
Distinct-set_of xs = Distinct-loop [] xs tt

pub elem-set_of : (xs : List Text) (y : Text) → elem y (set_of xs) ≡ elem y xs
unfolding set_of
elem-set_of xs y = unfold elem in elem-loop [] xs y

remove : Text → List Text → List Text
remove x [] = []
remove x (y ∷ ys) = let rest = remove x ys in if y == x then ys else y ∷ rest

length-remove :
    (x : Text) (ys : List Text) → elem x ys ≡ true → length ys ≡ suc (length (remove x ys))
unfolding elem remove
length-remove x [] h = ground arith
length-remove x (y ∷ ys) h = ground (arith, length-remove x ys)

elem-remove : (x z : Text) (ys : List Text) → z == x ≡ false → elem z (remove x ys) ≡ elem z ys
unfolding elem remove
elem-remove x z [] h = refl
elem-remove x z (y ∷ ys) h = ground (arith, elem-remove x z ys, ==_iff y x, ==_iff y z, ==_iff z x)

ne_of_elem : (x z : Text) (xs : List Text) → elem x xs ≡ false → elem z xs ≡ true → z == x ≡ false
ne_of_elem x z xs h k = elim (Bool-cases (z == x)) [
  | inl e ↦ ground (arith, ==_iff z x)
  | inr e ↦ e
]

-- A set is no larger than one that holds its members.
pub length_mono :
    (xs ys : List Text)
    → Distinct xs
    → ((z : Text) → elem z xs ≡ true → elem z ys ≡ true)
    → length xs ≤ length ys
length_mono [] ys d sub = omega arith
length_mono (x ∷ xs) ys (fresh, d) sub = omega (
  arith,
  length-remove x ys (sub x (unfold elem in ground (arith, ==_iff x x))),
  length_mono xs (remove x ys) d (λ z h.
      rw (elem-remove x z ys (ne_of_elem x z xs fresh h)) (sub z (unfold elem in ground arith))),
)

-- Two sets with the same members have one size.
pub length_unique :
    (xs ys : List Text)
    → Distinct xs
    → Distinct ys
    → ((z : Text) → elem z xs ≡ elem z ys)
    → length xs ≡ length ys
length_unique xs ys dx dy same = omega (
  arith,
  length_mono xs ys dx (λ z h. ground (arith, same z)),
  length_mono ys xs dy (λ z h. ground (arith, same z)),
)
