-- ===== src/Dict/Counting.antt =====
-- The number of different texts in a list, described with no set.
use kbeacon.Prelude.{ℕ, suc, ◌≡◌, refl, List, [], ◌∷◌, arith, length, if◌then◌else◌}
use kbeacon.Text.{Text, elem, ==_iff}
use kbeacon.Dict.Sets.{Distinct, length_unique, set_of, Distinct-set_of, elem-set_of}

-- A text counts at its last occurrence.
abbrev pub distinct_count : List Text → ℕ
distinct_count [] = 0
distinct_count (x ∷ xs) = let rest = distinct_count xs in if elem x xs then rest else suc rest

last_occurrences : List Text → List Text
last_occurrences [] = []
last_occurrences (x ∷ xs) = let rest = last_occurrences xs in if elem x xs then rest else x ∷ rest

length-last_occurrences : (xs : List Text) → length (last_occurrences xs) ≡ distinct_count xs
unfolding last_occurrences
length-last_occurrences [] = refl
length-last_occurrences (x ∷ xs) = ground (arith, length-last_occurrences xs)

elem-last_occurrences : (xs : List Text) (z : Text) → elem z (last_occurrences xs) ≡ elem z xs
unfolding last_occurrences elem
elem-last_occurrences [] z = refl
elem-last_occurrences (x ∷ xs) z = ground (arith, elem-last_occurrences xs z, ==_iff x z)

Distinct-last_occurrences : (xs : List Text) → Distinct (last_occurrences xs)
unfolding last_occurrences
Distinct-last_occurrences [] = tt
Distinct-last_occurrences (x ∷ xs) =
    ground (arith, Distinct-last_occurrences xs, elem-last_occurrences xs x)

-- A set holds as many texts as differ in a list with its members.
pub length-distinct_count :
    (s xs : List Text)
    → Distinct s
    → ((z : Text) → elem z s ≡ elem z xs)
    → length s ≡ distinct_count xs
length-distinct_count s xs d same = cc (
  length_unique s (last_occurrences xs) d (Distinct-last_occurrences xs)
      (λ z. ground (arith, same z, elem-last_occurrences xs z)),
  length-last_occurrences xs,
)

pub length-set_of : (xs : List Text) → length (set_of xs) ≡ distinct_count xs
length-set_of xs = length-distinct_count (set_of xs) xs (Distinct-set_of xs) (elem-set_of xs)

-- Lists with the same members have as many different texts.
pub distinct_count_same :
    (xs ys : List Text)
    → ((z : Text) → elem z xs ≡ elem z ys)
    → distinct_count xs ≡ distinct_count ys
distinct_count_same xs ys same = cc (
  length-set_of xs,
  length-distinct_count (set_of xs) ys (Distinct-set_of xs)
      (λ z. ground (arith, same z, elem-set_of xs z)),
)
