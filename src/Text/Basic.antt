-- ===== src/Text/Basic.antt =====
-- Equality of Go strings, and membership in lists of them.
use Prim.Native.Char.{code}
use Prim.Native.String.{String}
use kbeacon.Prelude.{ℕ, ◌≡◌, refl, ◌↔◌, Bool, true, false, ◌&&◌, ◌||◌, List, [], ◌∷◌, arith, eqb}

-- A Go string is a sequence of bytes.
abbrev pub Text : Type 0
Text = List ℕ

-- The bytes of an ASCII literal.
abbrev pub str : String → Text
str String.[] = []
str (String.◌∷◌ c s) = code c ∷ str s

infix 50 ◌==◌
unfoldable pub ◌==◌ : Text → Text → Bool
[] == [] = true
(a ∷ s) == (b ∷ t) = eqb a b && s == t
_ == _ = false

==→eq : (s t : Text) → s == t ≡ true → s ≡ t
unfolding ◌==◌
==→eq [] [] h = refl
==→eq [] (b ∷ t) h = ground arith
==→eq (a ∷ s) [] h = ground arith
==→eq (a ∷ s) (b ∷ t) h = ground (arith, ==→eq s t)

pub ==_refl : (s : Text) → s == s ≡ true
unfolding ◌==◌
==_refl [] = refl
==_refl (a ∷ s) = ground (arith, ==_refl s)

eq→== : (s t : Text) → s ≡ t → s == t ≡ true
eq→== s t h = rw h (==_refl t)

pub ==_iff : (s t : Text) → (s == t ≡ true) ↔ (s ≡ t)
==_iff s t = (==→eq s t, eq→== s t)

unfoldable pub elem : Text → List Text → Bool
elem x [] = false
elem x (y ∷ ys) = y == x || elem x ys
