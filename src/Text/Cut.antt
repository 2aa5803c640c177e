-- ===== src/Text/Cut.antt =====
-- `strings.Split`, `strings.Index` at one byte, `strings.Join`, prefixes and `strings.Trim`.
use kbeacon.Prelude.{
  ℕ, ◌≡◌, refl, Bool, false, List, [], ◌∷◌, ◌++◌, Option, none, some, arith, eqb, if◌then◌else◌,
  ◌||◌,
}
use kbeacon.Text.Basic.{Text}

abbrev pub cons_head : ℕ → List Text → List Text
cons_head c [] = (c ∷ []) ∷ []
cons_head c (p ∷ ps) = (c ∷ p) ∷ ps

unfoldable pub split : ℕ → Text → List Text
split sep [] = [] ∷ []
split sep (c ∷ s) = let rest = split sep s in if eqb c sep then [] ∷ rest else cons_head c rest

abbrev pub after_byte : ℕ → Option (Text × Text) → Option (Text × Text)
after_byte c none = none
after_byte c (some (l, r)) = some (c ∷ l, r)

-- `if i := strings.Index(s, sep); i >= 0` with the two slices `s[:i]` and `s[i+1:]`.
unfoldable pub cut : ℕ → Text → Option (Text × Text)
cut sep [] = none
cut sep (c ∷ s) = let rest = cut sep s in if eqb c sep then some ([], s) else after_byte c rest

-- `strings.Contains` for one byte.
unfoldable pub has_byte : ℕ → Text → Bool
has_byte b [] = false
has_byte b (c ∷ s) = eqb c b || has_byte b s

unfoldable pub join : Text → List Text → Text
join sep [] = []
join sep (p ∷ []) = p
join sep (p ∷ q ∷ ps) = p ++ (sep ++ join sep (q ∷ ps))

-- `strings.TrimPrefix`: `none` where the prefix is absent.
unfoldable pub strip_prefix : Text → Text → Option Text
strip_prefix [] s = some s
strip_prefix (p ∷ ps) [] = none
strip_prefix (p ∷ ps) (c ∷ s) = let rest = strip_prefix ps s in if eqb p c then rest else none

-- The first occurrence of the separator decides both parts.
pub cut-append :
    (sep : ℕ) (l r : Text) → has_byte sep l ≡ false → cut sep (l ++ sep ∷ r) ≡ some (l, r)
unfolding cut has_byte
cut-append sep [] r h = ground arith
cut-append sep (c ∷ l) r h = ground (arith, cut-append sep l r)

pub cut-eq-none : (sep : ℕ) (s : Text) → has_byte sep s ≡ false → cut sep s ≡ none
unfolding cut has_byte
cut-eq-none sep [] h = refl
cut-eq-none sep (c ∷ s) h = ground (arith, cut-eq-none sep s)

-- What was cut spells the text again, and the left part holds no separator.
pub cut_sound :
    (sep : ℕ) (s l r : Text)
    → cut sep s ≡ some (l, r)
    → (s ≡ l ++ sep ∷ r) × (has_byte sep l ≡ false)
unfolding cut has_byte
cut_sound sep [] l r h = ground arith
cut_sound sep (c ∷ s) l r h = go (cut sep s) (λ l' r'. cut_sound sep s l' r') h
  where
    go :
        (o : Option (Text × Text))
        → ((l' r' : Text) → o ≡ some (l', r') → (s ≡ l' ++ sep ∷ r') × (has_byte sep l' ≡ false))
        → (if eqb c sep then some ([], s) else after_byte c o) ≡ some (l, r)
        → (c ∷ s ≡ l ++ sep ∷ r) × (has_byte sep l ≡ false)
    go none ih e = ground arith
    go (some (l', r')) ih e = ground (arith, ih l' r' refl)

-- Nothing is cut only where there is no separator.
pub Lacks_of_cut : (sep : ℕ) (s : Text) → cut sep s ≡ none → has_byte sep s ≡ false
unfolding cut has_byte
Lacks_of_cut sep [] h = refl
Lacks_of_cut sep (c ∷ s) h = go (cut sep s) (Lacks_of_cut sep s) h
  where
    go :
        (o : Option (Text × Text))
        → (o ≡ none → has_byte sep s ≡ false)
        → (if eqb c sep then some ([], s) else after_byte c o) ≡ none
        → (eqb c sep || has_byte sep s) ≡ false
    go none ih e = ground arith
    go (some (l, r)) ih e = ground arith
