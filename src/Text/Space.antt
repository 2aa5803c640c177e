-- ===== src/Text/Space.antt =====
-- `strings.ToLower`, `strings.TrimSpace` and `strings.EqualFold` on ASCII texts.
use kbeacon.Prelude.{
  ℕ, ◌+◌, ◌≡◌, ◌≢◌, refl, Bool, true, false, ◌&&◌, ◌||◌, [], ◌∷◌, arith, leb, eqb, if◌then◌else◌,
  All, Bool-cases, inl, inr,
}
use kbeacon.Text.Basic.{Text, ◌==◌}

unfoldable pub lower_byte : ℕ → ℕ
lower_byte c = if leb b'A' c && leb c b'Z' then c + 32 else c

unfoldable pub to_lower : Text → Text
unfolding lower_byte
to_lower [] = []
to_lower (c ∷ s) = lower_byte c ∷ to_lower s

unfoldable pub is_space : ℕ → Bool
is_space c = eqb c 32 || (leb 9 c && leb c 13)

unfoldable pub trim_left : Text → Text
unfolding is_space
trim_left [] = []
trim_left (c ∷ s) = let rest = trim_left s in if is_space c then rest else c ∷ s

abbrev pub cons_unless_blank : ℕ → Text → Text
unfolding is_space
cons_unless_blank c [] = if is_space c then [] else c ∷ []
cons_unless_blank c (d ∷ s) = c ∷ d ∷ s

unfoldable pub trim_right : Text → Text
trim_right [] = []
trim_right (c ∷ s) = cons_unless_blank c (trim_right s)

unfoldable pub trim_space : Text → Text
unfolding trim_left trim_right
trim_space s = trim_right (trim_left s)

-- On ASCII texts simple folding and lower case agree.
unfoldable pub equal_fold : Text → Text → Bool
equal_fold s t = to_lower s == to_lower t

lower_byte_idem : (c : ℕ) → lower_byte (lower_byte c) ≡ lower_byte c
unfolding lower_byte
lower_byte_idem c = ground arith

pub to_lower_idem : (s : Text) → to_lower (to_lower s) ≡ to_lower s
unfolding to_lower
to_lower_idem [] = refl
to_lower_idem (c ∷ s) = ground (arith, lower_byte_idem c, to_lower_idem s)

trim_right-same : (s : Text) → All (λ b. is_space b ≡ false) s → trim_right s ≡ s
unfolding trim_right is_space
trim_right-same [] h = refl
trim_right-same (c ∷ []) (e, h) = rw e refl
trim_right-same (c ∷ d ∷ s) (e, h) = rw (trim_right-same (d ∷ s) h) refl

-- A text without blanks is left as it is.
pub trim_space-same : (s : Text) → All (λ b. is_space b ≡ false) s → trim_space s ≡ s
unfolding trim_space
trim_space-same [] h = refl
trim_space-same (c ∷ s) (e, h) = rw e (trim_right-same (c ∷ s) (e, h))

cons_unless_blank-filled : (c : ℕ) (t : Text) → is_space c ≡ false → cons_unless_blank c t ≢ []
unfolding is_space
cons_unless_blank-filled c [] e = λ h. ground arith
cons_unless_blank-filled c (d ∷ t) e = λ h. cc

trim_right-filled : (c : ℕ) (s : Text) → is_space c ≡ false → trim_right (c ∷ s) ≢ []
unfolding trim_right
trim_right-filled c s e = cons_unless_blank-filled c (trim_right s) e

-- Only blanks are trimmed to nothing.
pub blank_of_trim_space : (s : Text) → trim_space s ≡ [] → All (λ b. is_space b ≡ true) s
unfolding trim_space
blank_of_trim_space [] h = tt
blank_of_trim_space (c ∷ s) h = elim (Bool-cases (is_space c)) [
  | inl e ↦ (e, blank_of_trim_space s (rw e at h))
  | inr e ↦ absurd (trim_right-filled c s e (rw e at h))
]
