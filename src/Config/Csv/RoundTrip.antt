-- ===== src/Config/Csv/RoundTrip.antt =====
-- A list of names that was joined with commas is read back.
use kbeacon.Prelude.{
  ℕ, suc, ◌≡◌, ◌≢◌, ◌≤◌, refl, ap, ◌∙◌, false, List, [], ◌∷◌, ◌++◌, length, arith, All, Bool-cases,
  inl, inr,
}
use kbeacon.Text.{
  Text, str, ◌==◌, trim_space, trim_left, trim_right, is_space, cons_unless_blank, split, join,
  has_byte,
}
use kbeacon.Config.Csv.{nonblank_items, split_csv}

-- A name that is not empty, has no comma and no space at its ends.
pub record IsItem (s : Text) : Type 0 where
  pub not_blank : s ≢ []
  pub trimmed : trim_space s ≡ s
  pub no_comma : has_byte b',' s ≡ false

length-cons_unless_blank : (c : ℕ) (s : Text) → length (cons_unless_blank c s) ≤ suc (length s)
unfolding is_space
length-cons_unless_blank c [] = ground arith
length-cons_unless_blank c (d ∷ s) = omega arith

length-trim_right : (s : Text) → length (trim_right s) ≤ length s
unfolding trim_right
length-trim_right [] = omega arith
length-trim_right (c ∷ s) =
    omega (arith, length-trim_right s, length-cons_unless_blank c (trim_right s))

length-trim_left : (s : Text) → length (trim_left s) ≤ length s
unfolding trim_left
length-trim_left [] = omega arith
length-trim_left (c ∷ s) = ground (arith, length-trim_left s)

-- A trimmed text starts with no space.
starts_with_no_space : (c : ℕ) (s : Text) → trim_space (c ∷ s) ≡ c ∷ s → is_space c ≡ false
unfolding trim_space trim_left
starts_with_no_space c s h = elim (Bool-cases (is_space c)) [
  | inl e ↦
      let shorter : trim_right (trim_left s) ≡ c ∷ s = rw e at h in
      absurd (omega (arith, ap length shorter, length-trim_right (trim_left s), length-trim_left s))
  | inr e ↦ e
]

cons_unless_blank-not_blank :
    (c : ℕ) (s : Text) → is_space c ≡ false → (cons_unless_blank c s == []) ≡ false
unfolding is_space ◌==◌
cons_unless_blank-not_blank c [] h = ground arith
cons_unless_blank-not_blank c (d ∷ s) h = refl

trim_space-not_blank : (c : ℕ) (s : Text) → is_space c ≡ false → (trim_space (c ∷ s) == []) ≡ false
unfolding trim_space trim_left trim_right
trim_space-not_blank c s h = rw h (cons_unless_blank-not_blank c (trim_right s) h)

split-append :
    (sep : ℕ) (l r : Text) → has_byte sep l ≡ false → split sep (l ++ sep ∷ r) ≡ l ∷ split sep r
unfolding split has_byte
split-append sep [] r h = ground arith
split-append sep (c ∷ l) r h = ground (arith, split-append sep l r)

split-eq-one : (sep : ℕ) (l : Text) → has_byte sep l ≡ false → split sep l ≡ l ∷ []
unfolding split has_byte
split-eq-one sep [] h = refl
split-eq-one sep (c ∷ l) h = ground (arith, split-eq-one sep l)

item-not_blank : (s : Text) → IsItem s → (s == []) ≡ false
unfolding ◌==◌
item-not_blank [] h = absurd (h.not_blank refl)
item-not_blank (c ∷ s) h = refl

split-join :
    (p : Text) (ps : List Text)
    → All IsItem (p ∷ ps)
    → split b',' (join (str ",") (p ∷ ps)) ≡ p ∷ ps
unfolding join
split-join p [] (h, hs) = split-eq-one b',' p h.no_comma
split-join p (q ∷ ps) (h, hs) =
    split-append b',' p (join (str ",") (q ∷ ps)) h.no_comma ∙ ap (λ l. p ∷ l) (split-join q ps hs)

nonblank_items-eq : (ps : List Text) → All IsItem ps → nonblank_items ps ≡ ps
nonblank_items-eq [] hs = refl
nonblank_items-eq (p ∷ ps) (h, hs) =
    rw (h.trimmed, item-not_blank p h) (ap (λ l. p ∷ l) (nonblank_items-eq ps hs))

join-not_blank :
    (p : Text) (ps : List Text) → IsItem p → (trim_space (join (str ",") (p ∷ ps)) == []) ≡ false
unfolding join
join-not_blank [] ps h = absurd (h.not_blank refl)
join-not_blank (c ∷ p) [] h = trim_space-not_blank c p (starts_with_no_space c p h.trimmed)
join-not_blank (c ∷ p) (q ∷ ps) h = trim_space-not_blank c _ (starts_with_no_space c p h.trimmed)

-- A list of names, none empty, none with a comma and none with a space at an end, is read back from
-- the text that joins them with commas.
split_csv-join : (ps : List Text) → All IsItem ps → split_csv (join (str ",") ps) ≡ ps
unfolding split_csv
split_csv-join [] hs = unfold join trim_space trim_left trim_right ◌==◌ in refl
split_csv-join (p ∷ ps) (h, hs) =
    rw (join-not_blank p ps h, split-join p ps (h, hs)) (nonblank_items-eq (p ∷ ps) (h, hs))
