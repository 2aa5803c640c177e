-- ===== src/Discovery/Custom/References/Found.antt =====
-- The references that are written into a text are found again.
use kbeacon.Prelude.{
  ℕ, zero, ◌+◌, ◌≡◌, ◌≢◌, refl, ap, ◌∙◌, Bool, true, false, none, some, List, [], ◌∷◌, ◌++◌, arith,
  append_assoc, append-nil, eqb, length, length-append, All,
}
use kbeacon.Text.{Text, ==_iff, strip_prefix}
use kbeacon.Discovery.Custom.References.{
  run, in_target, in_key, closed_group, match_reference, find_all,
}

-- A run of bytes that pass, ended by one that does not.
run-append :
    (p : ℕ → Bool) (s : Text) (c : ℕ) (rest : Text)
    → All (λ b. p b ≡ true) s
    → p c ≡ false
    → run p (s ++ c ∷ rest) ≡ (s, c ∷ rest)
unfolding run
run-append p [] c rest h e = rw e refl
run-append p (b ∷ s) c rest (hb, h) e = rw (run-append p s c rest h e) (rw hb refl)

closed_group-ok :
    (closing : ℕ) (group rest : Text)
    → group ≢ []
    → closed_group closing (group, closing ∷ rest) ≡ some (group, rest)
unfolding closed_group
closed_group-ok closing group rest h = ground (arith, ==_iff group [])

strip_prefix-append : (p s : Text) → strip_prefix p (p ++ s) ≡ some s
unfolding strip_prefix
strip_prefix-append [] s = refl
strip_prefix-append (c ∷ p) s = ground (arith, strip_prefix-append p s)

-- The two groups of a reference, and how it is written.
pub record Reference : Type 0 where
  pub target : Text
  pub key : Text

abbrev pub written : Text → Reference → Text → Text
written prefix r rest = prefix ++ (r.target ++ b':' ∷ (r.key ++ b'}' ∷ rest))

-- A reference that the pattern can match.
pub record IsReference (r : Reference) : Type 0 where
  pub has_target : r.target ≢ []
  pub has_key : r.key ≢ []
  pub target_free : All (λ b. in_target b ≡ true) r.target
  pub key_free : All (λ b. in_key b ≡ true) r.key

match_reference-written :
    (prefix : Text) (r : Reference) (rest : Text)
    → IsReference r
    → match_reference prefix (written prefix r rest) ≡ some (r.target, r.key)
unfolding match_reference
match_reference-written prefix r rest h =
    rw
      (
        strip_prefix-append prefix (r.target ++ b':' ∷ (r.key ++ b'}' ∷ rest)),
        run-append in_target r.target b':' (r.key ++ b'}' ∷ rest) h.target_free refl,
        closed_group-ok b':' r.target (r.key ++ b'}' ∷ rest) h.has_target,
        run-append in_key r.key b'}' rest h.key_free refl,
        closed_group-ok b'}' r.key rest h.has_key,
      )
      refl

-- The bytes of a match are passed.
find_all-skip :
    (prefix s rest : Text) → find_all prefix (length s) (s ++ rest) ≡ find_all prefix zero rest
unfolding find_all
find_all-skip prefix [] [] = refl
find_all-skip prefix [] (c ∷ rest) = refl
find_all-skip prefix (c ∷ s) rest = find_all-skip prefix s rest

module _ (first : ℕ) (p : Text) where
  abbrev prefix : Text
  prefix = first ∷ p

  -- No match begins at another byte than the first of the prefix.
  match_reference-other :
      (c : ℕ) (s : Text) → eqb c first ≡ false → match_reference prefix (c ∷ s) ≡ none
  unfolding match_reference strip_prefix
  match_reference-other c s h = ground arith

  find_all-plain :
      (s rest : Text)
      → All (λ b. eqb b first ≡ false) s
      → find_all prefix zero (s ++ rest) ≡ find_all prefix zero rest
  unfolding find_all
  find_all-plain [] rest h = refl
  find_all-plain (c ∷ s) rest (hc, h) =
      rw (match_reference-other c (s ++ rest) hc) (find_all-plain s rest h)

  -- What a match takes behind its first byte.
  abbrev behind : Reference → Text
  behind r = p ++ (r.target ++ b':' ∷ (r.key ++ b'}' ∷ []))

  behind-append :
      (r : Reference) (rest : Text)
      → p ++ (r.target ++ b':' ∷ (r.key ++ b'}' ∷ rest)) ≡ behind r ++ rest
  behind-append r rest = simp append_assoc

  length-behind :
      (r : Reference) → length prefix + length r.target + length r.key + 1 ≡ length (behind r)
  length-behind r = omega (
    arith,
    length-append p (r.target ++ b':' ∷ (r.key ++ b'}' ∷ [])),
    length-append r.target (b':' ∷ (r.key ++ b'}' ∷ [])),
    length-append r.key (b'}' ∷ []),
  )

  find_all-written :
      (r : Reference) (rest : Text)
      → IsReference r
      → find_all prefix zero (written prefix r rest) ≡ (r.target, r.key) ∷ find_all prefix zero rest
  unfolding find_all
  find_all-written r rest h = rw (match_reference-written prefix r rest h) (
      rw (behind-append r rest, length-behind r)
        (ap (λ l. (r.target, r.key) ∷ l) (find_all-skip prefix (behind r) rest)))

  -- Texts with references between them.
  abbrev pub interleaved : List (Text × Reference) → Text → Text
  interleaved [] last = last
  interleaved ((plain, r) ∷ more) last = plain ++ written prefix r (interleaved more last)

  abbrev pub groups : List (Text × Reference) → List (Text × Text)
  groups [] = []
  groups ((plain, r) ∷ more) = (r.target, r.key) ∷ groups more

  -- Plain text that holds no beginning of a reference, and references that can match.
  abbrev pub IsInterleaved : List (Text × Reference) → Type 0
  IsInterleaved [] = Unit
  IsInterleaved ((plain, r) ∷ more) =
      All (λ b. eqb b first ≡ false) plain × IsReference r × IsInterleaved more

  -- Every reference that stands in a text is found, in order, and nothing else.
  pub find_all-interleaved :
      (items : List (Text × Reference)) (last : Text)
      → IsInterleaved items
      → All (λ b. eqb b first ≡ false) last
      → find_all prefix zero (interleaved items last) ≡ groups items
  find_all-interleaved [] last h hl =
      rw (← append-nil last) (find_all-plain last [] hl ∙ unfold find_all in refl)
  find_all-interleaved ((plain, r) ∷ more) last (hp, hr, h) hl =
      find_all-plain plain _ hp
      ∙ find_all-written r (interleaved more last) hr
      ∙ ap (λ l. (r.target, r.key) ∷ l) (find_all-interleaved more last h hl)
