-- ===== src/Pairs.antt =====
-- Relations between all the elements of a list.
use mathlib.Core.List.{Permᴰ}
use kbeacon.Prelude.{◌≡◌, ◌≢◌, sym, false, arith, List, [], ◌∷◌, ◌++◌, All, All-append, subst}
use kbeacon.Text.{Text, ==_iff}
use kbeacon.Dict.{Dict, get, has, values, Unique, Entries}
use kbeacon.Rearrange.{All-perm}
use kbeacon.Sort.{sort_by, sort_by-perm}

module _ {ℓ κ} {A : Type ℓ} (R : A → A → Type κ) where
  -- The relation holds between each element and those behind it.
  abbrev pub AllPairs : List A → Type κ
  AllPairs [] = Unit
  AllPairs (x ∷ xs) = All (R x) xs × AllPairs xs

  -- The relation holds between the elements of two lists.
  abbrev pub Across : List A → List A → Type κ
  Across xs ys = All (λ x. All (R x) ys) xs

  pub AllPairs-append :
      (xs ys : List A) → AllPairs xs → AllPairs ys → Across xs ys → AllPairs (xs ++ ys)
  AllPairs-append [] ys hx hy c = hy
  AllPairs-append (x ∷ xs) ys (h, hx) hy (p, c) =
      (All-append (R x) xs ys h p, AllPairs-append xs ys hx hy c)

  -- The order does not matter for a symmetric relation.
  pub AllPairs-perm :
      ((x y : A) → R x y → R y x) → {xs ys : List A} → Permᴰ xs ys → AllPairs ys → AllPairs xs
  AllPairs-perm s Permᴰ.nil h = tt
  AllPairs-perm s (Permᴰ.cons {a = a} {l₂ = l} e d) (h, hs) =
      (All-perm (R a) d (subst (λ x. All (R x) l) (sym e) h), AllPairs-perm s d hs)
  AllPairs-perm s (Permᴰ.swap {a = a} {b = b} {a' = a'} {b' = b'} {l = l} e e') ((r, h), (h', hs)) =
      (
        (
          subst (λ x. R x b) (sym e) (subst (R b') (sym e') (s a' b' r)),
          subst (λ x. All (R x) l) (sym e) h',
        ),
        (subst (λ x. All (R x) l) (sym e') h, hs),
      )
  AllPairs-perm s (Permᴰ.trans d d') h = AllPairs-perm s d (AllPairs-perm s d' h)

  pub Across-nil : (xs : List A) → Across xs []
  Across-nil [] = tt
  Across-nil (x ∷ xs) = (tt, Across-nil xs)

  pub Across-append : (xs ys zs : List A) → Across xs ys → Across xs zs → Across xs (ys ++ zs)
  Across-append [] ys zs h k = tt
  Across-append (x ∷ xs) ys zs (h, hs) (k, ks) =
      (All-append (R x) ys zs h k, Across-append xs ys zs hs ks)

module _ {ℓ} {V : Type ℓ} (id : V → Text) where
  abbrev pub DifferBy : V → V → Type 0
  DifferBy v w = id v ≢ id w

  -- A value under another key has another id.
  row :
      (k : Text) (m : Dict V)
      → Entries (λ j v. id v ≡ j) m
      → has k m ≡ false
      → All (λ v. k ≢ id v) (values m)
  unfolding values get
  row k [] h e = tt
  row k ((j, v) ∷ m) (at, h) e = (λ p. ground (arith, ==_iff j k, at), row k m h (ground arith))

  -- The values of a map in which no key stands twice, and whose keys are the ids of the values.
  pub AllPairs-values :
      (m : Dict V) → Entries (λ k v. id v ≡ k) m → Unique m → AllPairs DifferBy (values m)
  unfolding values
  AllPairs-values [] h u = tt
  AllPairs-values ((k, v) ∷ m) (at, h) (fresh, u) = (
    subst (λ x. All (λ w. x ≢ id w) (values m)) (sym at) (row k m h fresh),
    AllPairs-values m h u,
  )

  -- The same after sorting.
  pub AllPairs-sorted :
      (key : V → Text) (m : Dict V)
      → Entries (λ k v. id v ≡ k) m
      → Unique m
      → AllPairs DifferBy (sort_by key (values m))
  AllPairs-sorted key m h u =
      AllPairs-perm DifferBy (λ x y ne e. ne (sym e)) (sort_by-perm key (values m))
        (AllPairs-values m h u)

-- Two lists of the same length whose elements are related one by one.
abbrev pub Pairwise {ℓ κ} : {A : Type ℓ} {B : Type κ} → (A → B → Type 0) → List A → List B → Type 0
Pairwise R [] [] = Unit
Pairwise R [] (y ∷ ys) = ⊥
Pairwise R (x ∷ xs) [] = ⊥
Pairwise R (x ∷ xs) (y ∷ ys) = R x y × Pairwise R xs ys
