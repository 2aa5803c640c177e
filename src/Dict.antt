-- ===== src/Dict.antt =====
-- Go maps with string keys, as association lists in the order of insertion. What ranges over a map
-- takes its entries in some order; `Dict.entries` is one of them.
pub mod Sets
pub mod Counting
use kbeacon.Prelude.{
  ◌≡◌, refl, ap, ◌∙◌, ◌||◌, All, Bool, true, false, Option, none, some, List, [], ◌∷◌, map, arith,
  length, if◌then◌else◌, is_some, Bool-cases, inl, inr, sym, subst,
}
use kbeacon.Text.{Text, ◌==◌, ==_iff, elem}

abbrev pub Dict {ℓ} : Type ℓ → Type ℓ
Dict V = List (Text × V)

module _ {ℓ} {V : Type ℓ} where
  unfoldable pub get : Text → Dict V → Option V
  get k [] = none
  get k ((j, v) ∷ m) = if j == k then some v else get k m

  unfoldable pub put : Text → V → Dict V → Dict V
  put k v [] = (k, v) ∷ []
  put k v ((j, w) ∷ m) = let rest = put k v m in if j == k then (j, v) ∷ m else (j, w) ∷ rest

  -- The values in the order of the entries.
  unfoldable pub values : Dict V → List V
  values [] = []
  values ((k, v) ∷ m) = v ∷ values m

  unfoldable pub keys : Dict V → List Text
  keys [] = []
  keys ((k, v) ∷ m) = k ∷ keys m

  -- `for k, v := range m { m[k] = f(k, v) }`
  unfoldable pub map_values : (Text → V → V) → Dict V → Dict V
  map_values f [] = []
  map_values f ((k, v) ∷ m) = (k, f k v) ∷ map_values f m

  -- `_, ok := m[k]`
  abbrev pub has : Text → Dict V → Bool
  has k m = is_some (get k m)

  pub get-put :
      (k j : Text) (v : V) (m : Dict V) → get j (put k v m) ≡ (if k == j then some v else get j m)
  unfolding get put
  get-put k j v [] = ground arith
  get-put k j v ((i, w) ∷ m) = ground (arith, ==_iff k j, ==_iff i k, ==_iff i j, get-put k j v m)

  abbrev pub option_map : (V → V) → Option V → Option V
  option_map f none = none
  option_map f (some v) = some (f v)

  pub get-map_values :
      (f : Text → V → V) (k : Text) (m : Dict V)
      → get k (map_values f m) ≡ option_map (f k) (get k m)
  unfolding get map_values
  get-map_values f k [] = refl
  get-map_values f k ((j, v) ∷ m) = elim (Bool-cases (j == k)) [
    | inl e ↦ rw e (ap (λ x. some (f x v)) ((==_iff j k).0 e))
    | inr e ↦ rw e (get-map_values f k m)
  ]

  pub has-put : (k j : Text) (v : V) (m : Dict V) → has j (put k v m) ≡ k == j || has j m
  has-put k j v m = ground (arith, get-put k j v m)

  pub has-map_values : (f : Text → V → V) (k : Text) (m : Dict V) → has k (map_values f m) ≡ has k m
  has-map_values f k m = ground (arith, get-map_values f k m)

  -- No key stands twice.
  abbrev pub Unique : Dict V → Type 0
  Unique [] = Unit
  Unique ((k, v) ∷ m) = (has k m ≡ false) × Unique m

  pub Unique-put : (k : Text) (v : V) (m : Dict V) → Unique m → Unique (put k v m)
  unfolding put
  Unique-put k v [] h = unfold get in (refl, tt)
  Unique-put k v ((j, w) ∷ m) (fresh, h) =
      ground (arith, get-put k j v m, ==_iff k j, ==_iff j k, Unique-put k v m h)

module _ {ℓ} {V : Type ℓ} where
  pub Unique-map_values : (f : Text → V → V) (m : Dict V) → Unique m → Unique (map_values f m)
  unfolding map_values
  Unique-map_values f [] h = tt
  Unique-map_values f ((k, v) ∷ m) (fresh, h) =
      (has-map_values f k m ∙ fresh, Unique-map_values f m h)

module _ {ℓ κ} {V : Type ℓ} (P : Text → V → Type κ) where
  -- A predicate of every entry.
  abbrev pub Entries : Dict V → Type κ
  Entries [] = Unit
  Entries ((k, v) ∷ m) = P k v × Entries m

  pub Entries-put : (k : Text) (v : V) (m : Dict V) → P k v → Entries m → Entries (put k v m)
  unfolding put
  Entries-put k v [] p h = (p, tt)
  Entries-put k v ((j, w) ∷ m) p (q, h) = elim (Bool-cases (j == k)) [
    | inl e ↦ rw e (subst (λ x. P x v) (sym ((==_iff j k).0 e)) p, h)
    | inr e ↦ rw e (q, Entries-put k v m p h)
  ]

  pub Entries-get : (k : Text) (v : V) (m : Dict V) → Entries m → get k m ≡ some v → P k v
  unfolding get
  Entries-get k v [] h e = cc
  Entries-get k v ((j, w) ∷ m) (p, h) e = elim (Bool-cases (j == k)) [
    | inl t ↦
        let same : w ≡ v = ground arith in
        subst (λ x. P x v) ((==_iff j k).0 t) (subst (λ x. P j x) same p)
    | inr t ↦ Entries-get k v m h (ground arith)
  ]

  pub Entries-map_values :
      (f : Text → V → V) (m : Dict V)
      → ((k : Text) (v : V) → P k v → P k (f k v))
      → Entries m
      → Entries (map_values f m)
  unfolding map_values
  Entries-map_values f [] g h = tt
  Entries-map_values f ((k, v) ∷ m) g (p, h) = (g k v p, Entries-map_values f m g h)

module _ {ℓ κ μ} {V : Type ℓ} (P : Text → V → Type κ) (Q : V → Type μ) where
  pub All-values :
      ((k : Text) (v : V) → P k v → Q v) → (m : Dict V) → Entries P m → All Q (values m)
  unfolding values
  All-values f [] h = tt
  All-values f ((k, v) ∷ m) (p, h) = (f k v p, All-values f m h)

module _ {ℓ κ μ ν} {V : Type ℓ} (P : Text → V → Type κ) (Q : V → Type μ)
    (R : Text → V → Type ν) where
  pub Entries-combine :
      ((k : Text) (v : V) → P k v → Q v → R k v)
      → (m : Dict V) → Entries P m
      → All Q (values m)
      → Entries R m
  unfolding values
  Entries-combine f [] h all = tt
  Entries-combine f ((k, v) ∷ m) (p, h) (q, all) = (f k v p q, Entries-combine f m h all)
