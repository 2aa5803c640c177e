-- ===== src/Prelude/Outcomes.antt =====
-- A Go pair of a value and an error, of which one is there.
use mathlib.Core.Path.{◌≡◌, refl}

pub data Outcome {κ ℓ} (E : Type κ) (A : Type ℓ) : Type (κ ⊔ ℓ) where
  err : E → Outcome E A
  ok : A → Outcome E A

-- `if err != nil { return …, err }`
infixl 5 ◌>>=◌
abbrev pub ◌>>=◌ {κ ℓ μ} :
    {E : Type κ} {A : Type ℓ} {B : Type μ} → Outcome E A → (A → Outcome E B) → Outcome E B
err e >>= next = err e
ok a >>= next = next a

-- A chain that went through: what its first part returned, and that both went through.
pub record Chained {κ ℓ μ} {E : Type κ} {A : Type ℓ} {B : Type μ} (first : Outcome E A)
    (next : A → Outcome E B) (result : B) : Type (κ ⊔ ℓ ⊔ μ) where
  pub value : A
  pub went : first ≡ ok value
  pub gave : next value ≡ ok result

pub chained {κ ℓ μ} :
    {E : Type κ} {A : Type ℓ} {B : Type μ} (first : Outcome E A) (next : A → Outcome E B)
    {result : B}
    → (first >>= next) ≡ ok result
    → Chained first next result
chained (err e) next h = cc
chained (ok a) next h = record { value = a; went = refl; gave = h }

pub ok_injective {κ ℓ} :
    {E : Type κ} {A : Type ℓ} {o : Outcome E A} {a b : A} → o ≡ ok a → o ≡ ok b → a ≡ b
ok_injective h k = cc
