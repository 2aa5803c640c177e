-- ===== src/Controller/Owners/First.antt =====
-- The controller among owner references, as internal/controller/owner_resolution.go searches it.
use kbeacon.Prelude.{
  ◌≡◌, ◌⊎◌, ap, Bool, true, ◌&&◌, ◌||◌, not, Option, none, some, List, [], ◌∷◌, arith, Bool-cases,
  inl, inr,
}
use kbeacon.Text.{◌==◌, ==_iff}
use kbeacon.Controller.Owners.{OwnerReference, is_controller, controller_owner_reference}

-- A reference that marks the controller, with a kind and a name.
pub record IsUsable (r : OwnerReference) : Type 0 where
  pub marked : r.controller ≡ some true
  pub has_kind : r.kind ≡ [] → ⊥
  pub has_name : r.name ≡ [] → ⊥

-- The controller among owner references: the first that is usable.
abbrev pub IsController : List OwnerReference → OwnerReference → Type 0
IsController [] o = ⊥
IsController (r ∷ refs) o = (IsUsable r × (r ≡ o)) ⊎ ((IsUsable r → ⊥) × IsController refs o)

usable : OwnerReference → Bool
usable r = is_controller r.controller && not (r.kind == [] || r.name == [])

usable-IsUsable : (r : OwnerReference) → usable r ≡ true → IsUsable r
unfolding usable
usable-IsUsable r h = record {
  marked = marks r.controller (ground arith);
  has_kind = λ e. ground (arith, h, e, ==_iff r.kind []);
  has_name = λ e. ground (arith, h, e, ==_iff r.name []);
}
  where
    marks : (c : Option Bool) → is_controller c ≡ true → c ≡ some true
    marks none e = cc
    marks (some b) e = ap some e

IsUsable-usable : (r : OwnerReference) → IsUsable r → usable r ≡ true
unfolding usable
IsUsable-usable r u =
    let marked : is_controller r.controller ≡ true = ap is_controller u.marked in
    let kind : (r.kind == [] ≡ true) → ⊥ = λ e. u.has_kind ((==_iff r.kind []).0 e) in
    let name : (r.name == [] ≡ true) → ⊥ = λ e. u.has_name ((==_iff r.name []).0 e) in
    ground (arith, marked, kind, name)

-- What the search of a controller returns is the first usable reference.
pub controller_owner_reference-IsController :
    (refs : List OwnerReference) (o : OwnerReference)
    → controller_owner_reference refs ≡ some o
    → IsController refs o
unfolding controller_owner_reference usable
controller_owner_reference-IsController [] o h = cc
controller_owner_reference-IsController (r ∷ refs) o h =
    let later = controller_owner_reference-IsController refs o in
    elim (Bool-cases (is_controller r.controller)) [
      | inr m ↦ inr (λ u. ground (arith, m, IsUsable-usable r u), later (rw m at h))
      | inl m ↦ elim (Bool-cases (r.kind == [] || r.name == [])) [
        | inl e ↦ inr (λ u. ground (arith, m, e, IsUsable-usable r u), later (rw (m, e) at h))
        | inr e ↦
            let is : some r ≡ some o = rw (m, e) at h in
            inl (usable-IsUsable r (ground (arith, m, e)), cc)
      ]
    ]
