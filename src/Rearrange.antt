-- ===== src/Rearrange.antt =====
-- What a loop over a list leaves unchanged when the list is rearranged.
use mathlib.Core.List.{Permᴰ}
use mathlib.Core.List.Permᴰ
use kbeacon.Prelude.{
  suc, ◌≡◌, refl, sym, ap, ◌∙◌, Bool, true, List, [], ◌∷◌, map, arith, length, if◌then◌else◌,
  Bool-cases, inl, inr, loop, keep, subst, All, Any, here, there,
}
use kbeacon.Text.{Text, elem, ◌==◌, ==_refl}

module _ {ℓ κ} {A : Type ℓ} {S : Type κ} (f : S → A → S) where
  -- A loop whose steps may be exchanged does not depend on the order.
  pub loop-perm :
      ((s : S) (a b : A) → f (f s a) b ≡ f (f s b) a)
      → (s : S) {xs ys : List A} → Permᴰ xs ys
      → loop f s xs ≡ loop f s ys
  loop-perm exchange s Permᴰ.nil = refl
  loop-perm exchange s (Permᴰ.cons {a = a} {l₂ = l} e d) =
      loop-perm exchange (f s a) d ∙ ap (λ x. loop f (f s x) l) e
  loop-perm exchange s (Permᴰ.swap {a = a} {b = b} {a' = a'} {b' = b'} {l = l} e e') =
      ap (λ t. loop f t l) (exchange s a b ∙ ap (λ x. f (f s x) a) e' ∙ ap (λ x. f (f s a') x) e)
  loop-perm exchange s (Permᴰ.trans d d') = loop-perm exchange s d ∙ loop-perm exchange s d'

module _ {ℓ} {A : Type ℓ} where
  keep_cons :
      (p : A → Bool) (a : A) {xs ys : List A}
      → Permᴰ xs ys
      → Permᴰ (if p a then a ∷ xs else xs) (if p a then a ∷ ys else ys)
  keep_cons p a d = elim (Bool-cases (p a)) [ inl h ↦ rw h (Permᴰ.cons refl d) | inr h ↦ rw h d ]

  keep_swap :
      (p : A → Bool) (a b : A) (l : List A) → Permᴰ (keep p (a ∷ b ∷ l)) (keep p (b ∷ a ∷ l))
  keep_swap p a b l = elim (Bool-cases (p a)) [
    | inl h ↦ elim (Bool-cases (p b)) [
      | inl k ↦ rw (h, k) (Permᴰ.swap refl refl)
      | inr k ↦ rw (h, k) (Permᴰ.refl _)
    ]
    | inr h ↦ rw h (Permᴰ.refl _)
  ]

  pub keep-perm : (p : A → Bool) {xs ys : List A} → Permᴰ xs ys → Permᴰ (keep p xs) (keep p ys)
  keep-perm p Permᴰ.nil = Permᴰ.nil
  keep-perm p (Permᴰ.cons {a = a} {l₁ = l} {l₂ = l'} e d) =
      subst (λ x. Permᴰ (keep p (a ∷ l)) (keep p (x ∷ l'))) e (keep_cons p a (keep-perm p d))
  keep-perm p (Permᴰ.swap {a = a} {b = b} {b' = b'} {l = l} e e') =
      subst (λ x. Permᴰ (keep p (a ∷ b ∷ l)) (keep p (x ∷ b' ∷ l))) e'
        (subst (λ y. Permᴰ (keep p (a ∷ b ∷ l)) (keep p (b ∷ y ∷ l))) e (keep_swap p a b l))
  keep-perm p (Permᴰ.trans d d') = Permᴰ.trans (keep-perm p d) (keep-perm p d')

  pub length-perm : {xs ys : List A} → Permᴰ xs ys → length xs ≡ length ys
  length-perm Permᴰ.nil = refl
  length-perm (Permᴰ.cons e d) = ap suc (length-perm d)
  length-perm (Permᴰ.swap e e') = refl
  length-perm (Permᴰ.trans d d') = length-perm d ∙ length-perm d'

  pub elem-map-perm :
      (f : A → Text) (z : Text) {xs ys : List A}
      → Permᴰ xs ys
      → elem z (map f xs) ≡ elem z (map f ys)
  unfolding elem
  elem-map-perm f z Permᴰ.nil = refl
  elem-map-perm f z (Permᴰ.cons {a = a} {b = b} e d) =
      ground (arith, elem-map-perm f z d, ap (λ x. f x == z) e)
  elem-map-perm f z (Permᴰ.swap {a = a} {b = b} {l = l} e e') =
      ground (arith, ap (λ x. f x == z) e, ap (λ x. f x == z) e')
  elem-map-perm f z (Permᴰ.trans d d') = elem-map-perm f z d ∙ elem-map-perm f z d'

module _ {ℓ κ} {A : Type ℓ} (P : A → Type κ) where
  pub All-perm : {xs ys : List A} → Permᴰ xs ys → All P ys → All P xs
  All-perm Permᴰ.nil h = tt
  All-perm (Permᴰ.cons e d) (p, h) = (subst P (sym e) p, All-perm d h)
  All-perm (Permᴰ.swap e e') (p, (q, h)) = (subst P (sym e) q, (subst P (sym e') p, h))
  All-perm (Permᴰ.trans d d') h = All-perm d (All-perm d' h)

-- Every element of a list has its text among the texts of the list.
pub All-elem-map {ℓ} :
    {A : Type ℓ} (f : A → Text) (xs : List A) (ys : List Text)
    → ((z : Text) → elem z (map f xs) ≡ true → elem z ys ≡ true)
    → All (λ x. elem (f x) ys ≡ true) xs
unfolding elem
All-elem-map f [] ys sub = tt
All-elem-map f (x ∷ xs) ys sub =
    (sub (f x) (ground (arith, ==_refl (f x))), All-elem-map f xs ys (λ z h. sub z (ground arith)))

module _ {ℓ κ} {A : Type ℓ} (P : A → Type κ) where
  pub Any-perm : {xs ys : List A} → Permᴰ xs ys → Any P xs → Any P ys
  Any-perm Permᴰ.nil a = elim a [ ]
  Any-perm (Permᴰ.cons e d) (here p) = here (subst P e p)
  Any-perm (Permᴰ.cons e d) (there a) = there (Any-perm d a)
  Any-perm (Permᴰ.swap e e') (here p) = there (here (subst P e p))
  Any-perm (Permᴰ.swap e e') (there (here p)) = here (subst P e' p)
  Any-perm (Permᴰ.swap e e') (there (there a)) = there (there a)
  Any-perm (Permᴰ.trans d d') a = Any-perm d' (Any-perm d a)
