-- ===== src/Controller/Status/Informers.antt =====
-- The lists of informers that `New` makes.
use kbeacon.Prelude.{
  ◌≡◌, refl, sym, ◌∙◌, Bool, true, false, ◌||◌, not, List, [], ◌∷◌, ◌++◌, arith, append_assoc,
  append-nil, if◌then◌else◌, some_or, loop, map, subst, Bool-cases, inl, inr,
}
use kbeacon.Text.{Text, str, ◌==◌, ==_iff, ==_refl, elem}
use kbeacon.Dict.{get, get-put}
use kbeacon.Controller.Status.{
  ResourceConfig, built_in_resources, custom_resources, enabled, any_custom, Controller,
  add_informer, built_in_informers, custom_informers,
}
use kbeacon.Controller.Status.Waiting.{every}

-- A list of informers to make, as the flag and the name of each.
unfoldable pub names_of : List (Bool × Text) → List Text
names_of [] = []
names_of ((wanted, name) ∷ more) = (if wanted then name ∷ names_of more else names_of more)

pub add_informers :
    (c : Controller) (l : List (Bool × Text))
    → (loop add_informer c l).informers ≡ c.informers ++ names_of l
unfolding names_of
add_informers c [] = sym (append-nil c.informers)
add_informers c ((true, n) ∷ l) =
    add_informers (add_informer c (true, n)) l ∙ append_assoc c.informers (n ∷ []) (names_of l)
add_informers c ((false, n) ∷ l) = add_informers c l

pub resources-add_informers :
    (c : Controller) (l : List (Bool × Text)) → (loop add_informer c l).resources ≡ c.resources
resources-add_informers c [] = refl
resources-add_informers c ((true, n) ∷ l) = resources-add_informers (add_informer c (true, n)) l
resources-add_informers c ((false, n) ∷ l) = resources-add_informers c l

-- No informer is synced before `Start`.
pub unsynced-add_informers :
    (c : Controller) (l : List (Bool × Text)) (x : Text)
    → some_or false (get x c.synced) ≡ false
    → some_or false (get x (loop add_informer c l).synced) ≡ false
unsynced-add_informers c [] x h = h
unsynced-add_informers c ((true, n) ∷ l) x h =
    unsynced-add_informers (add_informer c (true, n)) l x
      (ground (arith, get-put n x false c.synced))
unsynced-add_informers c ((false, n) ∷ l) x h = unsynced-add_informers c l x h

pub elem-names_of :
    (x : Text) (l : List (Bool × Text))
    → elem x (map (λ p. p.1) l) ≡ false
    → elem x (names_of l) ≡ false
unfolding elem names_of
elem-names_of x [] h = refl
elem-names_of x ((true, n) ∷ l) h = ground (arith, elem-names_of x l)
elem-names_of x ((false, n) ∷ l) h = elem-names_of x l (ground arith)

pub elem-append : (x : Text) (xs ys : List Text) → elem x (xs ++ ys) ≡ elem x xs || elem x ys
unfolding elem
elem-append x [] ys = refl
elem-append x (y ∷ xs) ys = ground (arith, elem-append x xs ys)

module _ (r : ResourceConfig) where
  -- The flags of a list are those of the resource configuration.
  abbrev pub Flags : List (Bool × Text) → Type 0
  Flags [] = Unit
  Flags ((wanted, n) ∷ l) = (enabled r n ≡ wanted) × Flags l

  -- A resource is not watched or has an informer.
  abbrev pub watched : List Text → Text → Bool
  watched informers n = if enabled r n then elem n informers else true

  pub watched-names_of :
      (l : List (Bool × Text)) (informers : List Text)
      → Flags l
      → ((x : Text) → elem x (names_of l) ≡ true → elem x informers ≡ true)
      → every (watched informers) (map (λ p. p.1) l) ≡ true
  unfolding elem names_of
  watched-names_of [] informers h sub = refl
  watched-names_of ((true, n) ∷ l) informers (on, h) sub = rw on (
      ground (
        arith,
        sub n (ground (arith, ==_refl n)),
        watched-names_of l informers h (λ x e. sub x (ground arith)),
      ))
  watched-names_of ((false, n) ∷ l) informers (off, h) sub =
      rw off (watched-names_of l informers h sub)

  pub enabled-names_of :
      (l : List (Bool × Text)) (x : Text)
      → Flags l
      → elem x (names_of l) ≡ true
      → (enabled r x ≡ true) × (elem x (map (λ p. p.1) l) ≡ true)
  unfolding elem names_of
  enabled-names_of [] x h e = cc
  enabled-names_of ((true, n) ∷ l) x (on, h) e = elim (Bool-cases (n == x)) [
    | inl t ↦ (subst (λ y. enabled r y ≡ true) ((==_iff n x).0 t) on, ground arith)
    | inr t ↦ let (on', listed) = enabled-names_of l x h (ground arith) in (on', ground arith)
  ]
  enabled-names_of ((false, n) ∷ l) x (off, h) e =
      let (on', listed) = enabled-names_of l x h e in (on', ground arith)

  pub Flags-built_in : Flags (built_in_informers r)
  unfolding enabled ◌==◌
  Flags-built_in =
      (refl, (refl, (refl, (refl, (refl, (refl, (refl, (refl, (refl, (refl, tt))))))))))

  pub Flags-custom : Flags (custom_informers r)
  unfolding enabled ◌==◌
  Flags-custom = (refl, (refl, (refl, (refl, (refl, tt)))))

  -- With informers for the built-in resources alone, a custom resource that is enabled stays out.
  pub watched-no_custom :
      every (watched (names_of (built_in_informers r))) custom_resources ≡ not (any_custom r)
  unfolding enabled ◌==◌
  watched-no_custom =
      let out = λ (x : Text) (h : elem x built_in_resources ≡ false).
        elem-names_of x (built_in_informers r) h in
      ground (
        arith,
        out (str "Certificate") (unfold elem in refl),
        out (str "ExternalSecret") (unfold elem in refl),
        out (str "SecretProviderClass") (unfold elem in refl),
        out (str "KafkaConnector") (unfold elem in refl),
        out (str "Connector") (unfold elem in refl),
      )
