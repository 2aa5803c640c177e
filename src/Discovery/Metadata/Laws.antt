-- ===== src/Discovery/Metadata/Laws.antt =====
-- Which annotation or label counts where the object and its pod template both have one.
use kbeacon.Prelude.{
  ◌≡◌, refl, ap, ◌∙◌, Bool, true, false, Option, none, some, [], ◌∷◌, arith, if◌then◌else◌,
  Bool-cases, inl, inr,
}
use kbeacon.Text.{Text, ◌==◌, ==_iff}
use kbeacon.Dict.{Dict, get, put, get-put, Unique}
use kbeacon.Discovery.Metadata.{put_all, effective}

-- The first of two options that is there.
abbrev pub either {ℓ} : {A : Type ℓ} → Option A → Option A → Option A
either none b = b
either (some a) b = some a

either-none {ℓ} : {A : Type ℓ} (o : Option A) → either o none ≡ o
either-none none = refl
either-none (some a) = refl

get-put_all :
    (k : Text) (m kvs : Dict Text)
    → Unique kvs
    → get k (put_all m kvs) ≡ either (get k kvs) (get k m)
unfolding put_all get
get-put_all k m [] u = refl
get-put_all k m ((j, v) ∷ kvs) (fresh, u) =
    let rest = get-put_all k (put j v m) kvs u in
    elim (Bool-cases (j == k)) [
      | inl e ↦ ground (arith, get-put j k v m, ==_iff j k)
      | inr e ↦ rw e (rest ∙ ap (either (get k kvs)) (get-put j k v m ∙ rw e refl))
    ]

-- The effective annotations or labels of a workload map each key to the object's own value if the
-- object has the key, otherwise to the pod template's if the template is read, otherwise to nothing,
-- for maps in which no key stands twice.
pub get-effective :
    (k : Text) (object template : Dict Text) (include_template : Bool)
    → Unique object
    → Unique template
    → get k (effective object template include_template)
      ≡ either (get k object) (if include_template then get k template else none)
unfolding effective
get-effective k object template true uo ut =
    get-put_all k _ object uo
    ∙ ap (either (get k object))
        (unfold get in get-put_all k [] template ut ∙ either-none (get k template))
get-effective k object template false uo ut = unfold get in get-put_all k [] object uo
