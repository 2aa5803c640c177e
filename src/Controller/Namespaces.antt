-- ===== src/Controller/Namespaces.antt =====
-- `NamespaceFilter` of internal/controller/controller.go.
use kbeacon.Prelude.{
  ◌≡◌, refl, sym, ◌∙◌, inl, inr, Bool, true, false, ◌&&◌, ◌||◌, not, List, [], ◌∷◌, arith,
  if◌then◌else◌, loop, Bool-cases,
}
use kbeacon.Text.{Text, ◌==◌, ==_iff, elem, trim_space}
use kbeacon.Dict.Sets.{add, elem-add}

pub record NamespaceFilter : Type 0 where
  pub included : List Text
  pub excluded : List Text

abbrev pub add_unless_blank : List Text → Text → List Text
add_unless_blank out value = if value == [] then out else add out value

unfoldable pub string_set : List Text → List Text
string_set values = loop add_unless_blank [] values

unfoldable pub new_namespace_filter : List Text → List Text → NamespaceFilter
unfolding string_set
new_namespace_filter included excluded = record {
  included = string_set included;
  excluded = string_set excluded;
}

abbrev pub is_empty : List Text → Bool
is_empty [] = true
is_empty (x ∷ xs) = false

unfoldable pub includes : NamespaceFilter → Text → Bool
includes f namespace =
    if namespace == []
    then false
    else if not (is_empty f.included) && not (elem namespace f.included)
    then false
    else not (elem namespace f.excluded)

-- The namespace to which `newInformerFactory` restricts the informers, empty for all of them.
unfoldable pub watch_namespace : List Text → NamespaceFilter → Text
watch_namespace (value ∷ []) f =
    let namespace = trim_space value in if includes f namespace then namespace else []
watch_namespace _ f = []

-- The informers see the objects of a namespace.
unfoldable pub sees : Text → Text → Bool
sees watch namespace = watch == [] || watch == namespace

elem-loop :
    (x : Text) (s values : List Text)
    → (x == []) ≡ false
    → elem x (loop add_unless_blank s values) ≡ elem x s || elem x values
unfolding elem
elem-loop x s [] h = ground arith
elem-loop x s (v ∷ vs) h = ground (
  arith,
  elem-loop x (add_unless_blank s v) vs h,
  elem-add s v x,
  ==_iff v [],
  ==_iff v x,
  ==_iff x [],
)

abbrev all_blank : List Text → Bool
all_blank [] = true
all_blank (v ∷ vs) = v == [] && all_blank vs

empty-add : (s : List Text) (v : Text) → is_empty (add s v) ≡ false
unfolding add
empty-add [] v = ground arith
empty-add (x ∷ s) v = ground arith

empty-loop :
    (s values : List Text)
    → is_empty (loop add_unless_blank s values) ≡ is_empty s && all_blank values
empty-loop s [] = ground arith
empty-loop s (v ∷ vs) = ground (arith, empty-loop (add_unless_blank s v) vs, empty-add s v)

-- A filter built from two lists lets a namespace through exactly if it has a name, the first list
-- contains it or holds only empty names, and the second list does not contain it.
pub includes-new_namespace_filter :
    (included excluded : List Text) (namespace : Text)
    → includes (new_namespace_filter included excluded) namespace
      ≡ not (namespace == [])
        && ((all_blank included || elem namespace included) && not (elem namespace excluded))
unfolding includes new_namespace_filter string_set
includes-new_namespace_filter included excluded namespace = elim (Bool-cases (namespace == [])) [
  | inl e ↦ rw e refl
  | inr e ↦
      unfold elem in
      ground (
        arith,
        elem-loop namespace [] included e,
        elem-loop namespace [] excluded e,
        empty-loop [] included,
      )
]

-- A filter with one name in its first list lets only this name through.
only_included :
    (v : Text) (excluded : List Text) (namespace : Text)
    → (v == []) ≡ false
    → includes (new_namespace_filter (v ∷ []) excluded) namespace ≡ true
    → namespace ≡ v
unfolding elem
only_included v excluded namespace filled h = ground (
  arith,
  sym (includes-new_namespace_filter (v ∷ []) excluded namespace) ∙ h,
  ==_iff v namespace,
  ==_iff v [],
  ==_iff namespace [],
)

-- The informers see every namespace that a filter built from the same lists lets through.
pub sees-watch_namespace :
    (included excluded : List Text) (namespace : Text)
    → (let f = new_namespace_filter included excluded in
        includes f namespace && not (sees (watch_namespace included f) namespace))
      ≡ false
unfolding sees watch_namespace
sees-watch_namespace [] excluded namespace = unfold ◌==◌ in ground arith
sees-watch_namespace (v ∷ w ∷ vs) excluded namespace = unfold ◌==◌ in ground arith
sees-watch_namespace ([] ∷ []) excluded namespace = unfold includes trim_space ◌==◌ in ground arith
sees-watch_namespace ((b ∷ v) ∷ []) excluded namespace =
    let name = b ∷ v in
    let f = new_namespace_filter (name ∷ []) excluded in
    let filled : (name == []) ≡ false = unfold ◌==◌ in refl in
    elim (Bool-cases (includes f (trim_space name))) [
      | inl e ↦ elim (Bool-cases (includes f namespace)) [
        | inl k ↦
            let same : trim_space name ≡ namespace =
              only_included name excluded (trim_space name) filled e
              ∙ sym (only_included name excluded namespace filled k) in
            rw (e, k, (==_iff (trim_space name) namespace).1 same) (ground arith)
        | inr k ↦ rw k refl
      ]
      | inr e ↦ rw e (unfold ◌==◌ in ground arith)
    ]
