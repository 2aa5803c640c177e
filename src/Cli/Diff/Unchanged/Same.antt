-- ===== src/Cli/Diff/Unchanged/Same.antt =====
-- A document compared with itself.
use kbeacon.Prelude.{
  ◌≡◌, refl, sym, Bool, true, false, Option, none, some, List, [], ◌∷◌, if◌then◌else◌, All,
  Bool-cases, Option-cases, inl, inr, some_or, subst,
}
use kbeacon.Text.{Text, str, ◌==◌}
use kbeacon.Dict.{Dict, get, values, Entries, Entries-get}
use kbeacon.Json.{
  Json, null, bool, num, text, arr, obj, Items, nil, cons, Fields, end, field, get_field, to_list,
}
use kbeacon.Json.Laws.{IsKeyed, ItemsKeyed, FieldsKeyed, deep_equal_refl}
use kbeacon.Cli.Document.{
  member, get_snapshot_path, first_of, snapshot_values_from_any, values_at, first_snapshot_array,
  extract_snapshot_resource_values, default_paths, edges_paths,
}
use kbeacon.Cli.Index.Fresh.{values-index_snapshot_items}
use kbeacon.Cli.Diff.{indexed, diff_documents}
use kbeacon.Cli.Diff.Unchanged.{Agree, Unchanged, diff_documents-Unchanged_iff}

abbrev Keyed : List Json → Type 0
Keyed = All IsKeyed

abbrev MaybeKeyed : Option (List Json) → Type 0
MaybeKeyed none = Unit
MaybeKeyed (some vs) = Keyed vs

get_field-IsKeyed :
    (key : Text) (fs : Fields) → FieldsKeyed fs → IsKeyed (some_or null (get_field key fs))
unfolding IsKeyed get_field
get_field-IsKeyed key end h = tt
get_field-IsKeyed key (field k v fs) (_, hv, h) = elim (Bool-cases (k == key)) [
  | inl e ↦ rw e hv
  | inr e ↦ rw e (get_field-IsKeyed key fs h)
]

member-IsKeyed : (key : Text) (v : Json) → IsKeyed v → IsKeyed (member key v)
unfolding IsKeyed
member-IsKeyed key null h = tt
member-IsKeyed key (bool b) h = tt
member-IsKeyed key (num n) h = tt
member-IsKeyed key (text t) h = tt
member-IsKeyed key (arr xs) h = tt
member-IsKeyed key (obj fs) h = get_field-IsKeyed key fs h

get_snapshot_path-IsKeyed :
    (v : Json) (path : List Text) → IsKeyed v → IsKeyed (get_snapshot_path v path)
unfolding get_snapshot_path
get_snapshot_path-IsKeyed v [] h = h
get_snapshot_path-IsKeyed v (part ∷ path) h =
    get_snapshot_path-IsKeyed (member part v) path (member-IsKeyed part v h)

to_list-Keyed : (xs : Items) → ItemsKeyed xs → Keyed (to_list xs)
unfolding to_list IsKeyed
to_list-Keyed nil h = tt
to_list-Keyed (cons x xs) (hx, h) = (hx, to_list-Keyed xs h)

first_of-Keyed :
    (os : List (Option (List Json))) (last : List Json)
    → All MaybeKeyed os
    → Keyed last
    → MaybeKeyed (first_of os last)
first_of-Keyed [] last h k = k
first_of-Keyed (none ∷ os) last (_, h) k = first_of-Keyed os last h k
first_of-Keyed (some vs ∷ os) last (hv, h) k = hv

MaybeKeyed-if :
    (b : Bool) (o p : Option (List Json))
    → MaybeKeyed o
    → MaybeKeyed p
    → MaybeKeyed (if b then o else p)
MaybeKeyed-if true o p h k = h
MaybeKeyed-if false o p h k = k

mutual
  unfolding snapshot_values_from_any IsKeyed

  values-Keyed : (v : Json) → IsKeyed v → MaybeKeyed (snapshot_values_from_any v)
  values-Keyed null h = tt
  values-Keyed (bool b) h = (tt, tt)
  values-Keyed (num n) h = (tt, tt)
  values-Keyed (text t) h = (tt, tt)
  values-Keyed (arr xs) h = to_list-Keyed xs h
  values-Keyed (obj fs) h =
      first_of-Keyed
        (values_at (str "data") fs ∷ values_at (str "items") fs ∷ values_at (str "edges") fs ∷ [])
        (obj fs ∷ [])
        (
          values_at-Keyed fs (str "data") h,
          (values_at-Keyed fs (str "items") h, (values_at-Keyed fs (str "edges") h, tt)),
        )
        (h, tt)

  values_at-Keyed : (fs : Fields) (key : Text) → FieldsKeyed fs → MaybeKeyed (values_at key fs)
  values_at-Keyed end key h = tt
  values_at-Keyed (field k v fs) key (_, hv, h) =
      MaybeKeyed-if (k == key) _ _ (values-Keyed v hv) (values_at-Keyed fs key h)

some_or-Keyed :
    (o : Option (List Json)) (d : List Json) → MaybeKeyed o → Keyed d → Keyed (some_or d o)
some_or-Keyed none d h k = k
some_or-Keyed (some vs) d h k = h

first_snapshot_array-Keyed :
    (doc : Json) (paths : List (List Text)) → IsKeyed doc → Keyed (first_snapshot_array doc paths)
unfolding first_snapshot_array
first_snapshot_array-Keyed doc [] h = tt
first_snapshot_array-Keyed doc (path ∷ paths) h =
    some_or-Keyed (snapshot_values_from_any (get_snapshot_path doc path))
      (first_snapshot_array doc paths)
      (values-Keyed (get_snapshot_path doc path) (get_snapshot_path-IsKeyed doc path h))
      (first_snapshot_array-Keyed doc paths h)

Entries-values : (m : Dict Json) → Keyed (values m) → Entries (λ k v. IsKeyed v) m
unfolding values
Entries-values [] h = tt
Entries-values ((k, v) ∷ m) (hv, h) = (hv, Entries-values m h)

module _ (sprint : Json → Text) (doc : Json) (keyed : IsKeyed doc) where
  indexed-Entries : (resource : Text) → Entries (λ k v. IsKeyed v) (indexed sprint doc resource)
  unfolding indexed extract_snapshot_resource_values
  indexed-Entries resource =
      let paths = if resource == str "edges" then edges_paths else default_paths resource in
      let vs = first_snapshot_array doc paths in
      Entries-values (indexed sprint doc resource) (
        subst Keyed (sym (values-index_snapshot_items sprint resource vs).0)
          (first_snapshot_array-Keyed doc paths keyed))

  indexed-Agree :
      (resource : Text) → Agree (indexed sprint doc resource) (indexed sprint doc resource)
  indexed-Agree resource z =
      let m = indexed sprint doc resource in
      elim (Option-cases (get z m)) [
        | inl e ↦ rw e refl
        | inr (v, e) ↦
            rw e (
              deep_equal_refl v (Entries-get (λ k w. IsKeyed w) z v m (indexed-Entries resource) e))
      ]

  All-Unchanged : (resources : List Text) → All (Unchanged sprint doc doc) resources
  All-Unchanged [] = tt
  All-Unchanged (r ∷ rs) = (indexed-Agree r, All-Unchanged rs)

  -- A document in which no object has a key twice, compared with itself, has no change.
  pub diff_documents-same :
      (old_path new_path : Text) (resources : List Text)
      → (diff_documents sprint old_path new_path resources doc doc).summary.has_changes ≡ false
  diff_documents-same old_path new_path resources =
      (diff_documents-Unchanged_iff sprint doc doc old_path new_path resources).1
        (All-Unchanged resources)
