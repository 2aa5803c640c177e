-- ===== src/Discovery/SecretRefs/Laws.antt =====
-- What the parser of Secret references accepts and what it returns.
use kbeacon.Prelude.{
  ok, chained, suc, length, ◌≡◌, ◌≢◌, refl, ap, ◌⊎◌, inl, inr, false, ◌||◌, Option, none, some,
  List, [], ◌∷◌, ◌++◌, arith, subst, Bool-cases, All,
}
use kbeacon.Text.{
  Text, ◌==◌, ==_iff, cut, has_byte, cut-append, cut-eq-none, cut_sound, Lacks_of_cut, trim_space,
  split,
}
use kbeacon.Graph.Types.{SecretRef}
use kbeacon.Discovery.SecretRefs.{
  name_part, checked_ref, ref_of_parts, parse_secret_ref, parse_parts, parse_watch_secrets,
}

-- A reference that can be looked up: both parts are there, and the separators ended them.
pub record IsRef (cluster default : Text) (r : SecretRef) : Type 0 where
  pub in_cluster : r.cluster ≡ cluster
  pub has_namespace : r.namespace ≢ []
  pub has_name : r.name ≢ []
  pub no_hash : has_byte b'#' r.name ≡ false
  pub namespace_ends : (r.namespace ≡ default) ⊎ (has_byte b'/' r.namespace ≡ false)

no_hash_of_cut :
    (part : Text) (o : Option (Text × Text))
    → cut b'#' part ≡ o
    → has_byte b'#' (name_part part o).0 ≡ false
no_hash_of_cut part none e = Lacks_of_cut b'#' part e
no_hash_of_cut part (some (name, key)) e = (cut_sound b'#' part name key e).1

-- A Secret reference as it is written.
abbrev pub qualified : Text → Text → Text
qualified namespace name = namespace ++ b'/' ∷ name

abbrev pub with_key : Text → Text → Text
with_key name key = name ++ b'#' ∷ key

checked_ref-IsRef :
    (cluster default token namespace : Text) (p : Text × Text) (r : SecretRef)
    → has_byte b'#' p.0 ≡ false
    → (namespace ≡ default) ⊎ (has_byte b'/' namespace ≡ false)
    → checked_ref cluster token namespace p ≡ ok r
    → IsRef cluster default r
checked_ref-IsRef cluster default token namespace (name, key) r h ends e =
    elim (Bool-cases (namespace == [] || name == [])) [
      | inl bad ↦ absurd (ground arith)
      | inr good ↦
          let same : record { cluster = cluster; namespace = namespace; name = name; key = key }
              ≡ r =
            ground arith in
          subst (IsRef cluster default) same (record {
            in_cluster = refl;
            has_namespace = λ z. ground (arith, ==_iff namespace []);
            has_name = λ z. ground (arith, ==_iff name []);
            no_hash = h;
            namespace_ends = ends;
          })
    ]

-- An accepted token gives a reference of the cluster whose namespace and name are not empty, whose
-- name holds no `#`, and whose namespace is the default or holds no `/`.
pub parse_secret_ref-IsRef :
    (cluster default token : Text) (r : SecretRef)
    → parse_secret_ref cluster default token ≡ ok r
    → IsRef cluster default r
unfolding parse_secret_ref
parse_secret_ref-IsRef cluster default token r e = go (cut b'/' token) refl
  where
    rest :
        (namespace part : Text)
        → (namespace ≡ default) ⊎ (has_byte b'/' namespace ≡ false)
        → ref_of_parts cluster token (namespace, part) ≡ ok r
        → IsRef cluster default r
    rest namespace part ends h =
        checked_ref-IsRef cluster default token namespace (name_part part (cut b'#' part)) r
          (no_hash_of_cut part (cut b'#' part) refl) ends h

    go : (o : Option (Text × Text)) → cut b'/' token ≡ o → IsRef cluster default r
    go none h = rest default token (inl refl) (ground arith)
    go (some (namespace, part)) h =
        rest namespace part (inr (cut_sound b'/' token namespace part h).1) (ground arith)

qualified_ne : (namespace rest : Text) → (qualified namespace rest == []) ≡ false
unfolding ◌==◌
qualified_ne [] rest = refl
qualified_ne (c ∷ namespace) rest = refl

module _ (cluster default namespace name : Text) (hn : namespace ≢ []) (hm : name ≢ [])
    (no_slash : has_byte b'/' namespace ≡ false) (no_hash : has_byte b'#' name ≡ false) where
  abbrev printed : Text → SecretRef
  printed key = record { cluster = cluster; namespace = namespace; name = name; key = key }

  checked_ref-ok :
      (token key : Text) → checked_ref cluster token namespace (name, key) ≡ ok (printed key)
  checked_ref-ok token key = ground (arith, ==_iff namespace [], ==_iff name [])

  -- `namespace/name` is read back, whatever the default namespace is.
  pub parse_secret_ref-qualified :
      parse_secret_ref cluster default (qualified namespace name) ≡ ok (printed [])
  unfolding parse_secret_ref
  parse_secret_ref-qualified =
      rw (qualified_ne, cut-append b'/' namespace name no_slash, cut-eq-none b'#' name no_hash)
        (checked_ref-ok (qualified namespace name) [])

  -- `namespace/name#key` is read back with its key, whatever the key holds.
  pub parse_secret_ref-with_key :
      (key : Text)
      → parse_secret_ref cluster default (qualified namespace (with_key name key))
        ≡ ok (printed key)
  unfolding parse_secret_ref
  parse_secret_ref-with_key key =
      rw
        (
          qualified_ne,
          cut-append b'/' namespace (with_key name key) no_slash,
          cut-append b'#' name key no_hash,
        )
        (checked_ref-ok (qualified namespace (with_key name key)) key)

parse_parts-IsRef :
    (cluster namespace : Text) (parts : List Text) (rs : List SecretRef)
    → parse_parts cluster namespace parts ≡ ok rs
    → All (IsRef cluster namespace) rs × (length rs ≡ length parts)
unfolding parse_parts
parse_parts-IsRef cluster namespace [] rs h =
    let same : rs ≡ [] = ground arith in rw same (tt, refl)
parse_parts-IsRef cluster namespace (part ∷ parts) rs h =
    let at_part = chained (parse_secret_ref cluster namespace (trim_space part)) _ h in
    let at_rest = chained (parse_parts cluster namespace parts) _ at_part.gave in
    let r = at_part.value in
    let rest = at_rest.value in
    let (all, count) = parse_parts-IsRef cluster namespace parts rest at_rest.went in
    let h₂ = at_rest.gave in
    let same : rs ≡ r ∷ rest = ground arith in
    rw same (
      (parse_secret_ref-IsRef cluster namespace (trim_space part) r at_part.went, all),
      ap suc count,
    )

-- The references of an accepted annotation are well formed, blank annotations included.
pub parse_watch_secrets-All :
    (cluster namespace value : Text) (rs : List SecretRef)
    → parse_watch_secrets cluster namespace value ≡ ok rs
    → All (IsRef cluster namespace) rs
unfolding parse_watch_secrets
parse_watch_secrets-All cluster namespace value rs h = elim (Bool-cases (trim_space value == [])) [
  | inl e ↦ let same : rs ≡ [] = ground arith in rw same tt
  | inr e ↦ (parse_parts-IsRef cluster namespace (split b',' value) rs (rw e at h)).0
]
