-- ===== src/Discovery/SecretRefs/Grammar.antt =====
-- The grammar of Secret references: `name`, `name#key`, `namespace/name` and `namespace/name#key`.
use kbeacon.Prelude.{
  ℕ, ok, ◌≡◌, ◌≢◌, refl, ap, ◌∙◌, ◌↔◌, ◌⊎◌, inl, inr, sym, subst, chained, ok_injective, List,
  false, ◌||◌, Option, none, some, [], ◌∷◌, ◌++◌, arith, Bool-cases,
}
use kbeacon.Text.{
  Text, ◌==◌, ==_iff, cut, has_byte, cut-append, cut-eq-none, cut_sound, Lacks_of_cut, split,
  trim_space,
}
use kbeacon.Pairs.{Pairwise}
use kbeacon.Graph.Types.{SecretRef}
use kbeacon.Discovery.SecretRefs.{
  name_part, checked_ref, ref_of_parts, parse_secret_ref, parse_parts, parse_watch_secrets,
}

-- A name with a key or without, and what it spells. A name ends at the first `#`.
pub data IsNamed (name key text : Text) : Type 0 where
  bare : text ≡ name → key ≡ [] → has_byte b'#' name ≡ false → IsNamed name key text
  keyed : text ≡ name ++ b'#' ∷ key → has_byte b'#' name ≡ false → IsNamed name key text

-- A reference and what it spells. A namespace ends at the first `/`; a reference without one is in the
-- default namespace.
pub data Spells (default : Text) (r : SecretRef) (token : Text) : Type 0 where
  local :
      r.namespace ≡ default
      → has_byte b'/' token ≡ false
      → IsNamed r.name r.key token
      → Spells default r token
  qualified :
      (text : Text)
      → token ≡ r.namespace ++ b'/' ∷ text
      → has_byte b'/' r.namespace ≡ false
      → IsNamed r.name r.key text
      → Spells default r token

IsNamed-by_cut : (text : Text) → let p = name_part text (cut b'#' text) in IsNamed p.0 p.1 text
IsNamed-by_cut text = by_cut (cut b'#' text) refl
  where
    by_cut :
        (o : Option (Text × Text))
        → cut b'#' text ≡ o
        → IsNamed (name_part text o).0 (name_part text o).1 text
    by_cut none h = bare refl refl (Lacks_of_cut b'#' text h)
    by_cut (some (name, key)) h =
        let (spelt, free) = cut_sound b'#' text name key h in keyed spelt free

name_part-cut :
    (name key text : Text) → IsNamed name key text → name_part text (cut b'#' text) ≡ (name, key)
name_part-cut name key text (bare e k free) = rw (e, cut-eq-none b'#' name free) (ground (arith, k))
name_part-cut name key text (keyed e free) = rw (e, cut-append b'#' name key free) refl

filled : (s : Text) (c : ℕ) (t : Text) → (s ++ c ∷ t == []) ≡ false
unfolding ◌==◌
filled [] c t = refl
filled (b ∷ s) c t = refl

-- A reference that a token may stand for: in the cluster, with a namespace and a name, spelt by the token.
pub record IsRefOf (cluster default token : Text) (r : SecretRef) : Type 0 where
  pub in_cluster : r.cluster ≡ cluster
  pub has_namespace : r.namespace ≢ []
  pub has_name : r.name ≢ []
  pub spelt : Spells default r token

module _ (cluster default token : Text) (r : SecretRef) where
  checked_sound :
      (namespace : Text) (p : Text × Text)
      → checked_ref cluster token namespace p ≡ ok r
      → (r.cluster ≡ cluster)
        × (r.namespace ≡ namespace)
        × ((r.name, r.key) ≡ p)
        × (namespace ≢ [])
        × (p.0 ≢ [])
  checked_sound namespace (name, key) h = elim (Bool-cases (namespace == [] || name == [])) [
    | inl bad ↦ absurd (ground arith)
    | inr good ↦
        let same : record { cluster = cluster; namespace = namespace; name = name; key = key } ≡ r =
          ground arith in
        (
          ap (λ (x : SecretRef). x.cluster) (sym same),
          ap (λ (x : SecretRef). x.namespace) (sym same),
          ap (λ (x : SecretRef). (x.name, x.key)) (sym same),
          λ z. ground (arith, ==_iff namespace []),
          λ z. ground (arith, ==_iff name []),
        )
  ]

  parts_sound :
      (namespace text : Text)
      → ref_of_parts cluster token (namespace, text) ≡ ok r
      → (r.cluster ≡ cluster)
        × (r.namespace ≡ namespace)
        × (r.namespace ≢ [])
        × (r.name ≢ [])
        × IsNamed r.name r.key text
  parts_sound namespace text h =
      let p = name_part text (cut b'#' text) in
      let (c, n, k, hn, hm) = checked_sound namespace p h in
      let en : r.name ≡ p.0 = ap (λ (q : Text × Text). q.0) k in
      let ek : r.key ≡ p.1 = ap (λ (q : Text × Text). q.1) k in
      (c, n, λ z. hn (sym n ∙ z), λ z. hm (sym en ∙ z), rw (en, ek) (IsNamed-by_cut text))

  parts_complete :
      (namespace text : Text)
      → r.cluster ≡ cluster
      → r.namespace ≡ namespace
      → r.namespace ≢ []
      → r.name ≢ []
      → IsNamed r.name r.key text
      → ref_of_parts cluster token (namespace, text) ≡ ok r
  parts_complete namespace text c n hn hm k =
      rw (name_part-cut r.name r.key text k, sym n)
        (ground (arith, ==_iff r.namespace [], ==_iff r.name []))

  not_empty : IsRefOf cluster default token r → (token == []) ≡ false
  not_empty h = elim h.spelt [
    | local d free (bare e k f) ↦ ground (arith, e, ==_iff token [], h.has_name)
    | local d free (keyed e f) ↦ ap (λ t. t == []) e ∙ filled r.name b'#' r.key
    | qualified text e free k ↦ ap (λ t. t == []) e ∙ filled r.namespace b'/' text
  ]

  sound : parse_secret_ref cluster default token ≡ ok r → IsRefOf cluster default token r
  unfolding parse_secret_ref
  sound h = by_cut (cut b'/' token) refl
    where
      by_cut : (o : Option (Text × Text)) → cut b'/' token ≡ o → IsRefOf cluster default token r
      by_cut none e =
          let (c, n, hn, hm, k) = parts_sound default token (ground arith) in
          record {
            in_cluster = c;
            has_namespace = hn;
            has_name = hm;
            spelt = local n (Lacks_of_cut b'/' token e) k;
          }
      by_cut (some (namespace, text)) e =
          let (spelt, free) = cut_sound b'/' token namespace text e in
          let (c, n, hn, hm, k) = parts_sound namespace text (ground arith) in
          record {
            in_cluster = c;
            has_namespace = hn;
            has_name = hm;
            spelt = qualified text (rw n spelt) (rw n free) k;
          }

  complete : IsRefOf cluster default token r → parse_secret_ref cluster default token ≡ ok r
  unfolding parse_secret_ref
  complete h = rw (not_empty h) (elim h.spelt [
    | local d free k ↦
        rw (cut-eq-none b'/' token free)
          (parts_complete default token h.in_cluster d h.has_namespace h.has_name k)
    | qualified text e free k ↦
        let at_slash : cut b'/' token ≡ some (r.namespace, text) =
          ap (cut b'/') e ∙ cut-append b'/' r.namespace text free in
        rw at_slash (parts_complete r.namespace text h.in_cluster refl h.has_namespace h.has_name k)
  ])

  -- A token is read as a reference exactly if the reference is in the cluster, has a namespace and a
  -- name, and is spelt by the token.
  parse_secret_ref_iff :
      (parse_secret_ref cluster default token ≡ ok r) ↔ IsRefOf cluster default token r
  parse_secret_ref_iff = (sound, complete)

module _ (cluster default : Text) where
  -- References that are what the parts of a list spell, without the blanks around each part, one for one.
  abbrev pub AreRefsOf : List Text → List SecretRef → Type 0
  AreRefsOf parts rs = Pairwise (λ part r. IsRefOf cluster default (trim_space part) r) parts rs

  parts_sound_all :
      (parts : List Text) (rs : List SecretRef)
      → parse_parts cluster default parts ≡ ok rs
      → AreRefsOf parts rs
  unfolding parse_parts
  parts_sound_all [] [] h = tt
  parts_sound_all [] (r ∷ rs) h = cc
  parts_sound_all (part ∷ parts) rs h =
      let at_part = chained (parse_secret_ref cluster default (trim_space part)) _ h in
      let at_rest = chained (parse_parts cluster default parts) _ at_part.gave in
      subst (AreRefsOf (part ∷ parts)) (ok_injective refl at_rest.gave) (
        (parse_secret_ref_iff cluster default (trim_space part) at_part.value).0 at_part.went,
        parts_sound_all parts at_rest.value at_rest.went,
      )

  parts_complete_all :
      (parts : List Text) (rs : List SecretRef)
      → AreRefsOf parts rs
      → parse_parts cluster default parts ≡ ok rs
  unfolding parse_parts
  parts_complete_all [] [] h = refl
  parts_complete_all [] (r ∷ rs) h = absurd h
  parts_complete_all (part ∷ parts) [] h = absurd h
  parts_complete_all (part ∷ parts) (r ∷ rs) (first, others) =
      rw
        (
          (parse_secret_ref_iff cluster default (trim_space part) r).1 first,
          parts_complete_all parts rs others,
        )
        refl

  -- A list of references is accepted exactly with the references that it spells: none for a blank text,
  -- otherwise one for each of its comma-separated parts in order, each part without the blanks around
  -- it. So one part that spells none refuses the whole list. A part spells a reference of the cluster
  -- with a namespace and a name: `name` or `name#key` without a slash is one in the default namespace,
  -- anything else is `namespace/name` or `namespace/name#key`, where the namespace ends at the first
  -- slash and the name at the first `#` after it.
  pub parse_watch_secrets_iff :
      (value : Text) (rs : List SecretRef)
      → (parse_watch_secrets cluster default value ≡ ok rs) ↔ (
          ((trim_space value ≡ []) × (rs ≡ []))
          ⊎ ((trim_space value ≢ []) × AreRefsOf (split b',' value) rs))
  unfolding parse_watch_secrets
  parse_watch_secrets_iff value rs = elim (Bool-cases (trim_space value == [])) [
    | inl e ↦
        let blank = (==_iff (trim_space value) []).0 e in
        rw e (
          λ h. inl (blank, sym (ok_injective refl h)),
          λ a. elim a [
            | inl (b, none_there) ↦ rw none_there refl
            | inr (b, all) ↦ absurd (b blank)
          ],
        )
    | inr e ↦
        let filled : trim_space value ≢ [] = λ b. ground (arith, e, ==_iff (trim_space value) []) in
        rw e (
          λ h. inr (filled, parts_sound_all (split b',' value) rs h),
          λ a. elim a [
            | inl (b, none_there) ↦ absurd (filled b)
            | inr (b, all) ↦ parts_complete_all (split b',' value) rs all
          ],
        )
  ]
