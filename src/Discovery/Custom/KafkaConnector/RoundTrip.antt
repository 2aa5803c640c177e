-- ===== src/Discovery/Custom/KafkaConnector/RoundTrip.antt =====
-- A configuration value of a KafkaConnector gives one edge for each reference that is written in it.
use kbeacon.Prelude.{
  ℕ, ◌≡◌, ◌≢◌, refl, ap, ◌∙◌, Bool, true, false, ◌||◌, not, some, List, [], ◌∷◌, ◌++◌, map,
  map-append, arith, eqb, All, Bool-cases, inl, inr,
}
use kbeacon.Text.{
  Text, str, ◌==◌, ==_iff, is_space, trim_space, trim_space-same, blank_of_trim_space, cut-append,
  has_byte,
}
use kbeacon.Json.{text}
use kbeacon.Graph.Types.{WorkloadRef, DependencyEdge}
use kbeacon.Discovery.Infer.{new_edge}
use kbeacon.Discovery.Custom.{custom_edge}
use kbeacon.Discovery.Custom.References.{in_target, in_key}
use kbeacon.Discovery.Custom.References.Found.{
  Reference, IsReference, interleaved, groups, IsInterleaved, find_all-interleaved,
}
use kbeacon.Discovery.Custom.KafkaConnector.{
  parse_strimzi_kafka_connector_secret_target, strimzi_target_edge, strimzi_match_edges,
  strimzi_value_edges,
}

-- A key of a Secret.
pub record KeyOf : Type 0 where
  pub namespace : Text
  pub name : Text
  pub key : Text

-- A byte of a namespace or a name: no blank, no slash, no colon and no closing brace.
abbrev pub name_byte : ℕ → Bool
unfolding is_space
name_byte b = not (is_space b || (eqb b b'/' || not (in_target b)))

abbrev pub NameText : Text → Type 0
NameText s = (s ≢ []) × All (λ b. name_byte b ≡ true) s

pub record IsKeyOf (k : KeyOf) : Type 0 where
  pub namespace_ok : NameText k.namespace
  pub name_ok : NameText k.name
  pub has_key : k.key ≢ []
  pub key_free : All (λ b. in_key b ≡ true) k.key

-- `${secrets:namespace/name:key}`
abbrev pub reference : KeyOf → Reference
reference k = record { target = k.namespace ++ b'/' ∷ k.name; key = k.key }

name_byte-is_space : (b : ℕ) → name_byte b ≡ true → is_space b ≡ false
unfolding is_space
name_byte-is_space b h = ground arith

name_byte-in_target : (b : ℕ) → name_byte b ≡ true → in_target b ≡ true
unfolding is_space
name_byte-in_target b h = ground arith

All-map {ℓ κ} :
    {P : ℕ → Type ℓ} {Q : ℕ → Type κ} → ((b : ℕ) → P b → Q b) → (s : Text) → All P s → All Q s
All-map f [] h = tt
All-map f (b ∷ s) (p, h) = (f b p, All-map f s h)

no_slash : (s : Text) → All (λ b. name_byte b ≡ true) s → has_byte b'/' s ≡ false
unfolding has_byte is_space
no_slash [] h = refl
no_slash (b ∷ s) (e, h) = ground (arith, no_slash s h)

All-qualified {ℓ} :
    (P : ℕ → Type ℓ) (s t : Text) → All P s → P b'/' → All P t → All P (s ++ b'/' ∷ t)
All-qualified P [] t hs hb ht = (hb, ht)
All-qualified P (b ∷ s) t (p, hs) hb ht = (p, All-qualified P s t hs hb ht)

qualified_ne : (s t : Text) → (s ++ b'/' ∷ t == []) ≡ false
unfolding ◌==◌
qualified_ne [] t = refl
qualified_ne (b ∷ s) t = refl

module _ (k : KeyOf) (h : IsKeyOf k) where
  spaceless : (s : Text) → NameText s → All (λ b. is_space b ≡ false) s
  spaceless s (filled, all) = All-map name_byte-is_space s all

  parse-reference :
      (default : Text)
      → parse_strimzi_kafka_connector_secret_target default (reference k).target
        ≡ (k.namespace, k.name)
  unfolding parse_strimzi_kafka_connector_secret_target
  parse-reference default =
      rw
        (
          trim_space-same (reference k).target (
              All-qualified (λ b. is_space b ≡ false) k.namespace k.name
                (spaceless k.namespace h.namespace_ok) (unfold is_space in refl)
                (spaceless k.name h.name_ok)),
          qualified_ne k.namespace k.name,
          cut-append b'/' k.namespace k.name (no_slash k.namespace h.namespace_ok.1),
          trim_space-same k.namespace (spaceless k.namespace h.namespace_ok),
          trim_space-same k.name (spaceless k.name h.name_ok),
        )
        (ground (
          arith,
          no_slash k.name h.name_ok.1,
          ==_iff k.namespace [],
          ==_iff k.name [],
          h.namespace_ok.0,
          h.name_ok.0,
        ))

  reference-IsReference : IsReference (reference k)
  reference-IsReference = record {
    has_target =
        λ e. ground (arith, qualified_ne k.namespace k.name, ==_iff (reference k).target []);
    has_key = h.has_key;
    target_free =
        All-qualified (λ b. in_target b ≡ true) k.namespace k.name
          (All-map name_byte-in_target k.namespace h.namespace_ok.1) refl
          (All-map name_byte-in_target k.name h.name_ok.1);
    key_free = h.key_free;
  }

abbrev pub NoDollar : Text → Type 0
NoDollar s = All (λ b. eqb b b'$' ≡ false) s

-- Texts without a dollar, each with a reference behind it.
abbrev pub Written : List (Text × KeyOf) → Type 0
Written [] = Unit
Written ((plain, k) ∷ more) = NoDollar plain × IsKeyOf k × Written more

abbrev pub references : List (Text × KeyOf) → List (Text × Reference)
references [] = []
references ((plain, k) ∷ more) = (plain, reference k) ∷ references more

abbrev pub brace : Text
brace = str "{secrets:"

abbrev pub config_value : List (Text × KeyOf) → Text → Text
config_value items last = interleaved b'$' brace (references items) last

-- The namespace and the name of an edge's Secret.
abbrev pub secret_of : DependencyEdge → Text × Text
secret_of e = (e.secret.namespace, e.secret.name)

abbrev pub secrets_of : List (Text × KeyOf) → List (Text × Text)
secrets_of [] = []
secrets_of ((plain, k) ∷ more) = (k.namespace, k.name) ∷ secrets_of more

IsInterleaved-references :
    (items : List (Text × KeyOf)) → Written items → IsInterleaved b'$' brace (references items)
IsInterleaved-references [] h = tt
IsInterleaved-references ((plain, k) ∷ more) (hp, hk, h) =
    (hp, reference-IsReference k hk, IsInterleaved-references more h)

module _ (cluster : Text) (workload : WorkloadRef) where
  strimzi_target_edge-secret :
      (path : Text) (k : KeyOf)
      → IsKeyOf k
      → map secret_of (strimzi_target_edge cluster workload path (k.namespace, k.name))
        ≡ (k.namespace, k.name) ∷ []
  unfolding strimzi_target_edge custom_edge new_edge
  strimzi_target_edge-secret path k h =
      let filled : (k.namespace == [] || k.name == []) ≡ false =
        ground (arith, ==_iff k.namespace [], ==_iff k.name [], h.namespace_ok.0, h.name_ok.0) in
      rw filled refl

  strimzi_match_edges-secrets :
      (path : Text) (items : List (Text × KeyOf))
      → Written items
      → map secret_of
          (strimzi_match_edges cluster workload path (groups b'$' brace (references items)))
        ≡ secrets_of items
  unfolding strimzi_match_edges
  strimzi_match_edges-secrets path [] h = refl
  strimzi_match_edges-secrets path ((plain, k) ∷ more) (hp, hk, h) =
      rw (parse-reference k hk workload.namespace) (
        map-append secret_of (strimzi_target_edge cluster workload path (k.namespace, k.name)) _
        ∙ rw (strimzi_target_edge-secret path k hk)
            (ap (λ l. (k.namespace, k.name) ∷ l) (strimzi_match_edges-secrets path more h)))

  -- A value with a reference in it is not blank.
  dollar_shows : (plain rest : Text) → All (λ b. is_space b ≡ true) (plain ++ b'$' ∷ rest) → ⊥
  unfolding is_space
  dollar_shows [] rest (e, h) = cc
  dollar_shows (b ∷ plain) rest (e, h) = dollar_shows plain rest h

  -- A configuration value in which references `${secrets:namespace/name:key}` stand between texts
  -- without a dollar gives one edge for each of them, in order, to the Secret that it names, if
  -- namespaces and names are not empty and hold no blank, slash, colon or closing brace, and keys are
  -- not empty and hold no closing brace.
  pub strimzi_value_edges-Written :
      (key : Text) (items : List (Text × KeyOf)) (last : Text)
      → Written items
      → NoDollar last
      → map secret_of
          (strimzi_value_edges cluster workload key (some (text (config_value items last))))
        ≡ secrets_of items
  unfolding strimzi_value_edges
  strimzi_value_edges-Written key items last h hl =
      let value = config_value items last in
      elim (Bool-cases (trim_space value == [])) [
        | inl e ↦
            rw e (blank items h (blank_of_trim_space value ((==_iff (trim_space value) []).0 e)))
        | inr e ↦
            rw
              (
                e,
                find_all-interleaved b'$' brace (references items) last
                    (IsInterleaved-references items h) hl,
              )
              (strimzi_match_edges-secrets _ items h)
      ]
    where
      blank :
          (items : List (Text × KeyOf))
          → Written items
          → All (λ b. is_space b ≡ true) (config_value items last)
          → [] ≡ secrets_of items
      blank [] h b = refl
      blank ((plain, k) ∷ more) h b = absurd (dollar_shows plain _ b)
