-- ===== src/Cli/Export/Fetched.antt =====
-- What a snapshot export asks for, and what it gathers of the answers.
use kbeacon.Prelude.{
  ◌≡◌, refl, sym, ap, ◌∙◌, Bool, true, false, ◌&&◌, ◌||◌, not, Option, none, some, is_some, Outcome,
  ok, err, chained, ok_injective, List, [], ◌∷◌, ◌++◌, arith, if◌then◌else◌, ltb, leb, map-append,
  All, Bool-cases, inl, inr, subst,
}
use kbeacon.Text.{Text, ◌==◌, ==_iff, elem, split, trim_space}
use kbeacon.Dict.{Dict, get, put, has, get-put, has-put}
use kbeacon.Dict.Sets.{add, Distinct, Distinct-add}
use kbeacon.Cli.Export.{
  SnapshotResourceRequest, names_of, add_request, known_request, canonical_snapshot_resource,
  add_parts, some_selected, parse_snapshot_resources, default_resources, Response, Requests,
  accepted, fetch,
}

add-if : (xs : List Text) (x : Text) → add xs x ≡ (if elem x xs then xs else xs ++ x ∷ [])
unfolding add elem
add-if [] x = refl
add-if (y ∷ ys) x = ground (arith, add-if ys x, ==_iff y x)

names-add_request :
    (out : List SnapshotResourceRequest) (item : SnapshotResourceRequest)
    → names_of (add_request out item) ≡ add (names_of out) item.name
unfolding add_request
names-add_request out item = elim (Bool-cases (elem item.name (names_of out))) [
  | inl e ↦ rw (add-if, e) refl
  | inr e ↦ rw (add-if, e) (map-append (λ r. r.name) out (item ∷ []))
]

add_parts-Distinct :
    (out : List SnapshotResourceRequest) (parts : List Text)
    (requests : List SnapshotResourceRequest)
    → Distinct (names_of out)
    → add_parts out parts ≡ ok requests
    → Distinct (names_of requests)
unfolding add_parts
add_parts-Distinct out [] requests d h = subst (λ r. Distinct (names_of r)) (ok_injective refl h) d
add_parts-Distinct out (part ∷ parts) requests d h =
    let first = chained (known_request part (canonical_snapshot_resource part)) _ h in
    add_parts-Distinct (add_request out first.value) parts requests
      (rw (names-add_request out first.value) (Distinct-add (names_of out) first.value.name d))
      first.gave

selected :
    (rs requests : List SnapshotResourceRequest) → some_selected rs ≡ ok requests → rs ≡ requests
selected [] requests h = cc
selected (r ∷ rs) requests h = cc

pub parse_snapshot_resources-Distinct :
    (value : Text) (requests : List SnapshotResourceRequest)
    → parse_snapshot_resources value ≡ ok requests
    → Distinct (names_of requests)
unfolding parse_snapshot_resources
parse_snapshot_resources-Distinct value requests h =
    let chosen = trim_space value in
    let first =
      chained (add_parts [] (split b',' (if chosen == [] then default_resources else chosen))) _
        h in
    subst (λ r. Distinct (names_of r)) (selected first.value requests first.gave)
      (add_parts-Distinct [] _ first.value tt first.went)

and_false : (b : Bool) → b && false ≡ false
and_false true = refl
and_false false = refl

err_not_ok {ℓ} : {A : Type ℓ} {m : Text} {a : A} → err m ≡ ok a → ⊥
err_not_ok h = cc

module _ (calls : Requests) where
  -- The agent answered with a valid document.
  abbrev pub served : SnapshotResourceRequest → Bool
  served item =
      let r = calls.get_endpoint item.endpoint in
      not (is_some r.error) && (leb 200 r.status && (ltb r.status 300 && calls.is_valid r.body))

  accepted-served :
      (r : Response) (error : Option Text) (body : Text)
      → accepted calls r error ≡ ok body
      → ((not (is_some error) && (leb 200 r.status && (ltb r.status 300 && calls.is_valid r.body)))
          ≡ true)
        × (body ≡ r.body)
  accepted-served r (some e) body h = cc
  accepted-served r none body h = elim (Bool-cases (ltb r.status 200 || leb 300 r.status)) [
    | inl bad ↦ absurd (err_not_ok (rw bad at h))
    | inr fine ↦ elim (Bool-cases (calls.is_valid r.body)) [
      | inl valid ↦
          let same : ok r.body ≡ ok body = rw (fine, valid) at h in
          (ground arith, ok_injective same refl)
      | inr broken ↦ absurd (err_not_ok (rw (fine, broken) at h))
    ]
  ]

  -- A request that follows does not touch other names.
  fetch-other :
      (items : List SnapshotResourceRequest) (m resources : Dict Text) (k : Text)
      → fetch calls items m ≡ ok resources
      → elem k (names_of items) ≡ false
      → get k resources ≡ get k m
  unfolding fetch elem
  fetch-other [] m resources k h fresh = ap (get k) (ok_injective h refl)
  fetch-other (item ∷ items) m resources k h fresh =
      let r = calls.get_endpoint item.endpoint in
      let first = chained (accepted calls r r.error) _ h in
      fetch-other items (put item.name first.value m) resources k first.gave (ground arith)
      ∙ get-put item.name k first.value m
      ∙ ground arith

  pub fetch-holds :
      (items : List SnapshotResourceRequest) (m resources : Dict Text)
      → Distinct (names_of items)
      → fetch calls items m ≡ ok resources
      → All
          (λ r.
            (served r ≡ true) × (get r.name resources ≡ some (calls.get_endpoint r.endpoint).body))
          items
  unfolding fetch
  fetch-holds [] m resources d h = tt
  fetch-holds (item ∷ items) m resources (fresh, d) h =
      let r = calls.get_endpoint item.endpoint in
      let first = chained (accepted calls r r.error) _ h in
      let (good, body) = accepted-served r r.error first.value first.went in
      (
        (
          good,
          fetch-other items (put item.name first.value m) resources item.name first.gave fresh
              ∙ get-put item.name item.name first.value m
              ∙ rw ((==_iff item.name item.name).1 refl) (ap some body),
        ),
        fetch-holds items (put item.name first.value m) resources d first.gave,
      )

  accepted-refused :
      (r : Response) (error : Option Text) (message : Text)
      → accepted calls r error ≡ err message
      → (not (is_some error) && (leb 200 r.status && (ltb r.status 300 && calls.is_valid r.body)))
        ≡ false
  accepted-refused r (some e) message h = refl
  accepted-refused r none message h = elim (Bool-cases (ltb r.status 200 || leb 300 r.status)) [
    | inl bad ↦ ground arith
    | inr fine ↦ elim (Bool-cases (calls.is_valid r.body)) [
      | inl valid ↦ absurd (err_not_ok (sym (rw (fine, valid) at h)))
      | inr broken ↦ ground arith
    ]
  ]

  abbrev pub every_served : List SnapshotResourceRequest → Bool
  every_served [] = true
  every_served (r ∷ rs) = served r && every_served rs

  pub fetch-refused :
      (items : List SnapshotResourceRequest) (m : Dict Text) (message : Text)
      → fetch calls items m ≡ err message
      → every_served items ≡ false
  unfolding fetch
  fetch-refused [] m message h = absurd (err_not_ok (sym h))
  fetch-refused (item ∷ items) m message h =
      let r = calls.get_endpoint item.endpoint in
      by_answer (λ body. fetch-refused items (put item.name body m) message)
        (accepted calls r r.error) refl
    where
      by_answer :
          ((body : Text)
            → fetch calls items (put item.name body m) ≡ err message
            → every_served items ≡ false)
          → (answer : Outcome Text Text)
          → accepted calls
              (calls.get_endpoint item.endpoint)
              (calls.get_endpoint item.endpoint).error
            ≡ answer
          → every_served (item ∷ items) ≡ false
      by_answer later (err e) same =
          let r = calls.get_endpoint item.endpoint in
          ap (λ b. b && every_served items) (accepted-refused r r.error e same)
      by_answer later (ok body) same =
          ap (λ b. served item && b) (later body (rw same at h)) ∙ and_false (served item)

  pub fetch-has :
      (items : List SnapshotResourceRequest) (m resources : Dict Text) (k : Text)
      → fetch calls items m ≡ ok resources
      → has k resources ≡ has k m || elem k (names_of items)
  unfolding fetch elem
  fetch-has [] m resources k h = rw (ok_injective refl h) (ground arith)
  fetch-has (item ∷ items) m resources k h =
      let r = calls.get_endpoint item.endpoint in
      let first = chained (accepted calls r r.error) _ h in
      ground (
        arith,
        fetch-has items (put item.name first.value m) resources k first.gave,
        has-put item.name k first.value m,
      )
