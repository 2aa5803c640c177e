-- ===== src/Server/Handlers/Answers.antt =====
-- What the handler of the list of Secrets answers.
use kbeacon.Prelude.{
  Outcome, ok, err, ◌≤◌, ◌≡◌, ◌⊎◌, ◌↔◌, refl, sym, Bool, true, false, none, some, ◌&&◌, Option,
  List, [], arith, length, take, drop, keep, Bool-cases, inl, inr,
}
use kbeacon.Text.{Text, str, ◌==◌, ==_iff}
use kbeacon.Graph.Types.{Time, SecretSummary}
use kbeacon.Graph.Observe.{Cache}
use kbeacon.Graph.Queries.{list_secrets}
use kbeacon.Server.Page.{PaginationRequest, PaginationResponse, paginate}
use kbeacon.Server.Page.Walk.{paginate-returned, paginate-page}
use kbeacon.Server.Query.{Values, max_limit, parse_pagination, bool_query_param}
use kbeacon.Server.Query.Accepted.{parse_pagination-bounds}
use kbeacon.Server.Handlers.{
  Response, wants, wants_flag, secrets_page, failure, secret_matches, list_secrets_handler,
}

five :
    (a b c d e : Bool)
    → a && (b && (c && (d && e))) ≡ true
    → (a ≡ true) × (b ≡ true) × (c ≡ true) × (d ≡ true) × (e ≡ true)
five true true true true true h = (refl, refl, refl, refl, refl)
five true true true true false h = cc
five true true true false e h = cc
five true true false d e h = cc
five true false c d e h = cc
five false b c d e h = cc

-- A query parameter that is not empty asks for this value.
abbrev pub Asks : Text → Text → Type 0
Asks parameter value = (parameter ≡ []) ⊎ (value ≡ parameter)

-- The Secrets that a query asks for.
pub record IsAskedFor (q : Values) (present : Option Bool) (s : SecretSummary) : Type 0 where
  pub namespace : Asks (q (str "namespace")) s.ref.namespace
  pub owner_team : Asks (q (str "ownerTeam")) s.owner_team
  pub criticality : Asks (q (str "criticality")) s.criticality
  pub secret_name : Asks (q (str "secretName")) s.ref.name
  pub is_present : (present ≡ none) ⊎ (present ≡ some s.present)

wants_iff : (parameter value : Text) → (wants parameter value ≡ true) ↔ Asks parameter value
wants_iff parameter value = (
  λ h. elim (Bool-cases (parameter == [])) [
    | inl e ↦ inl ((==_iff parameter []).0 e)
    | inr e ↦ inr (ground (arith, h, e, ==_iff value parameter))
  ],
  λ a. elim a [
    | inl e ↦ ground (arith, ==_iff parameter [])
    | inr e ↦ ground (arith, ==_iff value parameter)
  ],
)

wants_flag_iff :
    (o : Option Bool) (b : Bool) → (wants_flag o b ≡ true) ↔ ((o ≡ none) ⊎ (o ≡ some b))
wants_flag_iff none b = (λ h. inl refl, λ h. refl)
wants_flag_iff (some true) true = (λ h. inr refl, λ h. refl)
wants_flag_iff (some true) false = (λ h. cc, λ h. elim h [ inl e ↦ cc | inr e ↦ cc ])
wants_flag_iff (some false) true = (λ h. cc, λ h. elim h [ inl e ↦ cc | inr e ↦ cc ])
wants_flag_iff (some false) false = (λ h. inr refl, λ h. refl)

secret_matches_iff :
    (q : Values) (present : Option Bool) (s : SecretSummary)
    → (secret_matches q present s ≡ true) ↔ IsAskedFor q present s
unfolding secret_matches
secret_matches_iff q present s =
    let namespace = wants_iff (q (str "namespace")) s.ref.namespace in
    let team = wants_iff (q (str "ownerTeam")) s.owner_team in
    let criticality = wants_iff (q (str "criticality")) s.criticality in
    let name = wants_iff (q (str "secretName")) s.ref.name in
    let flag = wants_flag_iff present s.present in
    (
      λ h.
          let (n, t, c, m, f) =
            five (wants (q (str "namespace")) s.ref.namespace)
              (wants (q (str "ownerTeam")) s.owner_team)
              (wants (q (str "criticality")) s.criticality)
              (wants (q (str "secretName")) s.ref.name) (wants_flag present s.present) h in
          record {
            namespace = namespace.0 n;
            owner_team = team.0 t;
            criticality = criticality.0 c;
            secret_name = name.0 m;
            is_present = flag.0 f;
          },
      λ a.
          rw
            (
              namespace.1 a.namespace,
              team.1 a.owner_team,
              criticality.1 a.criticality,
              name.1 a.secret_name,
              flag.1 a.is_present,
            )
            refl,
    )

-- A page of the Secrets that a query asks for: with a test that passes for exactly these, it holds the
-- listed ones from the offset on, up to the limit, and tells the limit, the offset, how many it
-- holds and how many there are in all.
pub record IsAskedPage (q : Values) (present : Option Bool) (listed : List SecretSummary)
    (request : PaginationRequest) (page : List SecretSummary) (pagination : PaginationResponse)
    : Type 0 where
  pub asked : SecretSummary → Bool
  pub exactly : (s : SecretSummary) → (asked s ≡ true) ↔ IsAskedFor q present s
  pub items : page ≡ take request.limit (drop request.offset (keep asked listed))
  pub limit : pagination.limit ≡ request.limit
  pub bounded : pagination.limit ≤ max_limit
  pub offset : pagination.offset ≡ request.offset
  pub returned : pagination.returned ≡ length page
  pub total : pagination.total ≡ length (keep asked listed)

asked_page :
    (q : Values) (present : Option Bool) (listed : List SecretSummary) (request : PaginationRequest)
    → request.limit ≤ max_limit
    → IsAskedPage q present listed request
        (paginate (keep (secret_matches q present) listed) request).0
        (paginate (keep (secret_matches q present) listed) request).1
unfolding paginate
asked_page q present listed request h =
    let matching = keep (secret_matches q present) listed in
    let (counted, bounded, total) = paginate-returned matching request in
    record {
      asked = secret_matches q present;
      exactly = secret_matches_iff q present;
      items = paginate-page matching request;
      limit = refl;
      bounded = h;
      offset = refl;
      returned = sym counted;
      total = total;
    }

-- What a list of Secrets may be answered.
pub data SecretsAnswer (c : Cache) (now : Time) (q : Values) (answer : Response) : Type 0 where
  bad_page :
      (message : Text)
      → parse_pagination q ≡ err message
      → answer ≡ failure 400 (str "invalid_query") message
      → SecretsAnswer c now q answer
  bad_flag :
      (request : PaginationRequest) (message : Text)
      → parse_pagination q ≡ ok request
      → bool_query_param q (str "exists") ≡ err message
      → answer ≡ failure 400 (str "invalid_query") message
      → SecretsAnswer c now q answer
  listed :
      (request : PaginationRequest) (present : Option Bool) (page : List SecretSummary)
      (pagination : PaginationResponse)
      → parse_pagination q ≡ ok request
      → bool_query_param q (str "exists") ≡ ok present
      → answer ≡ secrets_page page pagination
      → IsAskedPage q present (list_secrets c now) request page pagination
      → SecretsAnswer c now q answer

-- A list of Secrets is answered by status 400 exactly if the page or the parameter `exists` is refused,
-- with the message of the refusal. Otherwise the answer is the page of the stored Secrets whose namespace,
-- owner team, criticality and name are those of the parameters that are not empty, and that are
-- present or not as `exists` says if it is given, from the offset on, up to the limit, which
-- is at most 1000, with the limit, the offset, the number of Secrets on the page and their number in all.
pub list_secrets_handler-SecretsAnswer :
    (c : Cache) (now : Time) (q : Values) → SecretsAnswer c now q (list_secrets_handler c now q)
unfolding list_secrets_handler
list_secrets_handler-SecretsAnswer c now q =
    go (parse_pagination q) refl (bool_query_param q (str "exists")) refl
  where
    go :
        (r : Outcome Text PaginationRequest)
        → parse_pagination q ≡ r
        → (b : Outcome Text (Option Bool)) → bool_query_param q (str "exists") ≡ b
        → SecretsAnswer c now q (list_secrets_handler c now q)
    go (err m) h b k = bad_page m h (rw h refl)
    go (ok request) h (err m) k = bad_flag request m h k (rw (h, k) refl)
    go (ok request) h (ok present) k =
        let matching = keep (secret_matches q present) (list_secrets c now) in
        listed request present (paginate matching request).0 (paginate matching request).1 h k
          (rw (h, k) refl)
          (asked_page q present (list_secrets c now) request
            (parse_pagination-bounds q request h).1)
