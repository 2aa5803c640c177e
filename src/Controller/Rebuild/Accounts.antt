-- ===== src/Controller/Rebuild/Accounts.antt =====
-- The pull secrets that `rebuild` reads from service accounts all have names.
use mathlib.Core.List.{Permᴰ}
use kbeacon.Prelude.{
  ◌≢◌, List, [], ◌∷◌, arith, if◌then◌else◌, loop_inv, All, Bool-cases, inl, inr, Option-cases,
}
use kbeacon.Text.{Text, ◌==◌, ==_iff}
use kbeacon.Dict.{Dict, get, Entries, Entries-put, Entries-get}
use kbeacon.Graph.Types.{DependencyEdge}
use kbeacon.Discovery.Objects.{Options}
use kbeacon.Discovery.Infer.{service_account_key, service_account_image_pull_secret_names}
use kbeacon.Discovery.Extract.{Runtime}
use kbeacon.Discovery.Edges.Workloads.{AccountsNamed}
use kbeacon.Controller.Namespaces.{NamespaceFilter, includes}
use kbeacon.Controller.Rebuild.{ServiceAccount, no_blanks, put_unless_empty, pull_secrets}

abbrev Named : List Text → Type 0
Named names = All (λ name. name ≢ []) names

Named-no_blanks : (names : List Text) → Named (no_blanks names)
Named-no_blanks [] = tt
Named-no_blanks (n ∷ ns) = elim (Bool-cases (n == [])) [
  | inl e ↦ rw e (Named-no_blanks ns)
  | inr e ↦ rw e (λ z. ground (arith, ==_iff n []), Named-no_blanks ns)
]

Entries-put_unless_empty :
    (key : Text) (names : List Text) (m : Dict (List Text))
    → Named names
    → Entries (λ k. Named) m
    → Entries (λ k. Named) (put_unless_empty key names m)
Entries-put_unless_empty key [] m h all = all
Entries-put_unless_empty key (n ∷ ns) m h all = Entries-put (λ k. Named) key (n ∷ ns) m h all

module _ (rt : Runtime) (cluster : Text) (filter : NamespaceFilter) where
  pull_secrets-Named :
      (accounts : List ServiceAccount)
      → Entries (λ k. Named) (pull_secrets rt cluster filter accounts)
  unfolding pull_secrets
  pull_secrets-Named accounts = loop_inv (Entries (λ k. Named)) _ step [] accounts tt
    where
      step :
          (m : Dict (List Text)) (account : ServiceAccount)
          → Entries (λ k. Named) m
          → Entries
              (λ k. Named)
              (if includes filter account.namespace
                then put_unless_empty
                    (service_account_key account.namespace account.name)
                    (no_blanks account.image_pull_secrets)
                    m
                else m)
      step m account h = elim (Bool-cases (includes filter account.namespace)) [
        | inl e ↦
            rw e (Entries-put_unless_empty _ _ m (Named-no_blanks account.image_pull_secrets) h)
        | inr e ↦ rw e h
      ]

  -- The options that `rebuild` extracts with.
  abbrev pub with_accounts : Options → List ServiceAccount → Options
  with_accounts opts accounts = record opts {
    service_account_image_pull_secrets = pull_secrets rt cluster filter accounts;
  }

  pub with_accounts-AccountsNamed :
      (rearranges : (xs : List DependencyEdge) → Permᴰ (rt.order xs) xs) (opts : Options)
      (accounts : List ServiceAccount)
      → AccountsNamed rt rearranges (with_accounts opts accounts)
  unfolding service_account_image_pull_secret_names
  with_accounts-AccountsNamed rearranges opts accounts namespace account =
      let m = pull_secrets rt cluster filter accounts in
      let key = service_account_key namespace account in
      elim (Option-cases (get key m)) [
        | inl e ↦ rw e tt
        | inr (names, e) ↦
            rw e (Entries-get (λ k. Named) key names m (pull_secrets-Named accounts) e)
      ]
