-- ===== src/Graph/Cache/Links.antt =====
-- The links from edges to Secrets after a rebuild: no edge dangles, and `resolved` says whether the
-- Secret was observed.
use kbeacon.Prelude.{
  ◌≡◌, refl, sym, ap, ◌∙◌, true, ◌||◌, some, List, [], ◌∷◌, map, arith, loop_inv, loop_inv-All, All,
  Option-cases, inl, inr, is_some,
}
use kbeacon.Rearrange.{elem-map-perm, All-elem-map}
use kbeacon.Text.{Text, ◌==◌, ==_iff, elem}
use kbeacon.Dict.{
  Dict, get, has, get-put, has-put, values, map_values, get-map_values, Entries, Entries-put,
  Entries-get, Entries-combine, option_map,
}
use kbeacon.Graph.Types.{
  Time, DependencyEdge, SecretSummary, WorkloadSummary, SecretInput, WorkloadInput,
}
use kbeacon.Graph.Keys.{edge_id, secret_id}
use kbeacon.Graph.Keys.Injective.{PipeFree, edge_id_injective}
use kbeacon.Graph.Observe.{
  Cache, observe_secret, observe_secrets, secret_summary, prepare_edge, merge_edge, merged,
  observe_edge, observe_workload, observe_workloads,
}
use kbeacon.Graph.Aggregate.{
  index_edges, placeholder, add_placeholder, add_placeholders, complete_secret,
}
use kbeacon.Graph.Aggregate.Reads.{secret_key}
use kbeacon.Graph.Cache.{apply_snapshot}
use kbeacon.Graph.Cache.Counts.{Rearranges}

-- The parts of a listed edge's key hold no `|`.
abbrev pub IsPipeFree : DependencyEdge → Type 0
IsPipeFree e = PipeFree e.workload e.secret

abbrev pub InputIsPipeFree : WorkloadInput → Type 0
InputIsPipeFree input = All IsPipeFree input.edges

module _ (cluster : Text) (new_secrets : Dict SecretSummary) where
  record LinkAt (k : Text) (e : DependencyEdge) : Type 0 where
    ends : edge_id e.workload e.secret ≡ k
    in_cluster : e.workload.cluster ≡ cluster
    pipe_free : PipeFree e.workload e.secret
    resolved : e.resolved ≡ has (secret_id e.secret) new_secrets

  same_secret :
      (k : Text) (a b : DependencyEdge)
      → LinkAt k a
      → LinkAt k b
      → secret_id a.secret ≡ secret_id b.secret
  unfolding secret_id
  same_secret k a b p q =
      let (_, _, _, ns, name) =
        edge_id_injective a.workload b.workload a.secret b.secret (p.in_cluster ∙ sym q.in_cluster)
          p.pipe_free q.pipe_free (p.ends ∙ sym q.ends) in
      cc (ns, name)

  merge_edge-LinkAt :
      (k : Text) (a b : DependencyEdge) → LinkAt k a → LinkAt k b → LinkAt k (merge_edge a b)
  unfolding merge_edge
  merge_edge-LinkAt k a b p q = record {
    ends = p.ends;
    in_cluster = p.in_cluster;
    pipe_free = p.pipe_free;
    resolved =
        ground (arith, p.resolved, q.resolved, ap (λ s. has s new_secrets) (same_secret k a b p q));
  }

  merged-LinkAt :
      (edges : Dict DependencyEdge) (k : Text) (e : DependencyEdge)
      → Entries LinkAt edges
      → LinkAt k e
      → LinkAt k (merged (get k edges) e)
  merged-LinkAt edges k e h at = elim (Option-cases (get k edges)) [
    | inl absent ↦ rw absent at
    | inr (old, found) ↦
        rw found (merge_edge-LinkAt k old e (Entries-get LinkAt k old edges h found) at)
  ]

module _ (c : Cache) (now : Time) (new_secrets : Dict SecretSummary) where
  abbrev Linked : Dict DependencyEdge → Type 0
  Linked edges = Entries (LinkAt c.cluster new_secrets) edges

  prepare_edge-LinkAt :
      (input : WorkloadInput) (e : DependencyEdge)
      → IsPipeFree e
      → LinkAt c.cluster new_secrets
          (prepare_edge c now new_secrets input e).id
          (prepare_edge c now new_secrets input e)
  unfolding prepare_edge
  prepare_edge-LinkAt input e f = record {
    ends = refl;
    in_cluster = refl;
    pipe_free = record {
      namespace = f.namespace;
      kind = f.kind;
      name = f.name;
      secret_namespace = f.secret_namespace;
    };
    resolved = refl;
  }

  observe_edge-Linked :
      (input : WorkloadInput) (edges : Dict DependencyEdge) (e : DependencyEdge)
      → Linked edges
      → IsPipeFree e
      → Linked (observe_edge c now new_secrets input edges e)
  unfolding observe_edge
  observe_edge-Linked input edges e h f =
      let ready = prepare_edge c now new_secrets input e in
      Entries-put (LinkAt c.cluster new_secrets) ready.id (merged (get ready.id edges) ready) edges
        (merged-LinkAt c.cluster new_secrets edges ready.id ready h (prepare_edge-LinkAt input e f))
        h

  abbrev WorkloadsLinked : Dict WorkloadSummary × Dict DependencyEdge → Type 0
  WorkloadsLinked (workloads, edges) = Linked edges

  observe_workload-Linked :
      (m : Dict WorkloadSummary × Dict DependencyEdge) (input : WorkloadInput)
      → WorkloadsLinked m
      → InputIsPipeFree input
      → WorkloadsLinked (observe_workload c now new_secrets m input)
  unfolding observe_workload
  observe_workload-Linked (workloads, edges) input h all =
      loop_inv-All Linked IsPipeFree (observe_edge c now new_secrets input)
        (observe_edge-Linked input) edges input.edges h all

  observe_workloads-Linked :
      (inputs : List WorkloadInput)
      → All InputIsPipeFree inputs
      → WorkloadsLinked (observe_workloads c now new_secrets inputs)
  unfolding observe_workloads
  observe_workloads-Linked inputs all =
      loop_inv-All WorkloadsLinked InputIsPipeFree (observe_workload c now new_secrets)
        observe_workload-Linked ([], []) inputs tt all

-- `present` says which summaries were observed.
abbrev Observed : Dict SecretSummary → Dict SecretSummary → Type 0
Observed new_secrets secrets =
    (k : Text) (s : SecretSummary) → get k secrets ≡ some s → s.present ≡ has k new_secrets

abbrev AllPresent : Dict SecretSummary × Dict Text → Type 0
AllPresent (secrets, versions) =
    (k : Text) (s : SecretSummary) → get k secrets ≡ some s → s.present ≡ true

present-secret_summary :
    (c : Cache) (now : Time) (input : SecretInput) → (secret_summary c now input).present ≡ true
unfolding secret_summary
present-secret_summary c now input = refl

observe_secret-AllPresent :
    (c : Cache) (now : Time) (m : Dict SecretSummary × Dict Text) (input : SecretInput)
    → AllPresent m
    → AllPresent (observe_secret c now m input)
unfolding observe_secret
observe_secret-AllPresent c now (secrets, versions) input h k s e =
    let key = secret_id (record input.ref { cluster = c.cluster; key = [] }) in
    ground (
      arith,
      get-put key k (secret_summary c now input) secrets,
      present-secret_summary c now input,
      h k s,
    )

observe_secrets-AllPresent :
    (c : Cache) (now : Time) (inputs : List SecretInput) → AllPresent (observe_secrets c now inputs)
unfolding observe_secrets get
observe_secrets-AllPresent c now inputs =
    loop_inv AllPresent (observe_secret c now) (observe_secret-AllPresent c now) ([], []) inputs
      (λ k s h. cc)

observe_secrets-Observed :
    (c : Cache) (now : Time) (inputs : List SecretInput)
    → Observed (observe_secrets c now inputs).0 (observe_secrets c now inputs).0
observe_secrets-Observed c now inputs k s e =
    observe_secrets-AllPresent c now inputs k s e ∙ sym (ap is_some e)

has-add_placeholder :
    (secrets : Dict SecretSummary) (e : DependencyEdge) (k : Text)
    → has k (add_placeholder secrets e) ≡ has k secrets || secret_id e.secret == k
unfolding add_placeholder
has-add_placeholder secrets e k =
    let skey = secret_id e.secret in
    ground (
      arith,
      has-put skey k (placeholder e) secrets,
      ==_iff skey k,
      get-put skey k (placeholder e) secrets,
    )

has-add_placeholders :
    (secrets : Dict SecretSummary) (es : List DependencyEdge) (k : Text)
    → has k (add_placeholders secrets es) ≡ has k secrets || elem k (map secret_key es)
unfolding add_placeholders elem
has-add_placeholders secrets [] k = ground arith
has-add_placeholders secrets (e ∷ es) k =
    ground (
      arith,
      has-add_placeholders (add_placeholder secrets e) es k,
      has-add_placeholder secrets e k,
    )

module _ (new_secrets : Dict SecretSummary) where
  abbrev Extends : Dict SecretSummary → Type 0
  Extends secrets =
      Observed new_secrets secrets × ((k : Text) → has k new_secrets ≡ true → has k secrets ≡ true)

  add_placeholder-Extends :
      (secrets : Dict SecretSummary) (e : DependencyEdge)
      → Extends secrets
      → Extends (add_placeholder secrets e)
  add_placeholder-Extends secrets e (h, sub) = (
    λ k s found.
        unfold add_placeholder in
        ground (
          arith,
          h k s,
          sub k,
          ==_iff (secret_id e.secret) k,
          get-put (secret_id e.secret) k (placeholder e) secrets,
        ),
    λ k there. ground (arith, sub k there, has-add_placeholder secrets e k),
  )

  add_placeholders-Extends :
      (secrets : Dict SecretSummary) (es : List DependencyEdge)
      → Extends secrets
      → Extends (add_placeholders secrets es)
  unfolding add_placeholders
  add_placeholders-Extends = loop_inv Extends add_placeholder add_placeholder-Extends

present-complete_secret :
    (k : Text) (es : List DependencyEdge) (s : SecretSummary)
    → (complete_secret (index_edges es) k s).present ≡ s.present
unfolding complete_secret
present-complete_secret k es s = refl

-- The summary that an edge's Secret has, and what `resolved` says of it.
abbrev pub LinksTo : Dict SecretSummary → DependencyEdge → Type 0
LinksTo secrets e =
    (s : SecretSummary) × (get (secret_id e.secret) secrets ≡ some s) × (e.resolved ≡ s.present)

-- An edge whose Secret is among the completed summaries links to one of them.
link :
    (new_secrets secrets : Dict SecretSummary) (es : List DependencyEdge) (e : DependencyEdge)
    → Extends new_secrets secrets
    → e.resolved ≡ has (secret_id e.secret) new_secrets
    → has (secret_id e.secret) secrets ≡ true
    → LinksTo (map_values (complete_secret (index_edges es)) secrets) e
link new_secrets secrets es e (h, _) resolved there =
    let skey = secret_id e.secret in
    elim (Option-cases (get skey secrets)) [
      | inl absent ↦ absurd (ground arith)
      | inr (s, found) ↦ (
        complete_secret (index_edges es) skey s,
        get-map_values (complete_secret (index_edges es)) skey secrets
            ∙ ap (option_map (complete_secret (index_edges es) skey)) found,
        resolved ∙ sym (h skey s found) ∙ sym (present-complete_secret skey es s),
      )
    ]

-- After a rebuild from edges whose key parts hold no `|`, every stored edge leads to a stored Secret
-- summary, and it is resolved exactly when that summary says that the Secret exists.
pub apply_snapshot-LinksTo :
    (order : List DependencyEdge → List DependencyEdge) (c : Cache) (sis : List SecretInput)
    (wis : List WorkloadInput) (now : Time)
    → Rearranges order
    → All InputIsPipeFree wis
    → Entries
        (λ k e. LinksTo (apply_snapshot order c sis wis now).secrets e)
        (apply_snapshot order c sis wis now).edges
unfolding apply_snapshot
apply_snapshot-LinksTo order c sis wis now ok all =
    let (new_secrets, _) = observe_secrets c now sis in
    let (_, edges) = observe_workloads c now new_secrets wis in
    let ranged = order (values edges) in
    let extends =
      add_placeholders-Extends new_secrets new_secrets ranged
        (observe_secrets-Observed c now sis, λ k h. h) in
    Entries-combine (LinkAt c.cluster new_secrets)
      (λ e. elem (secret_key e) (map secret_key ranged) ≡ true)
      (λ k e.
        LinksTo
          (map_values (complete_secret (index_edges ranged)) (add_placeholders new_secrets ranged))
          e)
      (λ k e at there.
        link new_secrets (add_placeholders new_secrets ranged) ranged e extends at.resolved
          (ground (arith, has-add_placeholders new_secrets ranged (secret_id e.secret))))
      edges (observe_workloads-Linked c now new_secrets wis all)
      (All-elem-map secret_key (values edges) (map secret_key ranged)
        (λ z h. elem-map-perm secret_key z (ok (values edges)) ∙ h))
