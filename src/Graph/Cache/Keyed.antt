-- ===== src/Graph/Cache/Keyed.antt =====
-- Every summary and edge of a rebuilt cache stands under its own key, once, in the cache's cluster.
use kbeacon.Prelude.{
  ◌≡◌, refl, List, [], loop_inv, loop_inv-All, Option-cases, Bool-cases, inl, inr, All,
}
use kbeacon.Text.{Text}
use kbeacon.Dict.{
  Dict, get, values, Unique, Unique-put, Unique-map_values, Entries, Entries-put, Entries-get,
  Entries-map_values, has, All-values,
}
use kbeacon.Graph.Types.{
  Time, DependencyEdge, SecretSummary, WorkloadSummary, SecretInput, WorkloadInput,
}
use kbeacon.Graph.Keys.{edge_id, secret_id, workload_id}
use kbeacon.Graph.Observe.{
  Cache, observe_secret, observe_secrets, secret_summary, prepare_edge, merge_edge, merged,
  observe_edge, workload_summary, observe_workload, observe_workloads,
}
use kbeacon.Graph.Aggregate.{
  index_edges, placeholder, add_placeholder, add_placeholders, complete_secret, complete_workload,
}
use kbeacon.Graph.Cache.{apply_snapshot}
use kbeacon.Graph.Cache.Counts.{Rearranges}
use kbeacon.Rearrange.{All-perm}

module _ (cluster : Text) where
  pub record SecretAt (k : Text) (s : SecretSummary) : Type 0 where
    pub id : secret_id s.ref ≡ k
    pub in_cluster : s.ref.cluster ≡ cluster
    pub no_key : s.ref.key ≡ []

  pub record WorkloadAt (k : Text) (w : WorkloadSummary) : Type 0 where
    pub id : workload_id w.ref ≡ k
    pub in_cluster : w.ref.cluster ≡ cluster

  pub record EdgeAt (k : Text) (e : DependencyEdge) : Type 0 where
    pub id : e.id ≡ k
    pub ends : edge_id e.workload e.secret ≡ k
    pub in_cluster : e.cluster ≡ cluster
    pub workload_in_cluster : e.workload.cluster ≡ cluster
    pub secret_in_cluster : e.secret.cluster ≡ cluster
    pub no_key : e.secret.key ≡ []

pub record IsKeyed (c : Cache) : Type 0 where
  pub secrets : Entries (SecretAt c.cluster) c.secrets
  pub secrets_once : Unique c.secrets
  pub workloads : Entries (WorkloadAt c.cluster) c.workloads
  pub workloads_once : Unique c.workloads
  pub edges : Entries (EdgeAt c.cluster) c.edges
  pub edges_once : Unique c.edges

merge_edge-EdgeAt :
    (cluster k : Text) (a b : DependencyEdge)
    → EdgeAt cluster k a
    → EdgeAt cluster k (merge_edge a b)
unfolding merge_edge
merge_edge-EdgeAt cluster k a b h = record {
  id = h.id;
  ends = h.ends;
  in_cluster = h.in_cluster;
  workload_in_cluster = h.workload_in_cluster;
  secret_in_cluster = h.secret_in_cluster;
  no_key = h.no_key;
}

-- The edge that is stored for `e` is keyed like `e`, whether it was merged or not.
merged-EdgeAt :
    (cluster : Text) (edges : Dict DependencyEdge) (e : DependencyEdge)
    → Entries (EdgeAt cluster) edges
    → EdgeAt cluster e.id e
    → EdgeAt cluster e.id (merged (get e.id edges) e)
merged-EdgeAt cluster edges e h at = elim (Option-cases (get e.id edges)) [
  | inl absent ↦ rw absent at
  | inr (old, found) ↦
      rw found
        (merge_edge-EdgeAt cluster e.id old e (Entries-get (EdgeAt cluster) e.id old edges h found))
]

module _ (c : Cache) (now : Time) where
  abbrev SecretsKeyed : Dict SecretSummary × Dict Text → Type 0
  SecretsKeyed (secrets, versions) = Entries (SecretAt c.cluster) secrets × Unique secrets

  observe_secret-keyed :
      (m : Dict SecretSummary × Dict Text) (input : SecretInput)
      → SecretsKeyed m
      → SecretsKeyed (observe_secret c now m input)
  unfolding observe_secret secret_summary
  observe_secret-keyed (secrets, versions) input (h, u) = (
    Entries-put (SecretAt c.cluster) _ _ secrets
        (record { id = refl; in_cluster = refl; no_key = refl }) h,
    Unique-put _ _ secrets u,
  )

  pub observe_secrets-keyed :
      (inputs : List SecretInput) → SecretsKeyed (observe_secrets c now inputs)
  unfolding observe_secrets
  observe_secrets-keyed inputs =
      loop_inv SecretsKeyed (observe_secret c now) observe_secret-keyed ([], []) inputs (tt, tt)

  module _ (new_secrets : Dict SecretSummary) where
    abbrev EdgesKeyed : Dict DependencyEdge → Type 0
    EdgesKeyed edges = Entries (EdgeAt c.cluster) edges × Unique edges

    prepare_edge-EdgeAt :
        (input : WorkloadInput) (e : DependencyEdge)
        → EdgeAt c.cluster
            (prepare_edge c now new_secrets input e).id
            (prepare_edge c now new_secrets input e)
    unfolding prepare_edge
    prepare_edge-EdgeAt input e = record {
      id = refl;
      ends = refl;
      in_cluster = refl;
      workload_in_cluster = refl;
      secret_in_cluster = refl;
      no_key = refl;
    }

    observe_edge-keyed :
        (input : WorkloadInput) (edges : Dict DependencyEdge) (e : DependencyEdge)
        → EdgesKeyed edges
        → EdgesKeyed (observe_edge c now new_secrets input edges e)
    unfolding observe_edge
    observe_edge-keyed input edges e (h, u) =
        let ready = prepare_edge c now new_secrets input e in
        (
          Entries-put (EdgeAt c.cluster) ready.id (merged (get ready.id edges) ready) edges
              (merged-EdgeAt c.cluster edges ready h (prepare_edge-EdgeAt input e)) h,
          Unique-put ready.id (merged (get ready.id edges) ready) edges u,
        )

    abbrev WorkloadsKeyed : Dict WorkloadSummary × Dict DependencyEdge → Type 0
    WorkloadsKeyed (workloads, edges) =
        Entries (WorkloadAt c.cluster) workloads × Unique workloads × EdgesKeyed edges

    observe_workload-keyed :
        (m : Dict WorkloadSummary × Dict DependencyEdge) (input : WorkloadInput)
        → WorkloadsKeyed m
        → WorkloadsKeyed (observe_workload c now new_secrets m input)
    unfolding observe_workload workload_summary
    observe_workload-keyed (workloads, edges) input (h, u, es) = (
      Entries-put (WorkloadAt c.cluster) _ _ workloads (record { id = refl; in_cluster = refl }) h,
      Unique-put _ _ workloads u,
      loop_inv EdgesKeyed (observe_edge c now new_secrets input) (observe_edge-keyed input) edges
          input.edges es,
    )

    pub observe_workloads-keyed :
        (inputs : List WorkloadInput) → WorkloadsKeyed (observe_workloads c now new_secrets inputs)
    unfolding observe_workloads
    observe_workloads-keyed inputs =
        loop_inv WorkloadsKeyed (observe_workload c now new_secrets) observe_workload-keyed ([], [])
          inputs (tt, tt, (tt, tt))

-- Placeholders are keyed by the Secret of the edge that asks for them.
module _ (cluster : Text) where
  abbrev PlaceholdersKeyed : Dict SecretSummary → Type 0
  PlaceholdersKeyed secrets = Entries (SecretAt cluster) secrets × Unique secrets

  add_placeholder-keyed :
      (secrets : Dict SecretSummary) (e : DependencyEdge)
      → PlaceholdersKeyed secrets
      → (e.secret.cluster ≡ cluster) × (e.secret.key ≡ [])
      → PlaceholdersKeyed (add_placeholder secrets e)
  unfolding add_placeholder
  add_placeholder-keyed secrets e (h, u) (in_cluster, no_key) =
      let skey = secret_id e.secret in
      elim (Bool-cases (has skey secrets)) [
        | inl old ↦ rw old (h, u)
        | inr new ↦ rw new (
          Entries-put (SecretAt cluster) skey (placeholder e) secrets
              (record { id = refl; in_cluster = in_cluster; no_key = no_key }) h,
          Unique-put skey (placeholder e) secrets u,
        )
      ]

  abbrev SecretKeyed : DependencyEdge → Type 0
  SecretKeyed e = (e.secret.cluster ≡ cluster) × (e.secret.key ≡ [])

  add_placeholders-keyed :
      (secrets : Dict SecretSummary) (es : List DependencyEdge)
      → PlaceholdersKeyed secrets
      → All SecretKeyed es
      → PlaceholdersKeyed (add_placeholders secrets es)
  unfolding add_placeholders
  add_placeholders-keyed secrets es h all =
      loop_inv-All PlaceholdersKeyed SecretKeyed add_placeholder add_placeholder-keyed secrets es h
        all

complete_secret-SecretAt :
    (cluster k : Text) (es : List DependencyEdge) (s : SecretSummary)
    → SecretAt cluster k s
    → SecretAt cluster k (complete_secret (index_edges es) k s)
unfolding complete_secret
complete_secret-SecretAt cluster k es s h = record {
  id = h.id;
  in_cluster = h.in_cluster;
  no_key = h.no_key;
}

complete_workload-WorkloadAt :
    (cluster k : Text) (es : List DependencyEdge) (w : WorkloadSummary)
    → WorkloadAt cluster k w
    → WorkloadAt cluster k (complete_workload (index_edges es) k w)
unfolding complete_workload
complete_workload-WorkloadAt cluster k es w h = record { id = h.id; in_cluster = h.in_cluster }

-- After a rebuild every Secret and workload summary and every edge stands once, under the key that
-- its own references give, and in the cache's cluster, whatever was listed and in whatever order the
-- runtime ranges over the edges.
pub apply_snapshot-IsKeyed :
    (order : List DependencyEdge → List DependencyEdge) (c : Cache) (sis : List SecretInput)
    (wis : List WorkloadInput) (now : Time)
    → Rearranges order
    → IsKeyed (apply_snapshot order c sis wis now)
unfolding apply_snapshot
apply_snapshot-IsKeyed order c sis wis now ok =
    let (secrets, _) = observe_secrets c now sis in
    let (workloads, edges) = observe_workloads c now secrets wis in
    let ranged = order (values edges) in
    let (ws, ws_once, (es, es_once)) = observe_workloads-keyed c now secrets wis in
    let (ss, ss_once) =
      add_placeholders-keyed c.cluster secrets ranged (observe_secrets-keyed c now sis) (
        All-perm (SecretKeyed c.cluster) (ok (values edges)) (
          All-values (EdgeAt c.cluster) (SecretKeyed c.cluster)
            (λ k e h. (h.secret_in_cluster, h.no_key)) edges es)) in
    record {
      secrets =
          Entries-map_values (SecretAt c.cluster) (complete_secret (index_edges ranged)) _
            (λ k s h. complete_secret-SecretAt c.cluster k ranged s h) ss;
      secrets_once = Unique-map_values _ _ ss_once;
      workloads =
          Entries-map_values (WorkloadAt c.cluster) (complete_workload (index_edges ranged)) _
            (λ k w h. complete_workload-WorkloadAt c.cluster k ranged w h) ws;
      workloads_once = Unique-map_values _ _ ws_once;
      edges = es;
      edges_once = es_once;
    }
