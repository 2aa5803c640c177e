-- ===== src/Discovery/Edges/Found.antt =====
-- The edges from annotations and from Ingresses, and merging them.
use mathlib.Core.List.{Permᴰ}
use kbeacon.Prelude.{
  Outcome, ok, err, ◌≡◌, ◌≢◌, refl, Bool, true, false, Option, none, some, List, [], arith,
  if◌then◌else◌, All, All-append, Bool-cases, Option-cases, inl, inr, loop_inv-All,
}
use kbeacon.Text.{Text, ◌==◌, elem, trim_space, ==_iff}
use kbeacon.Dict.{Dict, get, values, Entries, Entries-put, Entries-get, All-values}
use kbeacon.Rearrange.{All-perm}
use kbeacon.Graph.Types.{infer, WorkloadRef, SecretRef, DependencySource, DependencyEdge}
use kbeacon.Graph.Keys.{secret_id}
use kbeacon.Discovery.SecretRefs.{RefError}
use kbeacon.Discovery.SecretRefs.Laws.{IsRef, parse_secret_ref-IsRef, parse_watch_secrets-All}
use kbeacon.Discovery.Metadata.{annotation_watch_secrets, annotation_watch_secrets_json, text_of}
use kbeacon.Discovery.Infer.{
  infer_edge, ingress_tls_edge, infer_ingress_edges, explicit_edge, watch_secrets_edges, token_edge,
  tokens_edges, explicit_annotation_edges,
}
use kbeacon.Discovery.Infer.Sound.{All-each, All-each_where}
use kbeacon.Discovery.Merge.{filter_and_merge_edge, merged_edges, filter_and_merge_edges, merge}
use kbeacon.Discovery.Edges.{IsEdgeOf, new_edge-IsEdgeOf, merge-IsEdgeOf}

All-unless :
    (P : DependencyEdge → Type 0) (b : Bool) (xs : List DependencyEdge)
    → All P xs
    → All P (if b then [] else xs)
All-unless P true xs h = tt
All-unless P false xs h = h

module _ (cluster : Text) (workload : WorkloadRef) where
  abbrev P : DependencyEdge → Type 0
  P = IsEdgeOf cluster workload

  infer_edge-IsEdgeOf :
      (name : Text) (optional : Bool) (source : DependencySource)
      → workload.namespace ≢ []
      → All P (infer_edge cluster workload name optional source)
  unfolding infer_edge
  infer_edge-IsEdgeOf name optional source there = elim (Bool-cases (name == [])) [
    | inl e ↦ rw e tt
    | inr e ↦ rw e (
      new_edge-IsEdgeOf cluster workload workload.namespace name optional infer source there
          (λ z. ground (arith, ==_iff name [])),
      tt,
    )
  ]

  pub infer_ingress_edges-IsEdgeOf :
      (tls : List Text) → workload.namespace ≢ [] → All P (infer_ingress_edges cluster workload tls)
  unfolding infer_ingress_edges ingress_tls_edge
  infer_ingress_edges-IsEdgeOf tls there =
      All-each P _ (λ i name. infer_edge-IsEdgeOf name false _ there) 0 tls

  explicit_edge-IsEdgeOf :
      (annotation default : Text) (r : SecretRef)
      → IsRef cluster default r
      → P (explicit_edge cluster workload annotation r)
  unfolding explicit_edge
  explicit_edge-IsEdgeOf annotation default r h =
      new_edge-IsEdgeOf cluster workload r.namespace r.name false _ _ h.has_namespace h.has_name

  watch_secrets_edges-IsEdgeOf :
      (default : Text) (o : Outcome RefError (List SecretRef))
      → ((rs : List SecretRef) → o ≡ ok rs → All (IsRef cluster default) rs)
      → All P (watch_secrets_edges cluster workload o)
  unfolding watch_secrets_edges
  watch_secrets_edges-IsEdgeOf default (err e) h = tt
  watch_secrets_edges-IsEdgeOf default (ok rs) h =
      All-each_where P (IsRef cluster default) _
        (λ i r ref. (explicit_edge-IsEdgeOf annotation_watch_secrets default r ref, tt)) 0 rs
        (h rs refl)

  token_edge-IsEdgeOf :
      (default : Text) (o : Outcome RefError SecretRef)
      → ((r : SecretRef) → o ≡ ok r → IsRef cluster default r)
      → All P (token_edge cluster workload o)
  unfolding token_edge
  token_edge-IsEdgeOf default (err e) h = tt
  token_edge-IsEdgeOf default (ok r) h =
      (explicit_edge-IsEdgeOf annotation_watch_secrets_json default r (h r refl), tt)

  tokens_edges-IsEdgeOf : (o : Option (List Text)) → All P (tokens_edges cluster workload o)
  unfolding tokens_edges
  tokens_edges-IsEdgeOf none = tt
  tokens_edges-IsEdgeOf (some tokens) =
      All-each P _
        (λ i token.
          token_edge-IsEdgeOf workload.namespace _
            (λ r e. parse_secret_ref-IsRef cluster workload.namespace token r e))
        0 tokens

  pub explicit_annotation_edges-IsEdgeOf :
      (unmarshal : Text → Option (List Text)) (annotations : Dict Text)
      → All P (explicit_annotation_edges cluster workload unmarshal annotations)
  unfolding explicit_annotation_edges
  explicit_annotation_edges-IsEdgeOf unmarshal annotations =
      let listed = trim_space (text_of annotation_watch_secrets annotations) in
      let encoded = trim_space (text_of annotation_watch_secrets_json annotations) in
      All-append P _ _
        (All-unless P (listed == []) _ (
          watch_secrets_edges-IsEdgeOf workload.namespace _
            (λ rs e. parse_watch_secrets-All cluster workload.namespace listed rs e)))
        (All-unless P (encoded == []) _ (tokens_edges-IsEdgeOf (unmarshal encoded)))

  -- What is put in is such an edge, and so is what it is merged into.
  filter_and_merge_edge-IsEdgeOf :
      (ignore : List Text) (m : Dict DependencyEdge) (e : DependencyEdge)
      → Entries (λ k. P) m
      → P e
      → Entries (λ k. P) (filter_and_merge_edge ignore m e)
  unfolding filter_and_merge_edge
  filter_and_merge_edge-IsEdgeOf ignore m e h p =
      elim (Bool-cases (elem (secret_id e.secret) ignore)) [
        | inl t ↦ rw t h
        | inr t ↦ elim (Option-cases (get e.id m)) [
          | inl o ↦ rw (t, o) (Entries-put (λ k. P) e.id e m p h)
          | inr (old, o) ↦
              let q : P old = Entries-get (λ k. P) e.id old m h o in
              rw (t, o)
                (Entries-put (λ k. P) e.id (merge old e) m (merge-IsEdgeOf cluster workload old e q)
                  h)
        ]
      ]

  pub filter_and_merge_edges-IsEdgeOf :
      (order : List DependencyEdge → List DependencyEdge) (es : List DependencyEdge)
      (ignore : List Text)
      → ((xs : List DependencyEdge) → Permᴰ (order xs) xs)
      → All P es
      → All P (filter_and_merge_edges order es ignore)
  unfolding filter_and_merge_edges merged_edges
  filter_and_merge_edges-IsEdgeOf order es ignore rearranges h =
      let m = merged_edges ignore es in
      All-perm P (rearranges (values m)) (
        All-values (λ k. P) P (λ k v p. p) m
          (loop_inv-All (Entries (λ k. P)) P (filter_and_merge_edge ignore)
            (filter_and_merge_edge-IsEdgeOf ignore) [] es tt h))
