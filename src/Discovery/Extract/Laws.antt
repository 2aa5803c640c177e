-- ===== src/Discovery/Extract/Laws.antt =====
-- What a workload's discovery mode and annotations decide about its edges.
use mathlib.Core.List.{Permᴰ}
use kbeacon.Prelude.{
  ◌≡◌, ◌≢◌, refl, sym, ◌∙◌, true, false, ◌||◌, some, ok, List, [], ◌∷◌, map, loop, All,
  ok_injective, arith, Bool-cases, inl, inr,
}
use kbeacon.Text.{Text, elem, ◌==◌, ==_iff, trim_space, trim_left, trim_right}
use kbeacon.Dict.Sets.{add, elem-add}
use kbeacon.Discovery.SecretRefs.{parse_watch_secrets}
use kbeacon.Dict.{Dict, get}
use kbeacon.Graph.Types.{
  DiscoveryMode, unset, infer, explicit, hybrid, disabled, DependencyEdge, SecretRef,
}
use kbeacon.Graph.Keys.{secret_id}
use kbeacon.Discovery.Objects.{PodSpec, ObjectMeta, Options}
use kbeacon.Discovery.Metadata.{
  annotation_enabled, annotation_ignore_secrets, is_false, effective, discovery_mode_for,
}
use kbeacon.Discovery.Merge.{ignored_secrets}
use kbeacon.Discovery.Merge.Laws.{filter_and_merge_edges-ignored}
use kbeacon.Discovery.Extract.{Runtime, mode_edges, workload_input, workload_from_pod_spec}

-- A workload whose effective annotation `kbeacon.io/enabled` reads as false is disabled and depends
-- on no Secret, whatever its spec, its other annotations and the default mode say.
workload_from_pod_spec-turned_off :
    (rt : Runtime) (opts : Options) (api_version kind : Text) (meta : ObjectMeta)
    (template_annotations template_labels : Dict Text) (spec : PodSpec) (value : Text)
    → get annotation_enabled
        (effective meta.annotations template_annotations opts.read_pod_template_annotations)
      ≡ some value
    → is_false value ≡ true
    → let w =
        workload_from_pod_spec rt opts api_version kind meta template_annotations template_labels
          spec in
      (w.discovery_mode ≡ disabled) × (w.edges ≡ [])
unfolding workload_from_pod_spec workload_input discovery_mode_for mode_edges
workload_from_pod_spec-turned_off rt opts api_version kind meta ta tl spec value at off =
    rw (at, off) (refl, refl)

abbrev NotIgnored : List Text → DependencyEdge → Type 0
NotIgnored ignore e = elem (secret_id e.secret) ignore ≡ false

-- A member of a set of keys that was collected from references.
elem-keys :
    (z : Text) (s : List Text) (rs : List SecretRef)
    → elem z (loop (λ s ref. add s (secret_id ref)) s rs) ≡ elem z s || elem z (map secret_id rs)
unfolding elem
elem-keys z s [] = ground arith
elem-keys z s (r ∷ rs) =
    ground (arith, elem-keys z (add s (secret_id r)) rs, elem-add s (secret_id r) z)

blank-parse : (cluster namespace : Text) → parse_watch_secrets cluster namespace [] ≡ ok []
unfolding parse_watch_secrets trim_space trim_left trim_right ◌==◌
blank-parse cluster namespace = refl

-- The keys of an accepted list are those of its references.
elem-ignored_secrets :
    (z cluster namespace value : Text) (annotations : Dict Text) (rs : List SecretRef)
    → get annotation_ignore_secrets annotations ≡ some value
    → parse_watch_secrets cluster namespace (trim_space value) ≡ ok rs
    → elem z (ignored_secrets cluster namespace annotations) ≡ elem z (map secret_id rs)
unfolding ignored_secrets
elem-ignored_secrets z cluster namespace value annotations rs at accepted =
    elim (Bool-cases (trim_space value == [])) [
      | inl e ↦
          let blank = (==_iff (trim_space value) []).0 e in
          let nothing : rs ≡ [] =
            ok_injective accepted (rw blank (blank-parse cluster namespace)) in
          rw (at, e, nothing) refl
      | inr e ↦ rw (at, e, accepted) (unfold elem in elem-keys z [] rs)
    ]

-- An edge to none of some references.
abbrev pub ToNone : List SecretRef → DependencyEdge → Type 0
ToNone rs e = All (λ r. secret_id e.secret ≢ secret_id r) rs

unlisted :
    (rs : List SecretRef) (e : DependencyEdge)
    → elem (secret_id e.secret) (map secret_id rs) ≡ false
    → ToNone rs e
unfolding elem
unlisted [] e h = tt
unlisted (r ∷ rs) e h = (
  λ same. ground (arith, ==_iff (secret_id r) (secret_id e.secret)),
  unlisted rs e (ground arith),
)

All-unlisted :
    (rs : List SecretRef) (ignore : List Text)
    → ((z : Text) → elem z ignore ≡ elem z (map secret_id rs))
    → (es : List DependencyEdge) → All (NotIgnored ignore) es
    → All (ToNone rs) es
All-unlisted rs ignore same [] h = tt
All-unlisted rs ignore same (e ∷ es) (p, h) =
    (unlisted rs e (sym (same (secret_id e.secret)) ∙ p), All-unlisted rs ignore same es h)

module _ (rt : Runtime) (rearranges : (xs : List DependencyEdge) → Permᴰ (rt.order xs) xs) where
  mode_edges-ignored :
      (mode : DiscoveryMode) (inferred annotated : List DependencyEdge) (ignore : List Text)
      → All (NotIgnored ignore) (mode_edges rt mode inferred annotated ignore)
  unfolding mode_edges
  mode_edges-ignored unset _ _ ignore = filter_and_merge_edges-ignored rt.order _ ignore rearranges
  mode_edges-ignored infer _ _ ignore = filter_and_merge_edges-ignored rt.order _ ignore rearranges
  mode_edges-ignored explicit _ _ ignore =
      filter_and_merge_edges-ignored rt.order _ ignore rearranges
  mode_edges-ignored hybrid _ _ ignore = filter_and_merge_edges-ignored rt.order _ ignore rearranges
  mode_edges-ignored disabled _ _ ignore = tt

  -- In every discovery mode, no edge of a workload goes to a Secret that the workload's effective
  -- annotation `kbeacon.io/ignore-secrets` lists, where ranging over a map rearranges its entries.
  workload_from_pod_spec-ignored :
      (opts : Options) (api_version kind : Text) (meta : ObjectMeta)
      (template_annotations template_labels : Dict Text) (spec : PodSpec)
      → All
          (λ e.
            elem (secret_id e.secret) (
              ignored_secrets opts.cluster meta.namespace (
                effective meta.annotations template_annotations opts.read_pod_template_annotations))
            ≡ false)
          (workload_from_pod_spec rt opts api_version kind meta template_annotations template_labels
            spec).edges
  unfolding workload_from_pod_spec workload_input
  workload_from_pod_spec-ignored opts api_version kind meta ta tl spec = mode_edges-ignored _ _ _ _

  -- If the effective annotation `kbeacon.io/ignore-secrets` of a workload is accepted as a list of
  -- references, the workload has no edge to any of the Secrets that they name, in every discovery mode,
  -- where ranging over a map rearranges its entries. This holds for edges that were declared by
  -- annotations as for inferred ones.
  pub workload_from_pod_spec-ToNone :
      (opts : Options) (api_version kind : Text) (meta : ObjectMeta)
      (template_annotations template_labels : Dict Text) (spec : PodSpec) (value : Text)
      (rs : List SecretRef)
      → get annotation_ignore_secrets
          (effective meta.annotations template_annotations opts.read_pod_template_annotations)
        ≡ some value
      → parse_watch_secrets opts.cluster meta.namespace (trim_space value) ≡ ok rs
      → All
          (ToNone rs)
          (workload_from_pod_spec rt opts api_version kind meta template_annotations template_labels
            spec).edges
  workload_from_pod_spec-ToNone opts api_version kind meta ta tl spec value rs at accepted =
      All-unlisted rs _
        (λ z. elem-ignored_secrets z opts.cluster meta.namespace value _ rs at accepted) _
        (workload_from_pod_spec-ignored opts api_version kind meta ta tl spec)
