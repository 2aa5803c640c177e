-- ===== src/Discovery/Merge.antt =====
-- `filterAndMergeEdges` and `ignoredSecrets` of internal/discovery/extractor.go.
pub mod Laws
use kbeacon.Prelude.{
  Outcome, ok, err, Bool, true, false, ◌&&◌, Option, none, some, List, [], ◌∷◌, ◌++◌, if◌then◌else◌,
  loop,
}
use kbeacon.Text.{Text, ◌==◌, trim_space, elem}
use kbeacon.Dict.{Dict, get, put, values}
use kbeacon.Dict.Sets.{add}
use kbeacon.Graph.Types.{hybrid, mode_eq, SecretRef, DependencyEdge}
use kbeacon.Graph.Keys.{secret_id}
use kbeacon.Discovery.SecretRefs.{RefError, parse_watch_secrets}
use kbeacon.Discovery.Metadata.{annotation_ignore_secrets, text_of}

unfoldable pub merge : DependencyEdge → DependencyEdge → DependencyEdge
merge existing edge = record existing {
  sources = existing.sources ++ edge.sources;
  optional = existing.optional && edge.optional;
  discovery_mode =
      (if mode_eq existing.discovery_mode edge.discovery_mode
        then existing.discovery_mode
        else hybrid);
}

abbrev pub merge_into : Option DependencyEdge → DependencyEdge → DependencyEdge
merge_into none edge = edge
merge_into (some existing) edge = merge existing edge

unfoldable pub filter_and_merge_edge :
    List Text → Dict DependencyEdge → DependencyEdge → Dict DependencyEdge
filter_and_merge_edge ignore merged edge =
    if elem (secret_id edge.secret) ignore
    then merged
    else put edge.id (merge_into (get edge.id merged) edge) merged

unfoldable pub merged_edges : List Text → List DependencyEdge → Dict DependencyEdge
merged_edges ignore edges = loop (filter_and_merge_edge ignore) [] edges

-- `order` is the order in which the Go runtime ranges over the merged edges.
unfoldable pub filter_and_merge_edges :
    (List DependencyEdge → List DependencyEdge)
    → List DependencyEdge
    → List Text
    → List DependencyEdge
unfolding merged_edges
filter_and_merge_edges order edges ignore = order (values (merged_edges ignore edges))

abbrev pub ignore_keys : Outcome RefError (List SecretRef) → List Text
ignore_keys (err e) = []
ignore_keys (ok refs) = loop (λ s ref. add s (secret_id ref)) [] refs

unfoldable pub ignored_secrets : Text → Text → Dict Text → List Text
ignored_secrets cluster namespace annotations =
    let value = trim_space (text_of annotation_ignore_secrets annotations) in
    if value == [] then [] else ignore_keys (parse_watch_secrets cluster namespace value)
