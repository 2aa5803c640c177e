-- ===== src/Discovery/Custom/ExternalSecret.antt =====
-- internal/discovery/externalsecret.go: ExternalSecrets of the External Secrets Operator.
use kbeacon.Prelude.{Option, none, some, List, [], ◌∷◌, if◌then◌else◌}
use kbeacon.Text.{Text, str, ◌==◌, trim_space}
use kbeacon.Graph.Types.{WorkloadRef, DependencySource, DependencyEdge, WorkloadInput}
use kbeacon.Discovery.Objects.{Options}
use kbeacon.Discovery.Infer.{no_source}
use kbeacon.Discovery.Extract.{Runtime, workload_input}
use kbeacon.Discovery.Custom.{CustomObject, Nested, trimmed_or, custom_ref, no_input, custom_edge}

abbrev external_secret_source : Text → DependencySource
external_secret_source path = record no_source {
  type = str "external-secrets.externalsecret.spec.target.name";
  path = path;
  resource_field = path;
}

unfoldable pub metadata_name_target : Text → Option (Text × DependencySource)
metadata_name_target name =
    let trimmed = trim_space name in
    if trimmed == [] then none else some (trimmed, external_secret_source (str "metadata.name"))

-- The name of the target, or else the object's own name, and where it was found.
unfoldable pub external_secret_target_secret_name :
    Text → Option Text → Option (Text × DependencySource)
unfolding metadata_name_target
external_secret_target_secret_name name none = metadata_name_target name
external_secret_target_secret_name name (some target) =
    let trimmed = trim_space target in
    if trimmed == []
    then metadata_name_target name
    else some (trimmed, external_secret_source (str "spec.target.name"))

unfoldable pub external_secret_edges :
    Text → WorkloadRef → Option (Text × DependencySource) → List DependencyEdge
external_secret_edges cluster ref none = []
external_secret_edges cluster ref (some (name, source)) =
    custom_edge cluster ref ref.namespace name source ∷ []

unfoldable pub external_secret_ref : Options → CustomObject → WorkloadRef
external_secret_ref opts c =
    custom_ref opts c (trimmed_or (str "external-secrets.io/v1") c.api_version)
      (trimmed_or (str "ExternalSecret") c.kind)

unfoldable pub workload_from_external_secret :
    Runtime → Nested → Options → Option CustomObject → WorkloadInput
unfolding external_secret_ref
workload_from_external_secret rt nested opts none = no_input
workload_from_external_secret rt nested opts (some c) =
    let ref = external_secret_ref opts c in
    let path = str "spec" ∷ str "target" ∷ str "name" ∷ [] in
    workload_input rt opts ref c.meta.annotations c.meta.labels (
      external_secret_edges opts.cluster ref
        (external_secret_target_secret_name c.meta.name (nested.nested_string c.object path)))
