-- ===== src/Discovery/Custom/Certificate.antt =====
-- internal/discovery/certmanager.go: cert-manager Certificates.
use kbeacon.Prelude.{Option, none, some, List, [], ◌∷◌, if◌then◌else◌}
use kbeacon.Text.{Text, str, ◌==◌, trim_space}
use kbeacon.Graph.Types.{WorkloadRef, DependencySource, DependencyEdge, WorkloadInput}
use kbeacon.Discovery.Objects.{Options}
use kbeacon.Discovery.Infer.{no_source}
use kbeacon.Discovery.Extract.{Runtime, workload_input}
use kbeacon.Discovery.Custom.{CustomObject, Nested, trimmed_or, custom_ref, no_input, custom_edge}

abbrev certificate_source : DependencySource
certificate_source = record no_source {
  type = str "cert-manager.certificate.spec.secretName";
  path = str "spec.secretName";
  resource_field = str "spec.secretName";
}

unfoldable pub certificate_secret_name : Option Text → Option Text
certificate_secret_name none = none
certificate_secret_name (some name) =
    let trimmed = trim_space name in if trimmed == [] then none else some trimmed

unfoldable pub certificate_edges : Text → WorkloadRef → Option Text → List DependencyEdge
certificate_edges cluster ref none = []
certificate_edges cluster ref (some name) =
    custom_edge cluster ref ref.namespace name certificate_source ∷ []

unfoldable pub certificate_ref : Options → CustomObject → WorkloadRef
certificate_ref opts c =
    custom_ref opts c (trimmed_or (str "cert-manager.io/v1") c.api_version)
      (trimmed_or (str "Certificate") c.kind)

unfoldable pub workload_from_certificate :
    Runtime → Nested → Options → Option CustomObject → WorkloadInput
unfolding certificate_ref
workload_from_certificate rt nested opts none = no_input
workload_from_certificate rt nested opts (some c) =
    let ref = certificate_ref opts c in
    let path = str "spec" ∷ str "secretName" ∷ [] in
    workload_input rt opts ref c.meta.annotations c.meta.labels (
      certificate_edges opts.cluster ref
        (certificate_secret_name (nested.nested_string c.object path)))
