-- ===== src/Discovery/Custom/SecretProviderClass.antt =====
-- internal/discovery/secretproviderclass.go: SecretProviderClasses of the Secrets Store CSI driver.
use kbeacon.Prelude.{ℕ, Option, none, some, List, [], ◌∷◌, ◌++◌, if◌then◌else◌}
use kbeacon.Text.{Text, str, ◌==◌, trim_space, decimal}
use kbeacon.Json.{Json, obj, Items, to_list}
use kbeacon.Graph.Types.{WorkloadRef, DependencySource, DependencyEdge, WorkloadInput}
use kbeacon.Discovery.Objects.{Options}
use kbeacon.Discovery.Infer.{no_source, each}
use kbeacon.Discovery.Extract.{Runtime, workload_input}
use kbeacon.Discovery.Custom.{CustomObject, Nested, trimmed_or, custom_ref, no_input, custom_edge}

abbrev secret_object_source : ℕ → DependencySource
secret_object_source i =
    let path = str "spec.secretObjects[" ++ (decimal i ++ str "].secretName") in
    record no_source {
      type = str "secrets-store.csi.secretproviderclass.spec.secretObjects.secretName";
      path = path;
      resource_field = path;
    }

module _ (nested : Nested) (cluster : Text) (ref : WorkloadRef) where
  unfoldable pub secret_object_edge : ℕ → Option Text → List DependencyEdge
  secret_object_edge i none = []
  secret_object_edge i (some name) =
      let trimmed = trim_space name in
      if trimmed == []
      then []
      else custom_edge cluster ref ref.namespace trimmed (secret_object_source i) ∷ []

  -- One round of the loop over `spec.secretObjects`, which skips what is no object.
  unfoldable pub secret_object_target : ℕ → Json → List DependencyEdge
  unfolding secret_object_edge
  secret_object_target i (obj object) =
      secret_object_edge i (nested.nested_string object (str "secretName" ∷ []))
  secret_object_target i _ = []

  unfoldable pub secret_provider_class_edges : Option Items → List DependencyEdge
  secret_provider_class_edges none = []
  secret_provider_class_edges (some items) = each secret_object_target 0 (to_list items)

unfoldable pub secret_provider_class_ref : Options → CustomObject → WorkloadRef
secret_provider_class_ref opts c =
    custom_ref opts c (trimmed_or (str "secrets-store.csi.x-k8s.io/v1") c.api_version)
      (trimmed_or (str "SecretProviderClass") c.kind)

unfoldable pub workload_from_secret_provider_class :
    Runtime → Nested → Options → Option CustomObject → WorkloadInput
unfolding secret_provider_class_ref
workload_from_secret_provider_class rt nested opts none = no_input
workload_from_secret_provider_class rt nested opts (some c) =
    let ref = secret_provider_class_ref opts c in
    let path = str "spec" ∷ str "secretObjects" ∷ [] in
    workload_input rt opts ref c.meta.annotations c.meta.labels
      (secret_provider_class_edges nested opts.cluster ref (nested.nested_slice c.object path))
