-- ===== src/Server/Health.antt =====
-- The handlers of internal/server/server.go that tell the state of the agent, the envelope of answers,
-- and the routes.
use kbeacon.Prelude.{ℕ, Bool, true, Option, none, some, List, [], ◌∷◌, if◌then◌else◌, length}
use kbeacon.Text.{Text, str, ◌==◌, trim_space}
use kbeacon.Graph.Types.{Time}
use kbeacon.Graph.Observe.{Cache}
use kbeacon.Graph.Queries.{snapshot}
use kbeacon.Controller.Status.{ResourceStatus}

-- The fields of `Options` that are texts.
pub record ServerOptions : Type 0 where
  pub cluster : Text
  pub version : Text
  pub commit : Text

pub record BuildInfo : Type 0 where
  pub version : Text
  pub commit : Text

abbrev pub known : Text → Text
known value = if trim_space value == [] then str "unknown" else trim_space value

unfoldable pub server_build_info : ServerOptions → BuildInfo
server_build_info s = record { version = known s.version; commit = known s.commit }

-- The status of the answer and the fields of its document.
pub record Healthz : Type 0 where
  pub code : ℕ
  pub status : Text
  pub build : BuildInfo

unfoldable pub healthz : ServerOptions → Healthz
healthz s = record { code = 200; status = str "ok"; build = server_build_info s }

pub record Readyz : Type 0 where
  pub code : ℕ
  pub status : Text
  pub cluster : Text
  pub build : BuildInfo
  pub caches : List ResourceStatus

abbrev pub readiness_of : Option (List ResourceStatus × Bool) → List ResourceStatus × Bool
readiness_of none = ([], true)
readiness_of (some answer) = answer

-- `readiness` is what `Options.Readiness` returns, if it is not nil.
unfoldable pub readyz : ServerOptions → Option (List ResourceStatus × Bool) → Readyz
readyz s readiness =
    let (caches, ready) = readiness_of readiness in
    record {
      code = if ready then 200 else 503;
      status = if ready then str "ready" else str "not ready";
      cluster = s.cluster;
      build = server_build_info s;
      caches = caches;
    }

pub record ApiDiscovery : Type 0 where
  pub api_version : Text
  pub cluster : Text
  pub build : BuildInfo
  pub resources : List Text

unfoldable pub api_discovery : ServerOptions → ApiDiscovery
api_discovery s = record {
  api_version = str "kbeacon.io/v1";
  cluster = s.cluster;
  build = server_build_info s;
  resources = str "secrets" ∷ str "workloads" ∷ str "dependency-map" ∷ str "config" ∷ [];
}

-- The envelope, with the time before it is formatted.
pub record Envelope (A : Type 0) : Type 0 where
  pub api_version : Text
  pub cluster : Text
  pub generated_at : Time
  pub payload : A

unfoldable pub write_envelope : {A : Type 0} → ServerOptions → Time → A → Envelope A
write_envelope s now payload = record {
  api_version = str "kbeacon.io/v1";
  cluster = s.cluster;
  generated_at = now;
  payload = payload;
}

pub record ConfigAnswer : Type 0 where
  pub cluster_name : Text
  pub agent : BuildInfo
  pub secrets : ℕ
  pub workloads : ℕ
  pub edges : ℕ

unfoldable pub config_handler : ServerOptions → Cache → Time → Envelope ConfigAnswer
unfolding write_envelope server_build_info
config_handler s cache now =
    let snap = snapshot cache now in
    write_envelope s now (record {
      cluster_name = s.cluster;
      agent = server_build_info s;
      secrets = length snap.secrets;
      workloads = length snap.workloads;
      edges = length snap.edges;
    })

pub data Handler : Type 0 where
  to_healthz to_readyz to_metrics to_discovery to_config to_list_secrets to_secret_subresource
        to_list_workloads to_workload_subresource to_dependency_map :
      Handler

-- The patterns that `routes` registers.
abbrev pub routes : List (Text × Handler)
routes =
    (str "/healthz", Handler.to_healthz)
    ∷ (str "/readyz", Handler.to_readyz)
    ∷ (str "/metrics", Handler.to_metrics)
    ∷ (str "/api/v1", Handler.to_discovery)
    ∷ (str "/api/v1/config", Handler.to_config)
    ∷ (str "/api/v1/secrets", Handler.to_list_secrets)
    ∷ (str "/api/v1/secrets/", Handler.to_secret_subresource)
    ∷ (str "/api/v1/workloads", Handler.to_list_workloads)
    ∷ (str "/api/v1/workloads/", Handler.to_workload_subresource)
    ∷ (str "/api/v1/dependency-map", Handler.to_dependency_map)
    ∷ (str "/api/secrets", Handler.to_list_secrets)
    ∷ (str "/api/secrets/", Handler.to_secret_subresource)
    ∷ (str "/api/workloads", Handler.to_list_workloads)
    ∷ (str "/api/workloads/", Handler.to_workload_subresource)
    ∷ (str "/api/dependency-map", Handler.to_dependency_map)
    ∷ []
