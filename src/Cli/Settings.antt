-- ===== src/Cli/Settings.antt =====
-- The settings that cmd/kbeaconctl/cli_config.go keeps, and their keys.
pub mod Store
use kbeacon.Prelude.{Bool, Outcome, ok, err, List, [], ◌∷◌, ◌++◌, if◌then◌else◌}
use kbeacon.Text.{Text, str, ◌==◌, trim_space, to_lower, elem, join, replace_byte}

pub record CliConfig : Type 0 where
  pub server : Text
  pub namespace : Text
  pub service : Text
  pub service_port : Text
  pub kubeconfig : Text
  pub context : Text

abbrev pub empty_config : CliConfig
empty_config = record {
  server = [];
  namespace = [];
  service = [];
  service_port = [];
  kubeconfig = [];
  context = [];
}

-- `cliConfigKeys`, which is sorted as it stands.
abbrev pub cli_config_keys : List Text
cli_config_keys =
    str "context"
    ∷ str "kubeconfig"
    ∷ str "namespace"
    ∷ str "server"
    ∷ str "service"
    ∷ str "service-port"
    ∷ []

abbrev pub supported_cli_config_keys : Text
supported_cli_config_keys = join (str ", ") cli_config_keys

-- `quote` is the verb `%q`.
unfoldable pub normalize_cli_config_key : (Text → Text) → Text → Outcome Text Text
normalize_cli_config_key quote value =
    let key = replace_byte b'_' (str "-") (to_lower (trim_space value)) in
    if elem key (str "namespace" ∷ str "ns" ∷ [])
    then ok (str "namespace")
    else if elem key (str "service" ∷ str "svc" ∷ [])
    then ok (str "service")
    else if elem key (str "service-port" ∷ str "serviceport" ∷ str "port" ∷ [])
    then ok (str "service-port")
    else if elem key (str "kubeconfig" ∷ str "kube-config" ∷ [])
    then ok (str "kubeconfig")
    else if elem key (str "context" ∷ str "ctx" ∷ [])
    then ok (str "context")
    else if elem key (str "server" ∷ str "url" ∷ str "agent-url" ∷ [])
    then ok (str "server")
    else err (
        str "unsupported config key "
        ++ (quote value ++ (str "; supported keys: " ++ supported_cli_config_keys)))

unfoldable pub set_cli_config_value : CliConfig → Text → Text → CliConfig
set_cli_config_value cfg key value =
    if key == str "namespace"
    then record cfg { namespace = value }
    else if key == str "service"
    then record cfg { service = value }
    else if key == str "service-port"
    then record cfg { service_port = value }
    else if key == str "kubeconfig"
    then record cfg { kubeconfig = value }
    else if key == str "context"
    then record cfg { context = value }
    else if key == str "server"
    then record cfg { server = value }
    else cfg

unfoldable pub unset_cli_config_value : CliConfig → Text → CliConfig
unset_cli_config_value cfg key =
    if key == str "namespace"
    then record cfg { namespace = [] }
    else if key == str "service"
    then record cfg { service = [] }
    else if key == str "service-port"
    then record cfg { service_port = [] }
    else if key == str "kubeconfig"
    then record cfg { kubeconfig = [] }
    else if key == str "context"
    then record cfg { context = [] }
    else if key == str "server"
    then record cfg { server = [] }
    else cfg

unfoldable pub cli_config_value : CliConfig → Text → Text
cli_config_value cfg key =
    if key == str "namespace"
    then cfg.namespace
    else if key == str "service"
    then cfg.service
    else if key == str "service-port"
    then cfg.service_port
    else if key == str "kubeconfig"
    then cfg.kubeconfig
    else if key == str "context"
    then cfg.context
    else if key == str "server"
    then cfg.server
    else []

unfoldable pub first_non_empty : List Text → Text
first_non_empty [] = []
first_non_empty (value ∷ values) =
    let rest = first_non_empty values in if trim_space value == [] then rest else trim_space value
