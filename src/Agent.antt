-- ===== src/Agent.antt =====
-- cmd/kbeacon-agent/main.go up to the start of the controller: the flags over the loaded configuration,
-- and what is made from it. `none` is an exit with status 1.
mod Tests
pub mod SetUp
use kbeacon.Prelude.{
  Bool, true, ◌&&◌, ◌||◌, not, Option, none, some, Outcome, ok, err, List, [], ◌∷◌, is_some,
  some_or, if◌then◌else◌,
}
use kbeacon.Text.{Text, str, ◌==◌}
use kbeacon.Config.Types.{Config}
use kbeacon.Config.Csv.{split_csv}
use kbeacon.Config.Load.{or_default, normalize, discovery_mode, http_bind_address}
use kbeacon.Graph.Observe.{Cache, new_cache}
use kbeacon.Discovery.Objects.{Options, default_options}
use kbeacon.Controller.Namespaces.{NamespaceFilter, new_namespace_filter, watch_namespace}
use kbeacon.Controller.Status.{ResourceConfig, Controller, new_controller}
use kbeacon.Metrics.Collector.{GraphCollector}
use kbeacon.Server.Health.{ServerOptions}

-- The flags of the command line, `none` for one that is not set.
pub record Flags : Type 0 where
  pub http_bind_address : Option Text
  pub cluster_name : Option Text
  pub log_level : Option Text
  pub resync_interval : Option Text
  pub rebuild_debounce : Option Text
  pub include_namespaces : Option Text
  pub exclude_namespaces : Option Text
  pub include_image_pull_secrets : Option Bool
  pub redact_secret_keys : Option Bool

-- A list that a flag replaces.
abbrev pub csv_or : List Text → Option Text → List Text
csv_or old none = old
csv_or old (some value) = split_csv value

unfoldable pub with_flags : Flags → Config → Config
with_flags f c =
    let d = c.discovery in
    record c {
      cluster = record c.cluster { name = some_or c.cluster.name f.cluster_name };
      log = record { level = some_or c.log.level f.log_level };
      discovery = record d {
        resync_interval = some_or d.resync_interval f.resync_interval;
        reconcile = record { debounce = some_or d.reconcile.debounce f.rebuild_debounce };
        namespaces = record {
          include = csv_or d.namespaces.include f.include_namespaces;
          exclude = csv_or d.namespaces.exclude f.exclude_namespaces;
        };
        include_image_pull_secrets =
            some_or d.include_image_pull_secrets f.include_image_pull_secrets;
      };
      privacy = record {
        redaction = record {
          secret_keys = some_or c.privacy.redaction.secret_keys f.redact_secret_keys;
        };
      };
    }

unfoldable pub agent_config : Flags → Config → Config
unfolding with_flags
agent_config f loaded = normalize (with_flags f loaded)

-- A dynamic client is made for a custom resource.
unfoldable pub wants_dynamic_client : Config → Bool
wants_dynamic_client c =
    let r = c.resources_to_watch in
    r.certificates
    || (r.external_secrets || (r.secret_provider_classes || (r.kafka_connectors || r.connectors)))

unfoldable pub discovery_options : Config → Options
discovery_options c =
    let d = c.discovery in
    record (default_options c.cluster.name) {
      default_mode = discovery_mode c;
      include_image_pull_secrets = d.include_image_pull_secrets;
      include_init_containers = d.include_init_containers;
      include_ephemeral_containers = d.include_ephemeral_containers;
      read_pod_template_annotations = d.read_pod_template_annotations;
      redact_secret_keys = c.privacy.redaction.secret_keys;
      metadata_labels_enabled = d.metadata_labels.enabled;
      metadata_label_keys = record {
        owner_team = d.metadata_labels.owner_team;
        service = d.metadata_labels.service;
        environment = d.metadata_labels.environment;
        criticality = d.metadata_labels.criticality;
      };
    }

unfoldable pub watched_resources : Config → ResourceConfig
watched_resources c =
    let r = c.resources_to_watch in
    record {
      secrets = r.secrets;
      service_accounts = r.service_accounts;
      pods = r.pods;
      deployments = r.deployments;
      replica_sets = r.replica_sets;
      stateful_sets = r.stateful_sets;
      daemon_sets = r.daemon_sets;
      ingresses = r.ingresses;
      jobs = r.jobs;
      cron_jobs = r.cron_jobs;
      certificates = r.certificates;
      external_secrets = r.external_secrets;
      secret_provider_classes = r.secret_provider_classes;
      kafka_connectors = r.kafka_connectors;
      confluent_connectors = r.connectors;
    }

-- The options that `New` keeps.
abbrev pub kept_options : Text → Options → Options
kept_options cluster opts = if opts.cluster == [] then default_options cluster else opts

-- `getenv`
abbrev pub env_or : (Text → Text) → Text → Text → Text
env_or env key fallback = or_default (env key) fallback

-- What the agent serves. `filter`, `watch`, `options` and `controller` are made in `New`.
pub record Agent : Type 0 where
  pub config : Config
  pub cache : Cache
  pub options : Options
  pub filter : NamespaceFilter
  pub watch : Text
  pub controller : Controller
  pub collector : GraphCollector
  pub server : ServerOptions
  pub address : Text

unfoldable pub bind_address : (Text → Text) → Flags → Config → Text
bind_address env f c =
    or_default (some_or (env_or env (str "KBEACON_HTTP_BIND_ADDRESS") []) f.http_bind_address)
      (http_bind_address c)

-- The environment, and the version and the commit of the build.
module _ (env : Text → Text) (version commit : Text) where
  unfoldable pub agent_of : Flags → Config → Agent
  unfolding wants_dynamic_client discovery_options watched_resources bind_address
  agent_of f c =
      let cache = new_cache c.cluster.name in
      let namespaces = c.discovery.namespaces in
      let filter = new_namespace_filter namespaces.include namespaces.exclude in
      record {
        config = c;
        cache = cache;
        options = kept_options c.cluster.name (discovery_options c);
        filter = filter;
        watch = watch_namespace namespaces.include filter;
        controller = new_controller (wants_dynamic_client c) (some (watched_resources c));
        collector = record {
          graph = cache;
          cluster = c.cluster.name;
          version = version;
          commit = commit;
          emit_edges = c.metrics.edge_enabled;
        };
        server = record { cluster = c.cluster.name; version = version; commit = commit };
        address = bind_address env f c;
      }

  -- `time.ParseDuration` with `none` for an error, and whether the two clients can be made.
  module _ {Duration : Type 0} (parse_duration : Text → Option Duration)
      (client_made dynamic_client_made : Bool) where
    -- The three settings that are durations.
    abbrev pub durations_parse : Config → Bool
    durations_parse c =
        is_some (parse_duration c.discovery.resync_interval)
        && (is_some (parse_duration c.discovery.reconcile.debounce)
            && is_some (parse_duration c.agent.shutdown_grace_period))

    abbrev pub clients_made : Config → Bool
    clients_made c = client_made && (not (wants_dynamic_client c) || dynamic_client_made)

    unfoldable pub set_up : Flags → Outcome Text Config → Option Agent
    unfolding agent_config agent_of
    set_up f (err message) = none
    set_up f (ok loaded) =
        let c = agent_config f loaded in
        if durations_parse c && clients_made c then some (agent_of f c) else none
