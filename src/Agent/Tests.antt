-- ===== src/Agent/Tests.antt =====
-- Tests of the agent's start, and the theorem at a small configuration.
use kbeacon.Prelude.{◌≡◌, refl, Bool, true, false, Option, none, some, ok, ℕ, length, [], ◌∷◌}
use kbeacon.Text.{Text, str, ◌==◌, trim_space, trim_left, trim_right, is_space, split, elem}
use kbeacon.Dict.Sets.{add}
use kbeacon.Config.Types.{Config, default_config}
use kbeacon.Config.Csv.{split_csv}
use kbeacon.Config.Load.{normalize}
use kbeacon.Controller.Namespaces.{new_namespace_filter, includes, watch_namespace}
use kbeacon.Agent.{Flags, Agent, with_flags, agent_config, wants_dynamic_client, set_up, agent_of}
use kbeacon.Agent.SetUp.{IsSetUp, set_up-IsSetUp}

-- Its unfolding line opens what a test of one namespace needs.
agent : Unit {0}
unfolding set_up agent_of agent_config with_flags wants_dynamic_client watch_namespace
    new_namespace_filter includes normalize split_csv trim_space trim_left trim_right is_space split
    elem add ◌==◌
agent = tt

abbrev one_namespace : Flags
one_namespace = record {
  http_bind_address = none;
  cluster_name = some [];
  log_level = none;
  resync_interval = none;
  rebuild_debounce = none;
  include_namespaces = some (str " prod,");
  exclude_namespaces = some [];
  include_image_pull_secrets = none;
  redact_secret_keys = some true;
}

abbrev certificates : Config
certificates = record default_config {
  resources_to_watch = record default_config.resources_to_watch { certificates = true };
}

abbrev env : Text → Text
env name = []

-- A parser that takes every text with something in it.
abbrev seconds : Text → Option ℕ
seconds [] = none
seconds (c ∷ s) = some (length s)

abbrev started : Config → Agent
started c = agent_of env (str "dev") (str "unknown") one_namespace (agent_config one_namespace c)

watched : (started certificates).watch ≡ str "prod"
unfolding agent
watched = refl

-- The flag cannot turn the excluded namespaces off.
still_excluded : includes (started certificates).filter (str "kube-system") ≡ false
unfolding agent
still_excluded = refl

no_dynamic_client :
    set_up env (str "dev") (str "unknown") seconds true false one_namespace (ok certificates) ≡ none
unfolding agent
no_dynamic_client = refl

abbrev all_sync : Text → Bool
all_sync name = true

certificates-some :
    set_up env (str "dev") (str "unknown") seconds true true one_namespace (ok certificates)
    ≡ some (started certificates)
unfolding agent
certificates-some = refl

set_up-IsSetUp_example : IsSetUp all_sync (started certificates)
set_up-IsSetUp_example =
    set_up-IsSetUp env (str "dev") (str "unknown") all_sync one_namespace seconds true true
      (ok certificates) (started certificates) certificates-some
