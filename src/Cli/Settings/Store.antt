-- ===== src/Cli/Settings/Store.antt =====
-- What a setting holds after one was set or unset.
use kbeacon.Prelude.{◌≡◌, refl, Bool, Outcome, ok, ok_injective, true, false, arith, if◌then◌else◌}
use kbeacon.Text.{Text, str, ◌==◌}
use kbeacon.Cli.Settings.{
  CliConfig, normalize_cli_config_key, set_cli_config_value, cli_config_value,
}

-- The keys that `normalizeCLIConfigKey` gives.
pub data CliKey : Type 0 where
  namespace service service_port kubeconfig context server : CliKey

abbrev pub key_text : CliKey → Text
key_text namespace = str "namespace"
key_text service = str "service"
key_text service_port = str "service-port"
key_text kubeconfig = str "kubeconfig"
key_text context = str "context"
key_text server = str "server"

pub record IsKey (key : Text) : Type 0 where
  pub of : CliKey
  pub same : key ≡ key_text of

not_ok : {message key : Text} → Outcome.err message ≡ ok key → IsKey key
not_ok h = absurd (ground arith)

-- One case of the `switch`.
IsKey-case :
    (b : Bool) (a : CliKey) (o : Outcome Text Text) (key : Text)
    → (o ≡ ok key → IsKey key)
    → (if b then ok (key_text a) else o) ≡ ok key
    → IsKey key
IsKey-case true a o key other h = record { of = a; same = ok_injective h refl }
IsKey-case false a o key other h = other h

pub IsKey-normalize :
    (quote : Text → Text) (value key : Text)
    → normalize_cli_config_key quote value ≡ ok key
    → IsKey key
unfolding normalize_cli_config_key
IsKey-normalize quote value key = IsKey-case _ namespace _ key (
    IsKey-case _ service _ key (
      IsKey-case _ service_port _ key (
        IsKey-case _ kubeconfig _ key
          (IsKey-case _ context _ key (IsKey-case _ server _ key not_ok)))))

pub value-set :
    (cfg : CliConfig) (value : Text) (a b : CliKey)
    → cli_config_value (set_cli_config_value cfg (key_text a) value) (key_text b)
      ≡ (if key_text a == key_text b then value else cli_config_value cfg (key_text b))
unfolding cli_config_value set_cli_config_value ◌==◌
value-set cfg value a b = ground arith
