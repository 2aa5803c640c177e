-- ===== src/Config/Tests.antt =====
-- Tests of internal/config, and its theorems at small configurations.
use kbeacon.Prelude.{◌≡◌, refl, Bool, true, Option, none, ok, [], ◌∷◌}
use kbeacon.Text.{
  Text, str, ◌==◌, trim_space, trim_left, trim_right, is_space, split, join, has_byte,
}
use kbeacon.Config.Types.{Config, default_config}
use kbeacon.Config.Csv.{split_csv}
use kbeacon.Config.Load.{normalize, apply_env, load}

-- Its unfolding line opens the whole component.
config : Unit {0}
unfolding ◌==◌ trim_space trim_left trim_right is_space split join has_byte split_csv normalize
    apply_env load
config = tt

spaces_skipped : split_csv (str " prod, ,dev,") ≡ str "prod" ∷ str "dev" ∷ []
unfolding config
spaces_skipped = refl

-- An environment that sets the cluster and names no excluded namespace.
abbrev environment : Text → Text
environment name = elim (name == str "KBEACON_CLUSTER_NAME") [
  | true ↦ str "east"
  | _ ↦ if_excluded name
]
  where
    if_excluded : Text → Text
    if_excluded name = elim (name == str "KBEACON_EXCLUDE_NAMESPACES") [ true ↦ str "," | _ ↦ [] ]

abbrev no_bool : Text → Option Bool
no_bool value = none

abbrev no_level : Config → Config
no_level c = record c { log = record { level = [] } }

abbrev result : Config
result = apply_env environment no_bool (normalize (no_level default_config))

read_from_file :
    load environment no_bool (λ t. t) (λ path. ok []) (λ raw c. ok (no_level c)) (str "agent.yaml")
    ≡ ok result
unfolding config
read_from_file = refl
