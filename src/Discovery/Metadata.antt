-- ===== src/Discovery/Metadata.antt =====
-- The metadata of a workload in internal/discovery/extractor.go: the annotations and labels that
-- count, the values taken from them, and the discovery mode.
pub mod Laws
use kbeacon.Prelude.{
  Bool, true, false, ◌||◌, not, ◌&&◌, Option, none, some, List, [], ◌∷◌, if◌then◌else◌, some_or,
  loop,
}
use kbeacon.Text.{Text, str, ◌==◌, to_lower, trim_space}
use kbeacon.Dict.{Dict, get, put}
use kbeacon.Graph.Types.{DiscoveryMode, unset, infer, explicit, hybrid, disabled}
use kbeacon.Discovery.Objects.{MetadataLabelKeyConfig, default_metadata_label_key_config}

abbrev pub annotation_enabled : Text
annotation_enabled = str "kbeacon.io/enabled"

abbrev pub annotation_discovery_mode : Text
annotation_discovery_mode = str "kbeacon.io/discovery-mode"

abbrev pub annotation_watch_secrets : Text
annotation_watch_secrets = str "kbeacon.io/watch-secrets"

abbrev pub annotation_watch_secrets_json : Text
annotation_watch_secrets_json = str "kbeacon.io/watch-secrets-json"

abbrev pub annotation_ignore_secrets : Text
annotation_ignore_secrets = str "kbeacon.io/ignore-secrets"

abbrev pub annotation_owner_team : Text
annotation_owner_team = str "kbeacon.io/owner-team"

abbrev pub annotation_criticality : Text
annotation_criticality = str "kbeacon.io/criticality"

abbrev pub annotation_service : Text
annotation_service = str "kbeacon.io/service"

abbrev pub annotation_environment : Text
annotation_environment = str "kbeacon.io/environment"

-- A read of a missing key is the empty string.
abbrev pub text_of : Text → Dict Text → Text
text_of k m = some_or [] (get k m)

unfoldable pub put_all : Dict Text → List (Text × Text) → Dict Text
put_all m [] = m
put_all m ((k, v) ∷ kvs) = put_all (put k v m) kvs

-- `effectiveAnnotations` and `effectiveLabels`: the object's own entries win.
unfoldable pub effective : Dict Text → Dict Text → Bool → Dict Text
unfolding put_all
effective object template include_template =
    put_all (if include_template then put_all [] template else []) object

unfoldable pub first_label_value : Dict Text → List Text → Text
first_label_value labels [] = []
first_label_value labels (key ∷ keys) =
    let value = trim_space (text_of key labels) in
    let rest = first_label_value labels keys in if value == [] then rest else value

unfoldable pub metadata_value : Text → Dict Text → List Text → Bool → Text
unfolding first_label_value
metadata_value annotation labels keys enabled =
    let value = trim_space annotation in
    if not (value == []) then value else if enabled then first_label_value labels keys else []

abbrev pub or_list : List Text → List Text → List Text
or_list [] default = default
or_list (x ∷ xs) default = x ∷ xs

unfoldable pub with_defaults : MetadataLabelKeyConfig → MetadataLabelKeyConfig
with_defaults c =
    let defaults = default_metadata_label_key_config in
    record {
      owner_team = or_list c.owner_team defaults.owner_team;
      service = or_list c.service defaults.service;
      environment = or_list c.environment defaults.environment;
      criticality = or_list c.criticality defaults.criticality;
    }

unfoldable pub is_false : Text → Bool
is_false value =
    let v = to_lower (trim_space value) in
    v == str "false" || (v == str "0" || (v == str "no" || (v == str "off" || v == str "disabled")))

abbrev pub fallback_mode : DiscoveryMode → DiscoveryMode
fallback_mode unset = hybrid
fallback_mode mode = mode

abbrev pub turned_off : Option Text → Bool
turned_off none = false
turned_off (some value) = is_false value

unfoldable pub parse_mode : Text → DiscoveryMode → DiscoveryMode
parse_mode value fallback =
    let v = to_lower (trim_space value) in
    if v == str "infer"
    then infer
    else if v == str "explicit"
    then explicit
    else if v == str "hybrid"
    then hybrid
    else if v == str "disabled"
    then disabled
    else fallback

unfoldable pub discovery_mode_for : Dict Text → DiscoveryMode → DiscoveryMode
unfolding parse_mode
discovery_mode_for annotations fallback =
    if turned_off (get annotation_enabled annotations)
    then disabled
    else parse_mode (text_of annotation_discovery_mode annotations) (fallback_mode fallback)
