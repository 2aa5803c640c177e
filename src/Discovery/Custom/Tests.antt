-- ===== src/Discovery/Custom/Tests.antt =====
-- Tests of the extraction from custom resources.
use kbeacon.Prelude.{◌≡◌, ◌↔◌, refl, some, List, [], ◌∷◌, map, Any}
use kbeacon.Text.{
  Text, str, ◌==◌, to_lower, equal_fold, trim_space, join, has_byte, cut, decimal, strip_prefix,
  quote, text_ltb, is_space,
}
use kbeacon.Sort.{sort_by}
use kbeacon.Json.{Json, text, num, arr, obj, nil, cons, Fields, end, field, get_field}
use kbeacon.Graph.Types.{WorkloadRef, DependencyEdge}
use kbeacon.Graph.Keys.{edge_id}
use kbeacon.Discovery.Infer.{new_edge}
use kbeacon.Discovery.Custom.{
  custom_edge, crd_sorted_keys, crd_map_field_path, join_path_part, crd_join_path,
}
use kbeacon.Discovery.Custom.References.{run, closed_group, match_reference, find_all}
use kbeacon.Discovery.Custom.KafkaConnector.{
  parse_strimzi_kafka_connector_secret_target, strimzi_target_edge, strimzi_match_edges,
  strimzi_value_edges, strimzi_key_edges, infer_strimzi_kafka_connector_edges,
}
use kbeacon.Discovery.Custom.Connector.{
  first_string_field, parse_confluent_connector_secret_ref, trim_left_slashes,
  parse_confluent_connector_mounted_secret_name, append_path, in_key_order, rest_edge,
  secret_ref_field_edge, scan_confluent_connector_secret_refs, mounted_secret_edge,
  mounted_match_edges, mounted_value_edges, mounted_key_edges,
  infer_confluent_connector_connect_rest_authentication_edges,
  infer_confluent_connector_mounted_secret_edges,
}
use kbeacon.Discovery.Custom.KafkaConnector.RoundTrip.{
  KeyOf, IsKeyOf, secret_of, config_value, strimzi_value_edges-Written,
}
use kbeacon.Discovery.Custom.Connector.Scan.{
  Mentions, in_object, named, LeadsTo, scan_confluent_connector_secret_refs_iff,
}

-- Its unfolding line opens the whole component.
custom : Unit {0}
unfolding ◌==◌ to_lower equal_fold trim_space join has_byte cut decimal strip_prefix quote text_ltb
    sort_by get_field edge_id new_edge custom_edge crd_sorted_keys crd_map_field_path join_path_part
    crd_join_path run closed_group match_reference find_all
    parse_strimzi_kafka_connector_secret_target strimzi_target_edge strimzi_match_edges
    strimzi_value_edges strimzi_key_edges infer_strimzi_kafka_connector_edges first_string_field
    parse_confluent_connector_secret_ref trim_left_slashes
    parse_confluent_connector_mounted_secret_name append_path in_key_order rest_edge
    secret_ref_field_edge scan_confluent_connector_secret_refs mounted_secret_edge
    mounted_match_edges mounted_value_edges mounted_key_edges
    infer_confluent_connector_connect_rest_authentication_edges
    infer_confluent_connector_mounted_secret_edges
custom = tt

abbrev sink : WorkloadRef
sink = record {
  cluster = str "c";
  namespace = str "kafka";
  api_version = str "kafka.strimzi.io/v1beta2";
  kind = str "KafkaConnector";
  name = str "sink";
  uid = [];
}

-- Where an edge leads and where it was found.
abbrev place : DependencyEdge → Text × Text × List Text
place e = (e.secret.namespace, e.secret.name, map (λ s. s.path) e.sources)

quote_escapes : quote (str "a\"b") ≡ str "\"a\\\"b\""
unfolding custom
quote_escapes = refl

find_all_two :
    find_all (str "${secrets:") 0 (str "x${secrets:a:k}${secrets:b/c:d:e} ${secrets:::}")
    ≡ (str "a", str "k") ∷ (str "b/c", str "d:e") ∷ []
unfolding custom
find_all_two = refl

abbrev config : Fields
config = field (str "url") (text (str "u=${secrets:db:url}")) (
    field (str "n") (num 3)
      (field (str "pw") (text (str "${secrets:prod / db:pw} ${secrets:a/b/c:k}")) end))

strimzi_edges :
    map place (infer_strimzi_kafka_connector_edges (str "c") sink (some config))
    ≡ (str "prod", str "db", str "spec.config[\"pw\"]" ∷ [])
      ∷ (str "kafka", str "db", str "spec.config[\"url\"]" ∷ [])
      ∷ []
unfolding custom
strimzi_edges = refl

abbrev authentication : Fields
authentication = field (str "type") (text (str "basic")) (
    field (str "basic")
      (obj (
        field (str "SecretRef") (text (str " rest ")) (
          field (str "more")
            (arr (
              cons
                (obj (field (str "secretRef") (obj (field (str "name") (text (str "m")) end)) end))
                nil))
            end)))
      end)

confluent_edges :
    map place (
      infer_confluent_connector_connect_rest_authentication_edges
        (str "c")
        sink
        (some authentication))
    ≡ (str "kafka", str "rest", str "spec.connectRest.authentication.basic.SecretRef" ∷ [])
      ∷ (str "kafka", str "m", str "spec.connectRest.authentication.basic.more[0].secretRef" ∷ [])
      ∷ []
unfolding custom
confluent_edges = refl

mounted_edges :
    map place (
      infer_confluent_connector_mounted_secret_edges (str "c") sink (
        some (
          field (str "pw") (text (str "${file:/mnt/secrets//db/pw.txt:pw} ${file:/etc/x:y}")) end)))
    ≡ (str "kafka", str "db", str "spec.configs[\"pw\"]" ∷ []) ∷ []
unfolding custom
mounted_edges = refl

abbrev with_mention : Json
with_mention = obj (field (str "SecretRef") (text (str "rest")) end)

with_mention-Mentions : Mentions (str "kafka") (str "kafka") (str "rest") with_mention
unfolding custom
with_mention-Mentions = in_object (named refl refl)

scan_confluent_connector_secret_refs_iff_example :
    Any
      (LeadsTo (str "kafka") (str "rest"))
      (scan_confluent_connector_secret_refs (str "c") sink with_mention [])
    ↔ Mentions (str "kafka") (str "kafka") (str "rest") with_mention
scan_confluent_connector_secret_refs_iff_example =
    scan_confluent_connector_secret_refs_iff (str "c") sink (str "kafka") (str "rest") (λ e. cc)
      (λ e. cc) with_mention []

abbrev url_key : KeyOf
url_key = record { namespace = str "prod"; name = str "db"; key = str "url" }

url_key-IsKeyOf : IsKeyOf url_key
unfolding is_space
url_key-IsKeyOf = record {
  namespace_ok = (λ e. cc, (refl, (refl, (refl, (refl, tt)))));
  name_ok = (λ e. cc, (refl, (refl, tt)));
  has_key = λ e. cc;
  key_free = (refl, (refl, (refl, tt)));
}

abbrev written : List (Text × KeyOf)
written = (str "u=", url_key) ∷ ([], url_key) ∷ []

strimzi_value_edges-Written_example :
    map secret_of (
      strimzi_value_edges
        (str "c")
        sink
        (str "url")
        (some (text (config_value written (str "/x")))))
    ≡ (str "prod", str "db") ∷ (str "prod", str "db") ∷ []
strimzi_value_edges-Written_example =
    strimzi_value_edges-Written (str "c") sink (str "url") written (str "/x")
      ((refl, (refl, tt)), url_key-IsKeyOf, (tt, url_key-IsKeyOf, tt)) (refl, (refl, tt))
