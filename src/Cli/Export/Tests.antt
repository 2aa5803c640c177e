-- ===== src/Cli/Export/Tests.antt =====
-- Tests of the snapshot export, and the theorem at a small agent.
use kbeacon.Prelude.{◌≡◌, refl, true, none, some, ok, err, List, [], ◌∷◌, if◌then◌else◌}
use kbeacon.Text.{
  Text, str, ◌==◌, elem, to_lower, lower_byte, trim_space, trim_left, trim_right, is_space, split,
  quote, decimal,
}
use kbeacon.Dict.{get, put}
use kbeacon.Cli.Export.{
  SnapshotResourceRequest, canonical_snapshot_resource, add_request, add_parts,
  parse_snapshot_resources, Response, Requests, trim_newlines, cluster_from_snapshot_resources,
  fetch, request_snapshot_export,
}

-- Its unfolding line opens the whole component.
export : Unit {0}
unfolding ◌==◌ elem to_lower lower_byte trim_space trim_left trim_right is_space split quote decimal
    get put canonical_snapshot_resource add_request add_parts parse_snapshot_resources trim_newlines
    cluster_from_snapshot_resources fetch request_snapshot_export
export = tt

abbrev answer : Text → Response
answer endpoint =
    if endpoint == str "/api/v1/workloads"
    then record { body = str "gone\n\n"; url = str "u"; status = 404; error = none }
    else record { body = str "{}"; url = str "u"; status = 200; error = none }

abbrev calls : Requests
calls = record {
  get_endpoint = answer;
  description = str "agent";
  is_valid = λ body. true;
  marshal = λ pretty e. ok e.cluster;
  now = [];
  read_clusters = λ raw. some (str " ", str " east ");
  write_file = λ path text. none;
}

abbrev two_requests : List SnapshotResourceRequest
two_requests =
    record { name = str "config"; endpoint = str "/api/v1/config" }
    ∷ record { name = str "secrets"; endpoint = str "/api/v1/secrets" }
    ∷ []

unknown : parse_snapshot_resources (str "pods") ≡ err (str "unsupported resource \"pods\"")
unfolding export
unknown = refl

written :
    request_snapshot_export calls (str "config") (str "s.json") true
    ≡ record { status = 0; stdout = str "wrote snapshot s.json\n"; stderr = [] }
unfolding export
written = refl

refused :
    request_snapshot_export calls [] (str "-") true
    ≡ record { status = 1; stdout = []; stderr = str "request u returned HTTP 404\ngone\n" }
unfolding export
refused = refl
