-- ===== src/Cli/Export.antt =====
-- The snapshot export of cmd/kbeaconctl/main.go: the resources that are chosen, the requests for them,
-- the file and the exit status.
pub mod Fetched
pub mod Whole
mod Tests
use kbeacon.Prelude.{
  ℕ, Bool, true, false, ◌&&◌, ◌||◌, not, Option, none, some, Outcome, ok, err, ◌>>=◌, List, [], ◌∷◌,
  ◌++◌, if◌then◌else◌, eqb, ltb, leb, map,
}
use kbeacon.Text.{Text, str, ◌==◌, elem, trim_space, to_lower, split, quote, decimal}
use kbeacon.Dict.{Dict, get, put}
use kbeacon.Cli.Render.{line}
use kbeacon.Cli.Run.{Exit, failed}

pub record SnapshotResourceRequest : Type 0 where
  pub name : Text
  pub endpoint : Text

abbrev pub request : Text → Text → Option SnapshotResourceRequest
request name endpoint = some (record { name = name; endpoint = endpoint })

unfoldable pub canonical_snapshot_resource : Text → Option SnapshotResourceRequest
canonical_snapshot_resource value =
    let v = to_lower (trim_space value) in
    if v == str "config"
    then request (str "config") (str "/api/v1/config")
    else if elem v (str "secret" ∷ str "secrets" ∷ [])
    then request (str "secrets") (str "/api/v1/secrets")
    else if elem v (str "workload" ∷ str "workloads" ∷ [])
    then request (str "workloads") (str "/api/v1/workloads")
    else if elem v (
        str "dependency-map"
        ∷ str "dependencymap"
        ∷ str "dependencies"
        ∷ str "dependency"
        ∷ str "map"
        ∷ [])
    then request (str "dependencyMap") (str "/api/v1/dependency-map")
    else none

abbrev pub names_of : List SnapshotResourceRequest → List Text
names_of requests = map (λ r. r.name) requests

-- `seen` holds the names of `out`.
unfoldable pub add_request :
    List SnapshotResourceRequest → SnapshotResourceRequest → List SnapshotResourceRequest
add_request out item = if elem item.name (names_of out) then out else out ++ item ∷ []

abbrev pub known_request :
    Text → Option SnapshotResourceRequest → Outcome Text SnapshotResourceRequest
known_request part none = err (str "unsupported resource " ++ quote (trim_space part))
known_request part (some item) = ok item

unfoldable pub add_parts :
    List SnapshotResourceRequest → List Text → Outcome Text (List SnapshotResourceRequest)
unfolding add_request canonical_snapshot_resource
add_parts out [] = ok out
add_parts out (part ∷ parts) = known_request part (canonical_snapshot_resource part) >>= λ item.
    add_parts (add_request out item) parts

abbrev pub some_selected :
    List SnapshotResourceRequest → Outcome Text (List SnapshotResourceRequest)
some_selected [] = err (str "no resources selected")
some_selected (r ∷ rs) = ok (r ∷ rs)

abbrev pub default_resources : Text
default_resources = str "config,secrets,workloads,dependency-map"

unfoldable pub parse_snapshot_resources : Text → Outcome Text (List SnapshotResourceRequest)
unfolding add_parts
parse_snapshot_resources value =
    let chosen = trim_space value in
    add_parts [] (split b',' (if chosen == [] then default_resources else chosen)) >>= some_selected

-- What a request for an endpoint gives: the body, the URL, the status and an error.
pub record Response : Type 0 where
  pub body : Text
  pub url : Text
  pub status : ℕ
  pub error : Option Text

pub record SnapshotExport : Type 0 where
  pub generated_at : Text
  pub cluster : Text
  pub server : Text
  pub resources : Dict Text

-- The requests of the agent client without a query, its description, `json.Valid`, the two encoders by
-- whether the output is indented, the time, the two fields of a decoded configuration that name the
-- cluster, and `os.WriteFile` with the error it gives.
pub record Requests : Type 0 where
  pub get_endpoint : Text → Response
  pub description : Text
  pub is_valid : Text → Bool
  pub marshal : Bool → SnapshotExport → Outcome Text Text
  pub now : Text
  pub read_clusters : Text → Option (Text × Text)
  pub write_file : Text → Text → Option Text

-- `strings.TrimRight(body, "\n")`
unfoldable pub trim_newlines : Text → Text
trim_newlines [] = []
trim_newlines (c ∷ s) =
    let rest = trim_newlines s in if eqb c b'\n' && rest == [] then [] else c ∷ rest

abbrev pub body_line : Text → Text
body_line body = if body == [] then [] else line (trim_newlines body)

-- The name of the cluster that a configuration tells.
abbrev pub told_cluster : Option (Text × Text) → Text
told_cluster none = []
told_cluster (some (outer, inner)) =
    if trim_space outer == [] then trim_space inner else trim_space outer

module _ (calls : Requests) where
  unfoldable pub cluster_from_snapshot_resources : Dict Text → Text
  cluster_from_snapshot_resources resources = elim (get (str "config") resources) [
    | none ↦ []
    | some raw ↦ told_cluster (calls.read_clusters raw)
  ]

  -- The body of an answer, or the message that the export ends with.
  abbrev pub accepted : Response → Option Text → Outcome Text Text
  accepted r (some error) = err (line (str "request " ++ (r.url ++ (str " failed: " ++ error))))
  accepted r none =
      if ltb r.status 200 || leb 300 r.status
      then err (
          line (str "request " ++ (r.url ++ (str " returned HTTP " ++ decimal r.status)))
          ++ body_line r.body)
      else if calls.is_valid r.body
      then ok r.body
      else err (line (str "request " ++ (r.url ++ str " returned invalid JSON")))

  unfoldable pub fetch : List SnapshotResourceRequest → Dict Text → Outcome Text (Dict Text)
  fetch [] resources = ok resources
  fetch (item ∷ items) resources =
      let response = calls.get_endpoint item.endpoint in
      accepted response response.error >>= λ body. fetch items (put item.name body resources)

  -- Writes what was encoded, with the file that is written.
  abbrev pub write_snapshot : Text → Outcome Text Text → Exit
  write_snapshot output (err message) = failed 1 (str "encode snapshot: " ++ message)
  write_snapshot output (ok encoded) =
      let path = trim_space output in
      if path == [] || path == str "-"
      then record { status = 0; stdout = line encoded; stderr = [] }
      else elim (calls.write_file path (line encoded)) [
        | none ↦ record { status = 0; stdout = line (str "wrote snapshot " ++ path); stderr = [] }
        | some error ↦ failed 1 (str "write snapshot " ++ (path ++ (str ": " ++ error)))
      ]

  abbrev pub with_resources : Text → Bool → Outcome Text (Dict Text) → Exit
  with_resources output pretty (err message) = record { status = 1; stdout = []; stderr = message }
  with_resources output pretty (ok resources) = write_snapshot output (
      calls.marshal pretty (record {
        generated_at = calls.now;
        cluster = cluster_from_snapshot_resources resources;
        server = calls.description;
        resources = resources;
      }))

  abbrev pub with_requests : Text → Bool → Outcome Text (List SnapshotResourceRequest) → Exit
  with_requests output pretty (err message) = failed 2 (str "invalid --include value: " ++ message)
  with_requests output pretty (ok requests) = with_resources output pretty (fetch requests [])

  unfoldable pub request_snapshot_export : Text → Text → Bool → Exit
  unfolding fetch cluster_from_snapshot_resources parse_snapshot_resources
  request_snapshot_export include output pretty =
      with_requests output pretty (parse_snapshot_resources include)
