-- ===== src/Server/Handlers.antt =====
-- The handlers of internal/server/server.go that read the graph. A response stands for its status
-- and payload; the envelope around a payload is in Server.Health.
pub mod Answers
pub mod MapAnswers
use kbeacon.Prelude.{
  Outcome, ok, err, ℕ, Bool, true, false, ◌&&◌, ◌||◌, Option, none, some, List, [], ◌∷◌, ◌++◌, eqb,
  keep, loop, if◌then◌else◌,
}
use kbeacon.Text.{Text, str, ◌==◌, elem, equal_fold}
use kbeacon.Dict.Sets.{add}
use kbeacon.Graph.Types.{
  Time, mode_text, DependencyEdge, SecretSummary, WorkloadSummary, DependencyMapNode, DependencyMap,
  SecretImpact, WorkloadDependencies,
}
use kbeacon.Graph.Keys.{secret_id, workload_id}
use kbeacon.Graph.Observe.{Cache}
use kbeacon.Graph.Queries.{
  list_secrets, list_workloads, dependency_map, get_secret_impact, get_workload_dependencies,
}
use kbeacon.Server.Page.{PaginationResponse, paginate}
use kbeacon.Server.Query.{Values, parse_pagination, bool_query_param, trim_prefix, split_path}

pub data Response : Type 0 where
  secrets_page : List SecretSummary → PaginationResponse → Response
  workloads_page : List WorkloadSummary → PaginationResponse → Response
  map_page : DependencyMap → PaginationResponse → Response
  impact : SecretImpact → Response
  dependencies : WorkloadDependencies → Response
  failure : ℕ → Text → Text → Response

-- A query that is not accepted is answered with status 400.
abbrev pub accepted {ℓ} : {A : Type ℓ} → Outcome Text A → (A → Response) → Response
accepted (err message) answer = failure 400 (str "invalid_query") message
accepted (ok a) answer = answer a

abbrev pub wants : Text → Text → Bool
wants v actual = v == [] || actual == v

abbrev pub wants_fold : Text → Text → Bool
wants_fold v actual = v == [] || equal_fold actual v

abbrev pub wants_flag : Option Bool → Bool → Bool
wants_flag none actual = true
wants_flag (some true) actual = actual
wants_flag (some false) true = false
wants_flag (some false) false = true

unfoldable pub secret_matches : Values → Option Bool → SecretSummary → Bool
secret_matches q present item =
    wants (q (str "namespace")) item.ref.namespace
    && (wants (q (str "ownerTeam")) item.owner_team
        && (wants (q (str "criticality")) item.criticality
            && (wants (q (str "secretName")) item.ref.name && wants_flag present item.present)))

unfoldable pub workload_matches : Values → WorkloadSummary → Bool
workload_matches q item =
    wants (q (str "namespace")) item.ref.namespace
    && (wants (q (str "ownerTeam")) item.owner_team
        && (wants (q (str "criticality")) item.criticality
            && (wants_fold (q (str "workloadKind")) item.ref.kind
                && (wants (q (str "workloadName")) item.ref.name
                    && wants_fold (q (str "discoveryMode")) (mode_text item.discovery_mode)))))

unfoldable pub edge_matches : Values → Option Bool → DependencyEdge → Bool
edge_matches q resolved e =
    let v = q (str "namespace") in
    (v == [] || (e.workload.namespace == v || e.secret.namespace == v))
    && (wants (q (str "workloadNamespace")) e.workload.namespace
        && (wants (q (str "secretNamespace")) e.secret.namespace
            && (wants_fold (q (str "workloadKind")) e.workload.kind
                && (wants (q (str "workloadName")) e.workload.name
                    && (wants (q (str "secretName")) e.secret.name
                        && (wants (q (str "ownerTeam")) e.owner_team
                            && (wants (q (str "criticality")) e.criticality
                                && (wants_fold (q (str "discoveryMode"))
                                      (mode_text e.discovery_mode)
                                    && wants_flag resolved e.resolved))))))))

unfoldable pub list_secrets_handler : Cache → Time → Values → Response
list_secrets_handler c now q = accepted (parse_pagination q) (λ request.
    accepted (bool_query_param q (str "exists")) (λ present.
      let (paged, pagination) =
        paginate (keep (secret_matches q present) (list_secrets c now)) request in
      secrets_page paged pagination))

unfoldable pub list_workloads_handler : Cache → Time → Values → Response
list_workloads_handler c now q = accepted (parse_pagination q) (λ request.
    let (paged, pagination) = paginate (keep (workload_matches q) (list_workloads c now)) request in
    workloads_page paged pagination)

unfoldable pub needed_nodes : List DependencyEdge → List Text
needed_nodes edges =
    loop
      (λ needed e.
        add (add needed (str "workload:" ++ workload_id e.workload))
          (str "secret:" ++ secret_id e.secret))
      [] edges

unfoldable pub nodes_for_edges :
    List DependencyMapNode → List DependencyEdge → List DependencyMapNode
unfolding needed_nodes
nodes_for_edges nodes edges = let needed = needed_nodes edges in keep (λ n. elem n.id needed) nodes

unfoldable pub dependency_map_handler : Cache → Time → Values → Response
unfolding nodes_for_edges
dependency_map_handler c now q = accepted (parse_pagination q) (λ request.
    accepted (bool_query_param q (str "resolved")) (λ resolved.
      let dep_map = dependency_map c now in
      let (paged, pagination) = paginate (keep (edge_matches q resolved) dep_map.edges) request in
      map_page (record { nodes = nodes_for_edges dep_map.nodes paged; edges = paged }) pagination))

abbrev pub impact_response : Option SecretImpact → Response
impact_response none = failure 404 (str "not_found") (str "Secret not found in dependency graph")
impact_response (some i) = impact i

abbrev pub dependencies_response : Option WorkloadDependencies → Response
dependencies_response none =
    failure 404 (str "not_found") (str "Workload not found in dependency graph")
dependencies_response (some d) = dependencies d

unfoldable pub secret_parts : Cache → Time → List Text → Response
secret_parts c now (namespace ∷ name ∷ sub ∷ []) =
    if sub == str "impact"
    then impact_response (get_secret_impact c now namespace name)
    else failure 404 (str "not_found") (str "unknown Secret API path")
secret_parts c now _ = failure 404 (str "not_found") (str "unknown Secret API path")

abbrev unknown_workload_path : Response
unknown_workload_path = failure 404 (str "not_found") (str "unknown Workload API path")

unfoldable pub workload_parts : Cache → Time → List Text → Response
workload_parts c now (namespace ∷ name ∷ sub ∷ []) =
    if sub == str "dependencies"
    then dependencies_response (get_workload_dependencies c now namespace [] name)
    else unknown_workload_path
workload_parts c now (namespace ∷ kind ∷ name ∷ sub ∷ []) =
    if sub == str "dependencies"
    then dependencies_response (get_workload_dependencies c now namespace kind name)
    else unknown_workload_path
workload_parts c now _ = unknown_workload_path

-- `unescape` is `url.PathUnescape`.
unfoldable pub secret_subresource : (Text → Option Text) → Cache → Time → Text → Response
unfolding secret_parts
secret_subresource unescape c now path = secret_parts c now (
    split_path unescape
      (trim_prefix (str "/api/secrets/") (trim_prefix (str "/api/v1/secrets/") path)))

unfoldable pub workload_subresource : (Text → Option Text) → Cache → Time → Text → Response
unfolding workload_parts
workload_subresource unescape c now path = workload_parts c now (
    split_path unescape
      (trim_prefix (str "/api/workloads/") (trim_prefix (str "/api/v1/workloads/") path)))
