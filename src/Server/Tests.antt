-- ===== src/Server/Tests.antt =====
-- Tests of internal/server on a small cache, and the theorems at it.
use kbeacon.Prelude.{ok, ℕ, ◌≤◌, ◌≡◌, refl, true, none, some, [], ◌∷◌, arith, if◌then◌else◌}
use kbeacon.Text.{Text, str, ◌==◌, to_lower, trim_space, split}
use kbeacon.Graph.Observe.{Cache, new_cache, zero_summary}
use kbeacon.Server.Page.Walk.{collect, collect_complete}
use kbeacon.Server.Query.{Values, pos, negsuc, atoi, parse_pagination, bool_query_param, split_path}
use kbeacon.Server.Query.Accepted.{parse_pagination-bounds}
use kbeacon.Server.Handlers.{list_secrets_handler}
use kbeacon.Server.Handlers.Answers.{SecretsAnswer, list_secrets_handler-SecretsAnswer}

collect_complete_example : collect {A = ℕ} (1 ∷ 2 ∷ 3 ∷ []) 2 4 0 ≡ 1 ∷ 2 ∷ 3 ∷ []
collect_complete_example = collect_complete {A = ℕ} (1 ∷ 2 ∷ 3 ∷ []) 2 (omega arith)

-- A query with one parameter.
abbrev query : Text → Text → Values
query key value k = if k == key then value else []

atoi-signs :
    (atoi (str "-12") ≡ some (negsuc 11))
    × (atoi (str "+7") ≡ some (pos 7))
    × (atoi (str "1_0") ≡ none)
    × (atoi (str "9223372036854775808") ≡ none)
unfolding atoi
atoi-signs = (refl, refl, refl, refl)

parse_pagination-capped :
    parse_pagination (query (str "limit") (str " 5000 ")) ≡ ok (record { limit = 1000; offset = 0 })
unfolding parse_pagination ◌==◌ trim_space atoi
parse_pagination-capped = refl

parse_pagination-bounds_example : (1 ≤ 1000) × (1000 ≤ 1000)
parse_pagination-bounds_example =
    parse_pagination-bounds (query (str "limit") (str " 5000 "))
      (record { limit = 1000; offset = 0 }) parse_pagination-capped

bool_query_param-cases :
    (bool_query_param (query (str "exists") (str "YES")) (str "exists") ≡ ok (some true))
    × (bool_query_param (query (str "exists") (str "")) (str "exists") ≡ ok none)
unfolding bool_query_param ◌==◌ trim_space to_lower
bool_query_param-cases = (refl, refl)

split_path-example :
    split_path some (str "/prod/db//impact/") ≡ str "prod" ∷ str "db" ∷ str "impact" ∷ []
unfolding split_path split ◌==◌
split_path-example = refl

abbrev cache : Cache
cache = record (new_cache (str "c")) {
  secrets =
      (str "prod/db", zero_summary) ∷ (str "prod/x", record zero_summary { present = true }) ∷ [];
}

list_secrets_handler-SecretsAnswer_example :
    SecretsAnswer cache 5
      (query (str "exists") (str "true"))
      (list_secrets_handler cache 5 (query (str "exists") (str "true")))
list_secrets_handler-SecretsAnswer_example =
    list_secrets_handler-SecretsAnswer cache 5 (query (str "exists") (str "true"))
