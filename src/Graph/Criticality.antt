-- ===== src/Graph/Criticality.antt =====
-- `normalizeCriticality`, `criticalityRank`, `maxCriticality` and `impactScore` of
-- internal/graph/cache.go.
pub mod Lattice
use Prim.Native.Nat.{max}
use kbeacon.Prelude.{
  ℕ, ◌+◌, ◌*◌, ◌≤◌, ◌<◌, min, ◌≡◌, refl, Bool, true, false, ◌||◌, arith, ltb, eqb, if◌then◌else◌,
}
use kbeacon.Text.{Text, str, ◌==◌, ==_iff, to_lower, trim_space}
use kbeacon.Graph.Types.{SecretSummary}

abbrev pub low : Text
low = str "low"

abbrev pub medium : Text
medium = str "medium"

abbrev pub high : Text
high = str "high"

abbrev pub critical : Text
critical = str "critical"

abbrev pub unknown : Text
unknown = str "unknown"

unfoldable pub known_or_unknown : Text → Text
known_or_unknown v =
    if v == low || (v == medium || (v == high || v == critical)) then v else unknown

unfoldable pub normalize_criticality : Text → Text
unfolding known_or_unknown
normalize_criticality value = known_or_unknown (to_lower (trim_space value))

unfoldable pub rank_of : Text → ℕ
rank_of v =
    if v == low
    then 1
    else if v == medium
    then 2
    else if v == high
    then 3
    else if v == critical
    then 4
    else 0

unfoldable pub criticality_rank : Text → ℕ
unfolding rank_of
criticality_rank value = rank_of (normalize_criticality value)

unfoldable pub max_criticality : Text → Text → Text
max_criticality a b =
    if ltb (criticality_rank a) (criticality_rank b)
    then normalize_criticality b
    else normalize_criticality a

unfoldable pub criticality_points : Text → ℕ
criticality_points c =
    if c == low
    then 2
    else if c == medium
    then 8
    else if c == high
    then 18
    else if c == critical
    then 30
    else 0

unfoldable pub impact_score : SecretSummary → ℕ
unfolding criticality_points
impact_score s = min 100 (
    s.affected_workload_count * 2
    + s.affected_team_count * 2
    + s.affected_namespace_count * 2
    + s.unresolved_reference_count * 2
    + criticality_points s.criticality)
