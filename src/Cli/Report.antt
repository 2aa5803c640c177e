-- ===== src/Cli/Report.antt =====
-- The impact report of cmd/kbeaconctl/main.go. Its records are decoded from the agent's answer and have
-- the fields of the records of internal/graph/types.go, which stand for them here. An impact score is
-- a whole number, so that `%.2f` prints two zeros.
pub mod Sources
mod Tests
use kbeacon.Prelude.{ℕ, Bool, List, [], ◌∷◌, ◌++◌, if◌then◌else◌, loop, map}
use kbeacon.Text.{Text, str, ◌==◌, trim_space, join, decimal}
use kbeacon.Dict.{Dict}
use kbeacon.Dict.Sets.{add}
use kbeacon.Sort.{sort_by}
use kbeacon.Graph.Types.{
  mode_text, DependencySource, DependencyEdge, WorkloadSummary, AffectedTeam, SecretImpact,
}
use kbeacon.Cli.Render.{line, each}

pub record ImpactEnvelope : Type 0 where
  pub cluster : Text
  pub generated_at : Text
  pub impact : SecretImpact

unfoldable pub yes_no : Bool → Text
yes_no value = if value then str "yes" else str "no"

unfoldable pub value_or : Text → Text → Text
value_or value fallback = if trim_space value == [] then fallback else value

abbrev pub none_shown : List Text → Text
none_shown [] = str "(none)"
none_shown (t ∷ ts) = join (str ", ") (t ∷ ts)

unfoldable pub format_discovery_modes : Dict ℕ → Text
format_discovery_modes modes =
    none_shown (map (λ m. m.0 ++ (str "=" ++ decimal m.1)) (sort_by (λ m. m.0) modes))

abbrev pub add_type : List Text → DependencySource → List Text
add_type out source = if trim_space source.type == [] then out else add out (trim_space source.type)

-- The types that are shown, before they are joined.
unfoldable pub shown_types : List DependencySource → List Text
shown_types sources = sort_by (λ t. t) (loop add_type [] sources)

unfoldable pub source_types : List DependencySource → Text
unfolding shown_types
source_types sources = none_shown (shown_types sources)

-- A line that is left out for an empty value.
abbrev pub unless_empty : Text → Text → Text
unless_empty label value = if value == [] then [] else line (label ++ value)

abbrev pub detail : Text → Text → List Text
detail label value = if value == [] then [] else (label ++ value) ∷ []

unfoldable pub team_line : AffectedTeam → Text
unfolding value_or
team_line team = line (
    str "  - "
    ++ (value_or team.owner_team (str "unknown")
        ++ (str ": " ++ (decimal team.workload_count ++ str " workload(s)"))))

unfoldable pub workload_line : WorkloadSummary → Text
unfolding value_or
workload_line w =
    let details =
      detail (str "ownerTeam=") w.owner_team
      ++ (detail (str "criticality=") w.criticality
          ++ (detail (str "mode=") (mode_text w.discovery_mode)
              ++ (str "dependencies=" ++ decimal w.dependency_count)
                ∷ (str "unresolved=" ++ decimal w.unresolved_count)
                ∷ [])) in
    line (
      str "  - "
      ++ (value_or w.ref.kind (str "Workload")
          ++ (str " "
              ++ (value_or w.ref.namespace (str "unknown")
                  ++ (str "/"
                      ++ (value_or w.ref.name (str "unknown")
                          ++ (str " (" ++ (join (str ", ") details ++ str ")"))))))))

unfoldable pub edge_lines : DependencyEdge → Text
unfolding value_or yes_no source_types
edge_lines e =
    line (
      str "  - "
      ++ (value_or e.workload.kind (str "Workload")
          ++ (str " "
              ++ (value_or e.workload.namespace (str "unknown")
                  ++ (str "/"
                      ++ (value_or e.workload.name (str "unknown")
                          ++ (str " -> Secret "
                              ++ (value_or e.secret.namespace (str "unknown")
                                  ++ (str "/"
                                      ++ (value_or e.secret.name (str "unknown")
                                          ++ (str " mode="
                                              ++ (value_or (mode_text e.discovery_mode)
                                                    (str "unknown")
                                                  ++ (str " resolved="
                                                      ++ (yes_no e.resolved
                                                          ++ (str " optional="
                                                            ++ yes_no e.optional)))))))))))))))
    ++ line (str "    sources: " ++ source_types e.sources)

-- A section: its title after an empty line, and what stands for an empty list.
abbrev pub section {ℓ} : {A : Type ℓ} → Text → (A → Text) → List A → Text
section title write [] = line [] ++ (line title ++ line (str "  (none)"))
section title write (x ∷ xs) = line [] ++ (line title ++ each write (x ∷ xs))

unfoldable pub report_head : ImpactEnvelope → Text
unfolding value_or yes_no
report_head envelope =
    let secret = envelope.impact.secret in
    line (str "KBeacon Secret Impact Report")
    ++ (line (str "Cluster: " ++ value_or envelope.cluster (str "unknown"))
        ++ (line (str "Generated at: " ++ value_or envelope.generated_at (str "unknown"))
            ++ (line (
                  str "Secret: "
                  ++ (value_or secret.ref.namespace (str "unknown")
                      ++ (str "/" ++ value_or secret.ref.name (str "unknown"))))
                ++ (line (str "Exists: " ++ yes_no secret.present)
                    ++ (unless_empty (str "Type: ") secret.type
                        ++ (unless_empty (str "Owner team: ") secret.owner_team
                            ++ (unless_empty (str "Criticality: ") secret.criticality
                                ++ line (
                                    str "Impact score: "
                                    ++ (decimal secret.impact_score ++ str ".00")))))))))

unfoldable pub report_summary : SecretImpact → Text
unfolding format_discovery_modes
report_summary impact =
    let s = impact.summary in
    line []
    ++ (line (str "Summary:")
        ++ (line (str "  Affected workloads: " ++ decimal s.affected_workload_count)
            ++ (line (str "  Affected teams: " ++ decimal s.affected_team_count)
                ++ (line (str "  Affected namespaces: " ++ decimal s.affected_namespace_count)
                    ++ (line
                          (str "  Unresolved references: " ++ decimal s.unresolved_reference_count)
                        ++ line (
                            str "  Discovery modes: "
                            ++ format_discovery_modes s.discovery_modes))))))

unfoldable pub render_secret_impact_report : ImpactEnvelope → Text
unfolding report_head report_summary team_line workload_line edge_lines
render_secret_impact_report envelope =
    let impact = envelope.impact in
    report_head envelope
    ++ (report_summary impact
        ++ (section (str "Affected teams:") team_line impact.affected_teams
            ++ (section (str "Affected workloads:") workload_line impact.affected_workloads
                ++ section (str "Dependency edges:") edge_lines impact.edges)))
