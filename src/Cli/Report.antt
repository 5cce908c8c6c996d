-- ===== src/Cli/Report.antt =====
-- cli.py: `format_report`, as the list of its lines and then as one text.
use Prim.Native.String.{count}
use query_smith.Prelude.{
  ℕ, suc, String, ◌<>◌, List, [], ◌∷◌, ◌++◌, map, map_enumerate, length, is_empty, get_elem?,
  Option, none, some, if◌then◌else◌,
}
use query_smith.Prelude.Int.{ℤ}
use query_smith.Text.{truthy, truthy?, join, upper}
use query_smith.Text.Lines.{repeat, pad_right, splitlines}
use query_smith.Text.Numerals.{show_ℕ, show_grouped}
use query_smith.Float.{Float}
use query_smith.Ir.Names.{severity_value}
use query_smith.Rules.Finding.{Finding}
use query_smith.Narration.Models.{PlanSummary, FindingNarration, Narration}

-- `s or default`
abbrev pub or_text : String → Option String → String
or_text default none = default
or_text default (some s) = if truthy s then s else default

abbrev engine_line : Option String → String
engine_line none = ""
engine_line (some version) = if truthy version then " (" <> version <> ")" else ""

-- `_fmt_int`
abbrev fmt_int : Option ℤ → String
fmt_int none = "n/a"
fmt_int (some n) = show_grouped n

-- `splitlines() or [""]`, indented
abbrev statement_lines : String → List String
statement_lines text =
    let lines = splitlines text in
    map (λ line. "    " <> line) (if is_empty lines then "" ∷ [] else lines)

-- `narration_by_index.get(i)`
abbrev narration_by_index : Option Narration → ℕ → Option FindingNarration
narration_by_index none i = none
narration_by_index (some narration) i = get_elem? narration.findings i

abbrev pub explanation_lines : Option FindingNarration → List String
explanation_lines none = []
explanation_lines (some fn) = ("    Explanation: " <> fn.explanation) ∷ []

unfoldable pub fix_lines : String → String → List String
unfolding splitlines
fix_lines label text = ("    " <> label) ∷ map (λ line. "        " <> line) (splitlines text)

abbrev pub model_fix_lines : Option FindingNarration → List String
model_fix_lines none = []
model_fix_lines (some fn) =
    if truthy? fn.suggested_fix
    then fix_lines "Suggested fix (model):" (or_text "" fn.suggested_fix)
    else []

abbrev pub suggested_fix_lines : Option String → Option FindingNarration → List String
suggested_fix_lines fix fn =
    if truthy? fix then fix_lines "Suggested fix:" (or_text "" fix) else model_fix_lines fn

unfoldable pub finding_header : ℕ → String → String → String
unfolding pad_right upper show_ℕ
finding_header i severity rule_id =
    "[" <> show_ℕ (suc i) <> "] " <> pad_right 8 (upper severity) <> " " <> rule_id

-- The lines of finding `i`.
unfoldable pub finding_lines : Option Narration → ℕ → Finding → List String
unfolding finding_header
finding_lines narration i finding =
    let fn = narration_by_index narration i in
    finding_header i (severity_value finding.severity) finding.rule_id
    ∷ ("    " <> finding.summary)
    ∷ (explanation_lines fn ++ (suggested_fix_lines finding.suggested_fix fn ++ "" ∷ []))

abbrev pub concat : List (List String) → List String
concat [] = []
concat (lines ∷ rest) = lines ++ concat rest

abbrev pub findings_lines : Option Narration → List Finding → List String
findings_lines narration findings =
    if is_empty findings
    then "No issues found by the Tier 0 rules engine." ∷ []
    else concat (map_enumerate (finding_lines narration) 0 findings)

-- what an f-string writes for an `Optional[str]`
abbrev reason_text : Option String → String
reason_text none = "None"
reason_text (some s) = s

abbrev degraded_lines : Narration → List String
degraded_lines narration =
    if narration.degraded
    then ("[Tier 1 narration degraded: " <> reason_text narration.degraded_reason <> "]") ∷ []
    else []

abbrev overview_lines : Option Narration → List String
overview_lines none = "Tier 1 narration disabled (--no-narrate). Showing Tier 0 findings only." ∷ []
overview_lines (some narration) = narration.overview ∷ degraded_lines narration

module _ {F : Type 0} ⦃fl : Float F⦄ where
  -- `_fmt_number`
  abbrev fmt_number : Option F → String
  fmt_number none = "n/a"
  fmt_number (some x) = fl.show_grouped_2f x

  abbrev summary_lines : PlanSummary F → List String
  summary_lines summary =
      "QuerySmith Execution Plan Report"
      ∷ repeat "=" 33
      ∷ ("Engine:          " <> summary.engine <> engine_line summary.engine_version)
      ∷ ("Database:        " <> or_text "unknown" summary.database_name)
      ∷ ("Object type:     " <> summary.object_type)
      ∷ ("Statement type:  " <> summary.statement_type)
      ∷ "Statement text:"
      ∷ (statement_lines summary.statement_text
          ++ ""
            ∷ "Plan totals:"
            ∷ ("    Estimated cost:   " <> fmt_number summary.total_estimated_cost)
            ∷ ("    Actual duration:  " <> fmt_number summary.total_actual_duration_ms <> " ms")
            ∷ ("    Actual rows:      " <> fmt_int summary.total_actual_rows)
            ∷ ("    Operator count:   " <> show_ℕ summary.operator_count)
            ∷ ""
            ∷ [])

  -- `lines`
  unfoldable pub report_lines : PlanSummary F → List Finding → Option Narration → List String
  unfolding finding_lines splitlines show_grouped show_ℕ
  report_lines summary findings narration =
      let header = "Findings (" <> show_ℕ (length findings) <> ")" in
      summary_lines summary
      ++ (header
          ∷ repeat "-" (count header)
          ∷ (findings_lines narration findings
              ++ ("Overview" ∷ repeat "-" 8 ∷ overview_lines narration)))

  unfoldable pub format_report : PlanSummary F → List Finding → Option Narration → String
  unfolding report_lines join
  format_report summary findings narration = join "\n" (report_lines summary findings narration)
