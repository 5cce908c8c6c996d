-- ===== src/Narration/Prompt.antt =====
-- narration/prompt.py and narration/fix_prompt.py
use query_smith.Prelude.{ℕ, String, ◌<>◌, List, map, map_enumerate, Option, none, some}
use query_smith.Prelude.Int.{ℤ, pos}
use query_smith.Float.{Float}
use query_smith.Json.{Json, null, bool, int, float, str, arr, obj, end, field, of_items}
use query_smith.Json.Dumps.{dumps}
use query_smith.Ir.Names.{severity_value}
use query_smith.Rules.Finding.{Finding}
use query_smith.Narration.Models.{OperatorHighlight, PlanSummary}

abbrev pub json_text : Option String → Json
json_text none = null
json_text (some s) = str s

abbrev pub json_ℤ : Option ℤ → Json
json_ℤ none = null
json_ℤ (some n) = int n

-- one entry of `findings_json`
pub finding_json : ℕ → Finding → Json
finding_json i f = obj (
    field "finding_index" (int (pos i)) (
      field "rule_id" (str f.rule_id) (
        field "severity" (str (severity_value f.severity)) (
          field "operator_id" (json_text f.operator_id) (
            field "summary" (str f.summary) (
              field "detail" (str f.detail)
                (field "suggested_fix" (json_text f.suggested_fix) end)))))))

unfoldable pub findings_json : List Finding → String
unfolding finding_json dumps
findings_json findings = dumps (arr (of_items (map_enumerate finding_json 0 findings)))

module _ {F : Type 0} ⦃fl : Float F⦄ where
  abbrev json_float : Option F → Json
  json_float none = null
  json_float (some x) = float (fl.show_json x)

  -- `asdict` of an `OperatorHighlight`
  highlight_json : OperatorHighlight F → Json
  highlight_json h = obj (
      field "id" (str h.id) (
        field "operator_type" (str h.operator_type) (
          field "physical_op_raw" (str h.physical_op_raw) (
            field "object_ref" (json_text h.object_ref) (
              field "access_type" (json_text h.access_type) (
                field "estimated_rows" (json_float h.estimated_rows) (
                  field "actual_rows" (json_float h.actual_rows) (
                    field "row_estimate_ratio" (json_float h.row_estimate_ratio) (
                      field "estimated_cost_pct_of_total" (json_float h.estimated_cost_pct_of_total)
                        (field "actual_duration_ms" (json_float h.actual_duration_ms) (
                          field "tempdb_spill" (bool h.tempdb_spill)
                            (field "parallel" (bool h.parallel) end))))))))))))

  -- `asdict` of a `PlanSummary`
  summary_json : PlanSummary F → Json
  unfolding highlight_json
  summary_json s = obj (
      field "engine" (str s.engine) (
        field "engine_version" (json_text s.engine_version) (
          field "database_name" (json_text s.database_name) (
            field "object_type" (str s.object_type) (
              field "object_name" (json_text s.object_name) (
                field "plan_source" (str s.plan_source) (
                  field "statement_type" (str s.statement_type) (
                    field "statement_text" (str s.statement_text) (
                      field "total_estimated_cost" (json_float s.total_estimated_cost) (
                        field "total_actual_duration_ms" (json_float s.total_actual_duration_ms) (
                          field "total_actual_rows" (json_ℤ s.total_actual_rows) (
                            field "operator_count" (int (pos s.operator_count)) (
                              field "notable_operators"
                                (arr (of_items (map highlight_json s.notable_operators)))
                                end)))))))))))))

  -- The frame that both prompts share, around a preamble and a description of the answer's shape.
  prompt_of : String → String → PlanSummary F → List Finding → String
  unfolding summary_json findings_json dumps
  prompt_of preamble shape plan_summary findings =
      preamble
      <> "\n"
      <> "## Plan summary\n"
      <> dumps (summary_json plan_summary)
      <> "\n\n"
      <> "## Findings (already prioritized by the rules engine -- do not reorder)\n"
      <> findings_json findings
      <> "\n\n"
      <> "## Output format\n"
      <> shape
      <> "\n"

abbrev system_preamble : String
system_preamble =
    "You are a database performance assistant. A deterministic rules engine has "
    <> "already analyzed a query execution plan and produced a prioritized list of "
    <> "findings. Your job is to explain these findings in plain English for a developer "
    <> "audience, write a short overview of the plan as a whole, and -- where you can do "
    <> "so with confidence -- suggest a fix.\n\nRules you must follow:\n- Do not reorder, "
    <> "omit, merge, or add findings. Explain each one exactly as given.\n- Do not change "
    <> "or second-guess any finding's severity or substance -- you are narrating, not "
    <> "re-analyzing.\n- A finding may already include a non-null suggested_fix -- that "
    <> "came from the rules engine itself (e.g. a generated CREATE INDEX script) and is a "
    <> "verified fact, not a suggestion. If you see one, set your own suggested_fix to "
    <> "null for that finding rather than repeating or contradicting it.\n- For findings "
    <> "without one, only propose a suggested_fix when the plan/statement gives you a "
    <> "concrete, specific basis for it (e.g. the statement text shows SELECT * with no "
    <> "WHERE clause). Set it to null rather than guessing a generic fix.\n- Respond with "
    <> "a single JSON object and nothing else: no markdown fences, no commentary before "
    <> "or after the JSON.\n"

abbrev response_schema_description : String
response_schema_description =
    "Respond with exactly this JSON shape:\n{\n  \"overview\": \"<2-4 sentence "
    <> "plain-English summary of the plan as a whole>\",\n  \"findings\": [\n    "
    <> "{\"finding_index\": <int, matches finding_index given below>, \"explanation\": "
    <> "\"<1-3 sentence plain-English explanation>\", \"suggested_fix\": <\"<1-2 sentence "
    <> "specific remediation suggestion>\" or null>}\n  ]\n}\nInclude exactly one "
    <> "findings[] entry per finding_index given below, in any order."

abbrev fix_system_preamble : String
fix_system_preamble =
    "You are a database performance assistant. A deterministic rules engine has "
    <> "already analyzed a query execution plan and produced a prioritized list of "
    <> "findings, and a separate step has already explained them to the user in plain "
    <> "English. Your only job now is to propose concrete remediations for findings that "
    <> "don't already have one.\n\nRules you must follow:\n- A finding may already "
    <> "include a non-null suggested_fix -- that came from the rules engine itself (e.g. "
    <> "a generated CREATE INDEX script) and is a verified fact. For that finding, set "
    <> "both rewritten_query and index_script to null: there is nothing for you to add.\n"
    <> "- For findings without one, propose either or both of:\n  - rewritten_query: a "
    <> "complete, valid T-SQL SELECT statement, referencing only the same tables/columns "
    <> "as the statement given below, that addresses the finding via a query-shape change "
    <> "(join order, join predicates, predicate placement, column selection). It must be "
    <> "a single SELECT statement -- no DDL, no comments, no markdown fences -- and must "
    <> "return the same rows/columns as the original, just structured to perform "
    <> "better.\n  - index_script: a complete, valid T-SQL CREATE INDEX statement (a "
    <> "single statement, no markdown fences) that would address the finding.\n- Only "
    <> "propose either field when you're confident it's correct and specific to this "
    <> "plan/statement. Set it to null rather than guessing.\n- Respond with a single "
    <> "JSON object and nothing else: no markdown fences, no commentary before or after "
    <> "the JSON.\n"

abbrev fix_response_schema_description : String
fix_response_schema_description =
    "Respond with exactly this JSON shape:\n{\n  \"fixes\": [\n    {\"finding_index\": "
    <> "<int, matches finding_index given below>, \"rewritten_query\": <\"<complete "
    <> "rewritten SELECT statement>\" or null>, \"index_script\": <\"<complete CREATE "
    <> "INDEX statement>\" or null>}\n  ]\n}\nInclude exactly one fixes[] entry per "
    <> "finding_index given below, in any order."

module _ {F : Type 0} ⦃fl : Float F⦄ where
  unfoldable pub build_prompt : PlanSummary F → List Finding → String
  unfolding prompt_of
  build_prompt = prompt_of system_preamble response_schema_description

  unfoldable pub build_fix_prompt : PlanSummary F → List Finding → String
  unfolding prompt_of
  build_fix_prompt = prompt_of fix_system_preamble fix_response_schema_description
