-- ===== src/Narration/Sample.antt =====
-- Findings, a plan's summary and answers of a model, for the tests.
use query_smith.Prelude.{String, List, [], ◌∷◌, none, some}
use query_smith.Prelude.Int.{ℤ, pos, negsuc}
use query_smith.Prelude.Outcome.{ok, err, ollama_client_error}
use query_smith.Float.Sample.{Cents, cents_float}
use query_smith.Ir.{Severity}
use query_smith.Ir.Sample.{plan}
use query_smith.Json.{Json, Fields, int, str, arr, obj, of_items}
use query_smith.Rules.Finding.{Finding}
use query_smith.Narration.Models.{GenerateFn, PlanSummary}
use query_smith.Narration.PlanSummary.{summarize_plan}

abbrev pub scan_finding : Finding
scan_finding = record {
  rule_id = "large_table_scan";
  severity = Severity.critical;
  operator_id = some "1";
  summary = "Large scan";
  detail = "A scan of Orders";
  suggested_fix = none;
}

abbrev pub index_finding : Finding
index_finding = record {
  rule_id = "missing_index_available";
  severity = Severity.warning;
  operator_id = none;
  summary = "Missing index";
  detail = "An index on Orders";
  suggested_fix = some "CREATE INDEX i ON Orders (Status);";
}

abbrev pub two_findings : List Finding
two_findings = scan_finding ∷ index_finding ∷ []

abbrev pub summary : PlanSummary Cents
summary = summarize_plan plan

abbrev pub fields_of : List (String × Json) → Fields
fields_of [] = Fields.end
fields_of ((key, value) ∷ rest) = Fields.field key value (fields_of rest)

abbrev pub entry_for : ℤ → String → String → Json
entry_for idx key text = obj (fields_of (("finding_index", int idx) ∷ (key, str text) ∷ []))

-- an entry for index 0, one for an index out of range, a duplicate, and one for index 1
abbrev pub answer : Fields
answer = fields_of (
    ("overview", str " One scan. ")
    ∷ (
      "findings",
      arr (
          of_items (
            entry_for (pos 0) "explanation" "It reads all rows. "
            ∷ entry_for (negsuc 0) "explanation" "Nothing."
            ∷ entry_for (pos 0) "explanation" "Again."
            ∷ entry_for (pos 0) "suggested_fix" "Add a filter."
            ∷ entry_for (pos 1) "suggested_fix" "Ignored."
            ∷ [])),
    )
    ∷ [])

abbrev pub telling : GenerateFn
telling prompt model = ok (obj answer)

abbrev pub unreachable : GenerateFn
unreachable prompt model = err (ollama_client_error "no connection")

abbrev pub fix_answer : String → Fields
fix_answer query = fields_of (
    (
      "fixes",
      arr (
          of_items (
            entry_for (pos 0) "rewritten_query" query
            ∷ entry_for (pos 0) "index_script" "DROP TABLE Orders"
            ∷ entry_for (pos 1) "index_script" "CREATE INDEX j"
            ∷ [])),
    )
    ∷ [])

abbrev pub fixing : String → GenerateFn
fixing query prompt model = ok (obj (fix_answer query))
