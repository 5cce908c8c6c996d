-- ===== src/Cli/Tests.antt =====
-- The command line at concrete arguments.
use mathlib.Core.Path.{subst}
use query_smith.Db.Sample.{driver, sqlglot}
use query_smith.Web.Sample.{silent}
use query_smith.Db.QuerySafety.{validate_select_only}
use query_smith.Db.Driver.{connect}
use query_smith.Db.Capture.{find_showplan_xml, is_showplan}
use query_smith.Adapter.Extract.{find_detail_wrapper, extract_warnings, direct_child_rel_ops}
use query_smith.Adapter.Counters.{sum_actual_rows, max_actual_duration_ms}
use query_smith.Adapter.OperatorMap.{map_access_type}
use query_smith.Rules.Checks.{check_large_scans, check_large_scan}
use query_smith.Argparse.{
  text, number, switch, Namespace, Parsing, exits, namespace, Argparse, IsComplete,
}
use query_smith.Cli.Main.{build_parser, parser_exit, returned, main}
use query_smith.Cli.Main.Success.{Success, main-Success}
use query_smith.Prelude.{ap, String, true, [], ◌∷◌, none, some, ◌≡◌, refl}
use query_smith.Prelude.Outcome.{Outcome, ok, err, db_capture_error}
use query_smith.Float.Sample.{Cents, cents, cents_float}
use query_smith.Narration.Models.{GenerateFn, Narration}
use query_smith.Narration.Engine.{assemble, fallback_explanation}
use query_smith.Narration.Response.{collect_texts}
use query_smith.Narration.Sample.{two_findings, summary, answer, telling}
use query_smith.Db.Connection.{ConnectionParams, default_odbc_driver}
use query_smith.Text.{strip, lower, member}
use query_smith.Web.Sample.{reader}
use query_smith.Cli.Report.{fix_lines, finding_lines, findings_lines}
use query_smith.Cli.Run.{Args, Execution, stderr, reminder, no_password, run}
use query_smith.Cli.Laws.{Exits, run-Exits}
use query_smith.Text.{upper}
use query_smith.Text.Lines.{pad_right, splitlines}
use query_smith.Text.Numerals.{show_ℕ}

abbrev args : Args Cents
args = record {
  server = "localhost";
  database = "Sales";
  user = "u";
  query = "SELECT 1";
  driver = default_odbc_driver;
  trust_server_certificate = true;
  timeout = cents 6000;
  narrate = true;
  model = "m";
  ollama_timeout = cents 60000;
}

abbrev generate_fn : Cents → GenerateFn
generate_fn timeout = telling

abbrev capture : ConnectionParams Cents → String → Outcome String
capture p query = ok "plan"

abbrev unreachable : ConnectionParams Cents → String → Outcome String
unreachable p query = err (db_capture_error "no route")

abbrev narration : Narration
narration = assemble two_findings summary "m" (some answer, none)

no_password_test :
    run reader generate_fn 0 (some "") args capture none ≡ (stderr no_password ∷ [], ok 2)
unfolding run
no_password_test = refl

unreachable_test :
    run reader generate_fn 0 (some "p") args unreachable none
    ≡ (stderr "Error: no route" ∷ [], ok 1)
unfolding run reminder strip lower member
unreachable_test = refl

finding_lines_test :
    findings_lines (some narration) two_findings
    ≡ "[1] CRITICAL large_table_scan" ∷ "    Large scan" ∷ "    Explanation: It reads all rows."
      ∷ "    Suggested fix (model):" ∷ "        Add a filter." ∷ ""
      ∷ "[2] WARNING  missing_index_available" ∷ "    Missing index"
      ∷ "    Explanation: Missing index. An index on Orders" ∷ "    Suggested fix:"
      ∷ "        CREATE INDEX i ON Orders (Status);" ∷ "" ∷ []
unfolding finding_lines assemble pad_right upper show_ℕ splitlines strip collect_texts fix_lines
    fallback_explanation
finding_lines_test = refl

run-Exits_example :
    Exits reader generate_fn 0 args capture none
      (some "p")
      (run reader generate_fn 0 (some "p") args capture none)
run-Exits_example = run-Exits reader generate_fn 0 args capture none (some "p")

-- what argparse gives for the four required options alone
abbrev given : Namespace Cents
given =
    ("server", text "localhost")
    ∷ ("database", text "Sales")
    ∷ ("user", text "u")
    ∷ ("query", text "SELECT 1")
    ∷ ("driver", text default_odbc_driver)
    ∷ ("trust_server_certificate", switch true)
    ∷ ("timeout", number (cents 6000))
    ∷ ("narrate", switch true)
    ∷ ("model", text "m")
    ∷ ("ollama_timeout", number (cents 60000))
    ∷ []

abbrev parsing : Argparse Cents
parsing parser argv = namespace given

abbrev named : Parsing Cents → Namespace Cents
named (exits code) = []
named (namespace ns) = ns

given-IsComplete : IsComplete (build_parser {F = Cents}).arguments given
unfolding build_parser
given-IsComplete = (
  (text "localhost", refl, tt),
  (
    (text "Sales", refl, tt),
    (
      (text "u", refl, tt),
      (
        (text "SELECT 1", refl, tt),
        (
          (text default_odbc_driver, refl, tt),
          (
            (switch true, refl, tt),
            (
              (number (cents 6000), refl, tt),
              (
                (switch true, refl, tt),
                ((text "m", refl, tt), ((number (cents 60000), refl, tt), tt)),
              ),
            ),
          ),
        ),
      ),
    ),
  ),
)

abbrev execution : Execution
unfolding main validate_select_only connect find_showplan_xml is_showplan find_detail_wrapper
    sum_actual_rows max_actual_duration_ms extract_warnings direct_child_rel_ops check_large_scans
    check_large_scan map_access_type
execution = elim (main driver sqlglot reader silent 0 (some "p") parsing []) [
  | parser_exit code ↦ ([], ok code)
  | returned x ↦ x
]

main_runs : main driver sqlglot reader silent 0 (some "p") parsing [] ≡ returned execution
unfolding execution
main_runs = refl

exits_with_ok : execution.1 ≡ ok 0
unfolding execution
exits_with_ok = refl

main-Success_example : Success driver sqlglot reader silent 0 (some "p") parsing [] execution
main-Success_example =
    main-Success driver sqlglot reader silent 0 (some "p") parsing []
      (λ ns e.
        subst (IsComplete (build_parser {F = Cents}).arguments) (ap named e) given-IsComplete)
      execution main_runs exits_with_ok
