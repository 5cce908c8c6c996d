-- ===== src/Cli/Run.antt =====
-- cli.py: `run`. What it prints stands in the order of the calls; an exception that no clause names
-- ends the program.
use query_smith.Prelude.{
  ℕ, String, ◌<>◌, Bool, false, List, [], ◌∷◌, ◌++◌, Option, none, some, if◌then◌else◌,
}
use query_smith.Prelude.Outcome.{
  Outcome, ok, err, ◌>>=◌, query_validation_error, db_capture_error, value_error,
}
use query_smith.Text.{truthy, strip, lower, member}
use query_smith.Float.{Float}
use query_smith.Ir.{PlanSource, ObjectType, IrPlan}
use query_smith.Rules.Finding.{Finding}
use query_smith.Rules.Engine.{evaluate}
use query_smith.Narration.Models.{GenerateFn, PlanSummary, Narration}
use query_smith.Narration.PlanSummary.{summarize_plan}
use query_smith.Narration.Engine.{get_narration}
use query_smith.Db.Connection.{ConnectionParams}
use query_smith.Adapter.Xml.{Lxml}
use query_smith.Adapter.Build.{ParseOptions, parse_plan_xml}
use query_smith.Cli.Report.{format_report}

-- The parsed command line.
pub record Args (F : Type 0) : Type 0 where
  pub server : String
  pub database : String
  pub user : String
  pub query : String
  pub driver : String
  pub trust_server_certificate : Bool
  pub timeout : F
  pub narrate : Bool
  pub model : String
  pub ollama_timeout : F

pub data Printed : Type 0 where
  stdout stderr : String → Printed

-- What is printed, and the exit code.
abbrev pub Execution : Type 0
Execution = List Printed × Outcome ℕ

abbrev pub exit_ok : ℕ
exit_ok = 0

abbrev pub exit_capture_error : ℕ
exit_capture_error = 1

abbrev pub exit_usage_error : ℕ
exit_usage_error = 2

abbrev privileged_usernames : List String
privileged_usernames = "sa" ∷ "admin" ∷ "administrator" ∷ "root" ∷ []

-- `_read_only_reminder`, printed if it is one
unfoldable pub reminder : String → List Printed
unfolding strip lower member
reminder user =
    if member (lower (strip user)) privileged_usernames
    then stderr (
        "Reminder: '" <> user
        <> "' looks like a privileged account. QuerySmith only issues read-only SELECT/STATISTICS XML statements, but for real defense-in-depth (the DB-level read-only role the scope doc calls the actual security boundary), connect with a login scoped to db_datareader + SHOWPLAN instead.")
      ∷ []
    else []

abbrev pub no_password : String
no_password =
    "Error: QUERYSMITH_DB_PASSWORD environment variable is not set. Refusing to proceed without a password (never pass it as a flag)."

abbrev pub failing : String → ℕ → Execution
failing message code = (stderr message ∷ [], ok code)

abbrev after_printing : List Printed → Execution → Execution
after_printing printed (later, r) = (printed ++ later, r)

module _ {F : Type 0} where
  abbrev pub params_for : Args F → String → ConnectionParams F
  params_for args password = record {
    server = args.server;
    database = args.database;
    user = args.user;
    password = password;
    driver = args.driver;
    trust_server_certificate = args.trust_server_certificate;
    timeout_s = args.timeout;
  }

  abbrev pub capture_options : Args F → ℕ → ParseOptions
  capture_options args now = record {
    plan_source = PlanSource.actual;
    engine_version = none;
    object_type = ObjectType.adhoc_query;
    object_name = none;
    database_name = some args.database;
    captured_at = some now;
    redact = false;
  }

  -- `_make_ollama_client`
  abbrev pub make_ollama_client : (F → GenerateFn) → F → GenerateFn
  make_ollama_client generate_fn timeout_s prompt model = generate_fn timeout_s prompt model

  -- `narration_client`, or `_make_ollama_client(args.ollama_timeout)`
  abbrev pub client_of : Option GenerateFn → (F → GenerateFn) → Args F → GenerateFn
  client_of none generate_fn args = make_ollama_client generate_fn args.ollama_timeout
  client_of (some client) generate_fn args = client

module _ {F : Type 0} ⦃fl : Float F⦄ where
  unfoldable pub narrate_for :
      Args F → GenerateFn → List Finding → PlanSummary F → Outcome (Option Narration)
  unfolding get_narration
  narrate_for args client findings summary =
      if args.narrate
      then (get_narration findings summary args.model client >>= λ n. ok (some n))
      else ok none

  abbrev pub printed_report : PlanSummary F → List Finding → Outcome (Option Narration) → Execution
  printed_report summary findings (ok narration) =
      (stdout (format_report summary findings narration) ∷ [], ok exit_ok)
  printed_report summary findings (err e) = ([], err e)

  abbrev pub reported : Args F → GenerateFn → PlanSummary F → Outcome (List Finding) → Execution
  reported args client summary (ok findings) =
      printed_report summary findings (narrate_for args client findings summary)
  reported args client summary (err e) = ([], err e)

  abbrev pub analysed : Args F → GenerateFn → Outcome (IrPlan F) → Execution
  analysed args client (ok plan) = reported args client (summarize_plan plan) (evaluate plan)
  analysed args client (err (value_error message)) =
      failing ("Error: failed to parse execution plan XML: " <> message) exit_capture_error
  analysed args client (err e) = ([], err e)

module _ (lx : Lxml) {F : Type 0} ⦃fl : Float F⦄ (generate_fn : F → GenerateFn) (now : ℕ) where
  abbrev pub captured : Args F → Option GenerateFn → Outcome String → Execution
  captured args narration_client (ok xml) =
      analysed args (client_of narration_client generate_fn args)
        (parse_plan_xml lx (capture_options args now) xml)
  captured args narration_client (err (query_validation_error message)) =
      failing ("Error: query validation failed: " <> message) exit_usage_error
  captured args narration_client (err (db_capture_error message)) =
      failing ("Error: " <> message) exit_capture_error
  captured args narration_client (err e) = ([], err e)

  abbrev pub run_with :
      String
      → Args F
      → (ConnectionParams F → String → Outcome String)
      → Option GenerateFn
      → Execution
  run_with password args capture_fn narration_client =
      after_printing (reminder args.user)
        (captured args narration_client (capture_fn (params_for args password) args.query))

  -- The first argument is the environment variable.
  unfoldable pub run :
      Option String
      → Args F
      → (ConnectionParams F → String → Outcome String)
      → Option GenerateFn
      → Execution
  unfolding reminder narrate_for format_report evaluate summarize_plan parse_plan_xml
  run none args capture_fn narration_client = failing no_password exit_usage_error
  run (some password) args capture_fn narration_client =
      if truthy password
      then run_with password args capture_fn narration_client
      else failing no_password exit_usage_error
