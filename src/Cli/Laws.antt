-- ===== src/Cli/Laws.antt =====
-- The ways in which `run` ends.
use query_smith.Prelude.{
  ℕ, String, ◌<>◌, true, false, List, [], ◌∷◌, ◌++◌, Option, none, some, ◌≡◌, refl, inl, inr,
  Bool-cases,
}
use query_smith.Prelude.Outcome.{Exn, Outcome, ok, err, query_validation_error, db_capture_error}
use query_smith.Text.{truthy, truthy?}
use query_smith.Float.{Float}
use query_smith.Ir.{IrPlan}
use query_smith.Rules.Finding.{Finding}
use query_smith.Rules.Engine.{evaluate}
use query_smith.Narration.Models.{GenerateFn, Narration}
use query_smith.Narration.PlanSummary.{summarize_plan}
use query_smith.Db.Connection.{ConnectionParams}
use query_smith.Adapter.Xml.{Lxml}
use query_smith.Adapter.Build.{parse_plan_xml}
use query_smith.Pipeline
use query_smith.Pipeline.{Unhandled, Unparsed, at_capture, at_parse, at_rules}
use query_smith.Cli.Report.{format_report}
use query_smith.Cli.Run.{
  Args, stdout, stderr, Execution, exit_ok, exit_capture_error, exit_usage_error, reminder,
  no_password, params_for, capture_options, client_of, narrate_for, printed_report, reported,
  analysed, captured, run,
}

module _ (lx : Lxml) {F : Type 0} ⦃fl : Float F⦄ (generate_fn : F → GenerateFn) (now : ℕ)
    (args : Args F) (capture_fn : ConnectionParams F → String → Outcome String)
    (narration_client : Option GenerateFn) where
  abbrev client : GenerateFn
  client = client_of narration_client generate_fn args

  abbrev capture : String → Outcome String
  capture password = capture_fn (params_for args password) args.query

  abbrev pub Found : String → IrPlan F → List Finding → Type 0
  Found password = Pipeline.Found lx F (capture password) (capture_options args now)

  -- Without a password only the error is printed. With one, what is printed begins with the
  -- reminder for the user, and ends with an error or with the report.
  pub data Exits : Option String → Execution → Type 0 where
    unset :
        (environment : Option String)
        → truthy? environment ≡ false
        → Exits environment (stderr no_password ∷ [], ok exit_usage_error)
    refused :
        (password message : String)
        → truthy password ≡ true
        → capture password ≡ err (query_validation_error message)
        → Exits (some password) (
          reminder args.user ++ stderr ("Error: query validation failed: " <> message) ∷ [],
          ok exit_usage_error,
        )
    uncaptured :
        (password message : String)
        → truthy password ≡ true
        → capture password ≡ err (db_capture_error message)
        → Exits
            (some password)
            (reminder args.user ++ stderr ("Error: " <> message) ∷ [], ok exit_capture_error)
    unparsed :
        (password message : String)
        → truthy password ≡ true
        → Unparsed lx F (capture password) (capture_options args now) message
        → Exits (some password) (
          reminder args.user
              ++ stderr ("Error: failed to parse execution plan XML: " <> message) ∷ [],
          ok exit_capture_error,
        )
    failed :
        (password : String) (e : Exn)
        → truthy password ≡ true
        → Unhandled lx F (capture password) (capture_options args now) e
        → Exits (some password) (reminder args.user ++ [], err e)
    unexplained :
        (password : String) (plan : IrPlan F) (findings : List Finding) (e : Exn)
        → truthy password ≡ true
        → Found password plan findings
        → narrate_for args client findings (summarize_plan plan) ≡ err e
        → Exits (some password) (reminder args.user ++ [], err e)
    reports :
        (password : String) (plan : IrPlan F) (findings : List Finding)
        (narration : Option Narration)
        → truthy password ≡ true
        → Found password plan findings
        → narrate_for args client findings (summarize_plan plan) ≡ ok narration
        → Exits (some password) (
          reminder args.user
              ++ stdout (format_report (summarize_plan plan) findings narration) ∷ [],
          ok exit_ok,
        )

  module _ (password : String) (solid : truthy password ≡ true) where
    abbrev Ends : Execution → Type 0
    Ends x = Exits (some password) (reminder args.user ++ x.0, x.1)

    printed_report-Ends :
        (plan : IrPlan F) (findings : List Finding)
        → Found password plan findings
        → (r : Outcome (Option Narration))
        → narrate_for args client findings (summarize_plan plan) ≡ r
        → Ends (printed_report (summarize_plan plan) findings r)
    printed_report-Ends plan findings h (ok narration) e =
        reports password plan findings narration solid h e
    printed_report-Ends plan findings h (err raised) e =
        unexplained password plan findings raised solid h e

    reported-Ends :
        (xml : String) (plan : IrPlan F)
        → capture_fn (params_for args password) args.query ≡ ok xml
        → parse_plan_xml lx (capture_options args now) xml ≡ ok plan
        → (r : Outcome (List Finding)) → evaluate plan ≡ r
        → Ends (reported args client (summarize_plan plan) r)
    reported-Ends xml plan got is_plan (ok findings) e =
        printed_report-Ends plan findings
          (record { xml = xml; is_captured = got; is_parsed = is_plan; is_evaluated = e }) _ refl
    reported-Ends xml plan got is_plan (err raised) e =
        failed password raised solid (at_rules xml plan got is_plan e)

    analysed-Ends :
        (xml : String)
        → capture_fn (params_for args password) args.query ≡ ok xml
        → (r : Outcome (IrPlan F)) → parse_plan_xml lx (capture_options args now) xml ≡ r
        → Ends (analysed args client r)
    analysed-Ends xml got (ok plan) e = reported-Ends xml plan got e _ refl
    analysed-Ends xml got (err (Exn.value_error m)) e = unparsed password m solid (xml, got, e)
    analysed-Ends xml got (err raised) e =
        failed password raised solid (at_parse xml got e (λ m. cc))

    captured-Ends :
        (r : Outcome String)
        → capture_fn (params_for args password) args.query ≡ r
        → Ends (captured lx generate_fn now args narration_client r)
    captured-Ends (ok xml) e = analysed-Ends xml e _ refl
    captured-Ends (err (Exn.query_validation_error m)) e = refused password m solid e
    captured-Ends (err (Exn.db_capture_error m)) e = uncaptured password m solid e
    captured-Ends (err raised) e = failed password raised solid (at_capture e (λ m. cc) (λ m. cc))

  -- Whatever the environment holds and the capture and the model's client do, `run` ends in one of
  -- the ways of `Exits`: it prints the report to stdout and exits with 0 exactly as the analysis
  -- and the narration succeed; otherwise it prints nothing to stdout, and exits with the code of
  -- the error, or with the exception that no clause names.
  pub run-Exits :
      (environment : Option String)
      → Exits environment (run lx generate_fn now environment args capture_fn narration_client)
  unfolding run
  run-Exits none = unset none refl
  run-Exits (some password) = elim (Bool-cases (truthy password)) [
    | inl e ↦ rw e (captured-Ends password e _ refl)
    | inr e ↦ rw e (unset (some password) e)
  ]

  -- If the capture has the same outcome with another password, neither of them empty, `run` prints
  -- the same and ends in the same way with both.
  pub run_hides :
      (password other : String)
      → truthy password ≡ true
      → truthy other ≡ true
      → capture_fn (params_for args password) args.query
        ≡ capture_fn (params_for args other) args.query
      → run lx generate_fn now (some password) args capture_fn narration_client
        ≡ run lx generate_fn now (some other) args capture_fn narration_client
  unfolding run
  run_hides password other solid solid' same = rw (solid, solid', same) refl
