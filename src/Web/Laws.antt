-- ===== src/Web/Laws.antt =====
-- The handlers, each run alone.
use query_smith.Prelude.{String, ◌<>◌, List, Option, none, some, ◌≡◌, refl, ap, ◌∙◌}
use query_smith.Prelude.Outcome.{Outcome, Exn, ok, err, query_validation_error, db_capture_error}
use query_smith.Float.{Float}
use query_smith.Ir.{IrPlan}
use query_smith.Rules.Finding.{Finding}
use query_smith.Rules.Engine.{evaluate}
use query_smith.Narration.Models.{Narration}
use query_smith.Narration.PlanSummary.{summarize_plan}
use query_smith.Db.Connection.{ConnectionParams}
use query_smith.Adapter.Xml.{Lxml}
use query_smith.Adapter.Build.{parse_plan_xml}
use query_smith.Pipeline
use query_smith.Pipeline.{Unhandled, Unparsed, at_capture, at_parse, at_rules}
use query_smith.Web.Schemas.{QueryRequest}
use query_smith.Web.Session.{not_connected, or_not_connected}
use query_smith.Web.Handler.{
  Stores, Reply, reply, http_exception, internal_error, query_report, exec,
}
use query_smith.Web.Replies.{to_query_response}
use query_smith.Web.App.{
  Services, with_connection, query_options, narrated, report, evaluated, parsed, captured,
  run_query,
}

module _ (lx : Lxml) {F : Type 0} ⦃fl : Float F⦄ (sv : Services F) (body : QueryRequest F) where
  abbrev capture : ConnectionParams F → Outcome String
  capture p = sv.capture_fn p body.query

  -- The findings of the plan captured for the query.
  abbrev pub Found : ConnectionParams F → IrPlan F → List Finding → Type 0
  Found p = Pipeline.Found lx F (capture p) (query_options sv p body)

  abbrev pub stored : Stores F → IrPlan F → List Finding → Stores F
  stored s plan findings = record s {
    last_result = record {
      result = some (record { plan_summary = summarize_plan plan; findings = findings });
    };
  }

  -- The ways in which `run_query` ends: the stores, and the reply.
  pub data Ran (s : Stores F) : Stores F × Reply F → Type 0 where
    unconnected : s.session.params ≡ none → Ran s (s, http_exception 409 not_connected)
    refused :
        (p : ConnectionParams F) (message : String)
        → s.session.params ≡ some p
        → capture p ≡ err (query_validation_error message)
        → Ran s (s, http_exception 422 message)
    uncaptured :
        (p : ConnectionParams F) (message : String)
        → s.session.params ≡ some p
        → capture p ≡ err (db_capture_error message)
        → Ran s (s, http_exception 502 message)
    unparsed :
        (p : ConnectionParams F) (message : String)
        → s.session.params ≡ some p
        → Unparsed lx F (capture p) (query_options sv p body) message
        → Ran s (s, http_exception 500 ("Failed to parse execution plan XML: " <> message))
    failed :
        (p : ConnectionParams F) (e : Exn)
        → s.session.params ≡ some p
        → Unhandled lx F (capture p) (query_options sv p body) e
        → Ran s (s, internal_error)
    unexplained :
        (p : ConnectionParams F) (plan : IrPlan F) (findings : List Finding) (e : Exn)
        → s.session.params ≡ some p
        → Found p plan findings
        → narrated sv body findings (summarize_plan plan) ≡ err e
        → Ran s (stored s plan findings, internal_error)
    reported :
        (p : ConnectionParams F) (plan : IrPlan F) (findings : List Finding)
        (narration : Option Narration)
        → s.session.params ≡ some p
        → Found p plan findings
        → narrated sv body findings (summarize_plan plan) ≡ ok narration
        → Ran s (
          stored s plan findings,
          reply (query_report (to_query_response (summarize_plan plan) findings narration)),
        )

  module _ (s : Stores F) (p : ConnectionParams F) (connected : s.session.params ≡ some p) where
    report-Ran :
        (plan : IrPlan F) (findings : List Finding)
        → Found p plan findings
        → (r : Outcome (Option Narration)) → narrated sv body findings (summarize_plan plan) ≡ r
        → Ran s (exec (report (summarize_plan plan) findings r) (stored s plan findings))
    report-Ran plan findings h (ok narration) e = reported p plan findings narration connected h e
    report-Ran plan findings h (err raised) e = unexplained p plan findings raised connected h e

    evaluated-Ran :
        (xml : String) (plan : IrPlan F)
        → sv.capture_fn p body.query ≡ ok xml
        → parse_plan_xml lx {F = F} (query_options sv p body) xml ≡ ok plan
        → (r : Outcome (List Finding)) → evaluate plan ≡ r
        → Ran s (exec (evaluated sv body (summarize_plan plan) r) s)
    evaluated-Ran xml plan got is_plan (ok findings) e =
        report-Ran plan findings
          (record { xml = xml; is_captured = got; is_parsed = is_plan; is_evaluated = e }) _ refl
    evaluated-Ran xml plan got is_plan (err raised) e =
        failed p raised connected (at_rules xml plan got is_plan e)

    parsed-Ran :
        (xml : String)
        → sv.capture_fn p body.query ≡ ok xml
        → (r : Outcome (IrPlan F)) → parse_plan_xml lx {F = F} (query_options sv p body) xml ≡ r
        → Ran s (exec (parsed sv body r) s)
    parsed-Ran xml got (ok plan) e = evaluated-Ran xml plan got e (evaluate plan) refl
    parsed-Ran xml got (err (Exn.value_error m)) e = unparsed p m connected (xml, got, e)
    parsed-Ran xml got (err raised) e = failed p raised connected (at_parse xml got e (λ m. cc))

    captured-Ran :
        (r : Outcome String)
        → sv.capture_fn p body.query ≡ r
        → Ran s (exec (captured lx sv body p r) s)
    captured-Ran (ok xml) e = parsed-Ran xml e _ refl
    captured-Ran (err (Exn.query_validation_error m)) e = refused p m connected e
    captured-Ran (err (Exn.db_capture_error m)) e = uncaptured p m connected e
    captured-Ran (err raised) e = failed p raised connected (at_capture e (λ m. cc) (λ m. cc))

  pub run_query-Ran : (s : Stores F) → Ran s (exec (run_query lx sv body) s)
  unfolding run_query
  run_query-Ran s = at s.session.params refl
    where
      at :
          (o : Option (ConnectionParams F))
          → s.session.params ≡ o
          → Ran s (
              exec
                (with_connection
                  (λ p. captured lx sv body p (sv.capture_fn p body.query))
                  (or_not_connected o))
                s)
      at none e = unconnected e
      at (some p) e = captured-Ran s p e _ refl

  pub exec-run_query :
      (s : Stores F) (p : ConnectionParams F) (plan : IrPlan F) (findings : List Finding)
      (r : Outcome (Option Narration))
      → s.session.params ≡ some p
      → Found p plan findings
      → narrated sv body findings (summarize_plan plan) ≡ r
      → exec (run_query lx sv body) s
        ≡ exec (report (summarize_plan plan) findings r) (stored s plan findings)
  unfolding run_query
  exec-run_query s p plan findings r connected found e =
      ap
        (λ o.
          exec
            (with_connection (λ p. captured lx sv body p (sv.capture_fn p body.query))
              (or_not_connected o))
            s)
        connected
      ∙ rw (found.is_captured, found.is_parsed, found.is_evaluated, e) refl
