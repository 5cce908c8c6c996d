-- ===== src/Web/App.antt =====
-- web/app.py: the handlers. What a handler computes between two calls of the stores is a function by
-- clauses on the outcome of the step before.
use query_smith.Prelude.{ℕ, String, ◌<>◌, List, map, Option, none, some, if◌then◌else◌}
use query_smith.Prelude.Outcome.{
  Outcome, ok, err, ◌>>=◌, query_validation_error, db_capture_error, value_error,
  not_connected_error, no_result_available_error,
}
use query_smith.Ir.{PlanSource, ObjectType, IrPlan}
use query_smith.Rules.Finding.{Finding}
use query_smith.Rules.Engine.{evaluate}
use query_smith.Narration.Models.{GenerateFn, PlanSummary, Narration, FixProposal}
use query_smith.Narration.PlanSummary.{summarize_plan}
use query_smith.Narration.Engine.{get_narration}
use query_smith.Narration.FixEngine.{propose_fixes}
use query_smith.Db.QuerySafety.{Sqlglot}
use query_smith.Db.Connection.{ConnectionParams}
use query_smith.Db.Catalog.{ViewRef}
use query_smith.Adapter.Xml.{Lxml}
use query_smith.Adapter.Build.{ParseOptions, parse_plan_xml}
use query_smith.Web.Schemas.{ConnectionRequest, QueryRequest, ProposeFixRequest}
use query_smith.Web.LastResult.{LastResult}
use query_smith.Web.Handler.{
  connection_status, no_content, view_list, query_report, fix_proposal, reply, http_exception,
  internal_error, Handler, answer, is_connected, get_session, set_session, clear_session,
  get_result, set_result, clear_result,
}
use query_smith.Web.Replies.{
  to_query_response, to_propose_fix_response, status_of, not_connected_status, params_of, view_item,
}
use query_smith.Float.{Float}

-- The functions that FastAPI injects, and the clock. `connect_fn` connects and closes the connection;
-- `generate_fn` takes the timeout first.
pub record Services (F : Type 0) : Type 0 where
  pub connect_fn : ConnectionParams F → Outcome (Unit {0})
  pub list_views_fn : ConnectionParams F → Outcome (List ViewRef)
  pub capture_fn : ConnectionParams F → String → Outcome String
  pub generate_fn : F → GenerateFn
  pub now : ℕ

module _ {F : Type 0} where
  abbrev pub with_connection :
      (ConnectionParams F → Handler F) → Outcome (ConnectionParams F) → Handler F
  with_connection k (ok p) = k p
  with_connection k (err (not_connected_error message)) = answer (http_exception 409 message)
  with_connection k (err e) = answer internal_error

  -- `_require_connection`
  abbrev pub require_connection : (ConnectionParams F → Handler F) → Handler F
  require_connection k = get_session (with_connection k)

  abbrev pub with_last_result : (LastResult F → Handler F) → Outcome (LastResult F) → Handler F
  with_last_result k (ok r) = k r
  with_last_result k (err (no_result_available_error message)) = answer (http_exception 409 message)
  with_last_result k (err e) = answer internal_error

  -- `_require_last_result`
  abbrev pub require_last_result : (LastResult F → Handler F) → Handler F
  require_last_result k = get_result (with_last_result k)

-- `_conn_kwargs`: the keyword arguments are a record with the same fields.
abbrev pub conn_kwargs : {F : Type 0} → ConnectionParams F → ConnectionParams F
conn_kwargs params = record {
  server = params.server;
  database = params.database;
  user = params.user;
  password = params.password;
  driver = params.driver;
  trust_server_certificate = params.trust_server_certificate;
  timeout_s = params.timeout_s;
}

-- `_make_ollama_client`
abbrev pub make_ollama_client : {F : Type 0} → (F → GenerateFn) → F → GenerateFn
make_ollama_client generate_fn timeout_s prompt model = generate_fn timeout_s prompt model

-- The handlers' bodies, by what stands before each step.
module _ {F : Type 0} where
  abbrev pub connected_as : ConnectionParams F → Outcome (Unit {0}) → Handler F
  connected_as p (ok done) = set_session p (answer (reply (connection_status (status_of p))))
  connected_as p (err (db_capture_error message)) = answer (http_exception 400 message)
  connected_as p (err e) = answer internal_error

  unfoldable pub create_connection : Services F → ConnectionRequest F → Handler F
  unfolding status_of
  create_connection sv body = let p = params_of body in connected_as p (sv.connect_fn p)

  abbrev pub status_from : Outcome (ConnectionParams F) → Handler F
  status_from (ok p) = answer (reply (connection_status (status_of p)))
  status_from (err e) = answer internal_error

  unfoldable pub get_connection : Handler F
  unfolding status_of
  get_connection = is_connected λ yes.
      if yes
      then get_session status_from
      else answer (reply (connection_status not_connected_status))

  unfoldable pub delete_connection : Handler F
  delete_connection = clear_session (clear_result (answer (reply no_content)))

  abbrev pub listed : Outcome (List ViewRef) → Handler F
  listed (ok vs) = answer (reply (view_list (record { views = map view_item vs })))
  listed (err (db_capture_error message)) = answer (http_exception 502 message)
  listed (err e) = answer internal_error

  unfoldable pub get_views : Services F → Handler F
  get_views sv = require_connection λ p. listed (sv.list_views_fn (conn_kwargs p))

abbrev pub query_options :
    {F : Type 0} → Services F → ConnectionParams F → QueryRequest F → ParseOptions
query_options sv p body = record {
  plan_source = PlanSource.actual;
  engine_version = none;
  object_type = ObjectType.adhoc_query;
  object_name = none;
  database_name = some p.database;
  captured_at = some sv.now;
  redact = body.redact;
}

module _ {F : Type 0} ⦃fl : Float F⦄ where
  unfoldable pub narrated :
      Services F → QueryRequest F → List Finding → PlanSummary F → Outcome (Option Narration)
  unfolding get_narration
  narrated sv body findings summary =
      if body.narrate
      then (do
        ok (
            some
              (← get_narration findings summary body.model
                (make_ollama_client sv.generate_fn body.ollama_timeout_s))))
      else ok none

  abbrev pub report : PlanSummary F → List Finding → Outcome (Option Narration) → Handler F
  report summary findings (ok narration) =
      answer (reply (query_report (to_query_response summary findings narration)))
  report summary findings (err e) = answer internal_error

  abbrev pub evaluated :
      Services F → QueryRequest F → PlanSummary F → Outcome (List Finding) → Handler F
  evaluated sv body summary (ok findings) =
      set_result (record { plan_summary = summary; findings = findings })
        (report summary findings (narrated sv body findings summary))
  evaluated sv body summary (err e) = answer internal_error

  abbrev pub parsed : Services F → QueryRequest F → Outcome (IrPlan F) → Handler F
  parsed sv body (ok plan) = evaluated sv body (summarize_plan plan) (evaluate plan)
  parsed sv body (err (value_error message)) =
      answer (http_exception 500 ("Failed to parse execution plan XML: " <> message))
  parsed sv body (err e) = answer internal_error

module _ (lx : Lxml) {F : Type 0} ⦃fl : Float F⦄ where
  abbrev pub captured :
      Services F → QueryRequest F → ConnectionParams F → Outcome String → Handler F
  captured sv body p (ok xml) = parsed sv body (parse_plan_xml lx (query_options sv p body) xml)
  captured sv body p (err (query_validation_error message)) = answer (http_exception 422 message)
  captured sv body p (err (db_capture_error message)) = answer (http_exception 502 message)
  captured sv body p (err e) = answer internal_error

  unfoldable pub run_query : Services F → QueryRequest F → Handler F
  unfolding narrated evaluate summarize_plan to_query_response parse_plan_xml
  run_query sv body =
      require_connection λ p. captured sv body p (sv.capture_fn (conn_kwargs p) body.query)

module _ (sg : Sqlglot) {F : Type 0} ⦃fl : Float F⦄ where
  abbrev pub proposed : Outcome FixProposal → Handler F
  proposed (ok proposal) = answer (reply (fix_proposal (to_propose_fix_response proposal)))
  proposed (err e) = answer internal_error

  unfoldable pub propose_fix : Services F → ProposeFixRequest F → Handler F
  unfolding propose_fixes to_propose_fix_response
  propose_fix sv body = require_last_result λ r. proposed (
      propose_fixes sg r.findings r.plan_summary body.model
        (make_ollama_client sv.generate_fn body.ollama_timeout_s))

-- The routes.
pub data Request (F : Type 0) : Type 0 where
  post_connection : ConnectionRequest F → Request F
  read_connection end_connection read_views : Request F
  post_query : QueryRequest F → Request F
  post_propose_fix : ProposeFixRequest F → Request F

module _ (lx : Lxml) (sg : Sqlglot) {F : Type 0} ⦃fl : Float F⦄ where
  abbrev pub handle : Services F → Request F → Handler F
  handle sv (post_connection body) = create_connection sv body
  handle sv read_connection = get_connection
  handle sv end_connection = delete_connection
  handle sv read_views = get_views sv
  handle sv (post_query body) = run_query lx sv body
  handle sv (post_propose_fix body) = propose_fix sg sv body
