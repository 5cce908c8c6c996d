-- ===== src/Web/Invariant/Handled.antt =====
-- The programs of the handlers, one by one.
use query_smith.Prelude.{ℕ, String, List, Option, none, some, false, ◌≡◌, refl, ap, inl, inr}
use query_smith.Prelude.Outcome.{Outcome, Exn, ok, err, ok-injective}
use query_smith.Float.{Float}
use query_smith.Ir.{IrPlan}
use query_smith.Rules.Finding.{Finding}
use query_smith.Rules.Engine.{evaluate}
use query_smith.Narration.Models.{Narration, FixProposal}
use query_smith.Narration.PlanSummary.{summarize_plan}
use query_smith.Narration.FixEngine.{propose_fixes}
use query_smith.Db.QuerySafety.{Sqlglot}
use query_smith.Db.Connection.{ConnectionParams}
use query_smith.Db.Catalog.{ViewRef}
use query_smith.Adapter.Xml.{Lxml}
use query_smith.Adapter.Build.{parse_plan_xml}
use query_smith.Web.Schemas.{QueryRequest, ProposeFixRequest}
use query_smith.Web.LastResult.{LastResult}
use query_smith.Web.Session
use query_smith.Web.LastResult
use query_smith.Web.LastResult.{LastResult}
use query_smith.Web.Handler.{Stores}
use query_smith.Web.Replies.{params_of, status_of}
use query_smith.Web.App.{
  Services, Request, post_connection, read_connection, end_connection, read_views, post_query,
  post_propose_fix, handle, query_options, create_connection, connected_as, status_from,
  get_connection, delete_connection, get_views, listed, report, evaluated, parsed, captured,
  run_query, proposed, propose_fix,
}
use query_smith.Web.Invariant.{OnOk, Accepted, Analysed, Sound}

module _ {F : Type 0} where
  is_connected-none :
      (o : Option (ConnectionParams F))
      → Session.is_connected (record { params = o }) ≡ false
      → o ≡ none
  is_connected-none none h = refl
  is_connected-none (some p) h = cc

  get-ok :
      (o : Option (ConnectionParams F)) (p : ConnectionParams F)
      → Session.or_not_connected o ≡ ok p
      → o ≡ some p
  get-ok none p h = cc
  get-ok (some q) p h = ap some (ok-injective h)

  get-err :
      (o : Option (ConnectionParams F)) (e : Exn) → Session.or_not_connected o ≡ err e → o ≡ none
  get-err none e h = refl
  get-err (some q) e h = cc

  result-ok :
      (o : Option (LastResult F)) (r : LastResult F) → LastResult.or_no_result o ≡ ok r → o ≡ some r
  result-ok none r h = cc
  result-ok (some q) r h = ap some (ok-injective h)

  result-err : (o : Option (LastResult F)) (e : Exn) → LastResult.or_no_result o ≡ err e → o ≡ none
  result-err none e h = refl
  result-err (some q) e h = cc

module _ (lx : Lxml) (sg : Sqlglot) {F : Type 0} ⦃fl : Float F⦄ (world : ℕ → Services F) where
  -- What the last call of a handler has, by the call.
  abbrev Got : Outcome (ConnectionParams F) → Stores F → Type 0
  Got got s = Session.get s.session ≡ got

  abbrev GotResult : Outcome (LastResult F) → Stores F → Type 0
  GotResult got s = LastResult.get s.last_result ≡ got

  connected_as-Sound :
      (Last : Stores F → Type 0) (n : ℕ) (p : ConnectionParams F) (r : Outcome (Unit {0}))
      → (world n).connect_fn p ≡ r
      → Sound lx sg world Last (connected_as p r)
  connected_as-Sound Last n p (ok done) e = ((n, e), λ s h. inr (p, h, refl))
  connected_as-Sound Last n p (err (Exn.db_capture_error m)) e = λ s h. tt
  connected_as-Sound Last n p (err raised) e = λ s h. tt

  status_from-Sound :
      (got : Outcome (ConnectionParams F))
      → OnOk (Accepted lx sg world) got
      → Sound lx sg world (Got got) (status_from got)
  status_from-Sound (ok p) h = λ s k. inr (p, get-ok s.session.params p k, refl)
  status_from-Sound (err e) h = λ s k. tt

  get_connection-Sound : (Last : Stores F → Type 0) → Sound lx sg world Last get_connection
  unfolding get_connection status_of
  get_connection-Sound Last =
      (status_from-Sound, λ s h. inl (is_connected-none s.session.params h, refl))

  listed-Sound :
      (n : ℕ) (p : ConnectionParams F) (r : Outcome (List ViewRef))
      → (world n).list_views_fn p ≡ r
      → Sound lx sg world (Got (ok p)) (listed r)
  listed-Sound n p (ok vs) e = λ s k. (p, n, vs, get-ok s.session.params p k, e, refl)
  listed-Sound n p (err (Exn.db_capture_error m)) e = λ s k. tt
  listed-Sound n p (err raised) e = λ s k. tt

  get_views-Sound :
      (Last : Stores F → Type 0) (n : ℕ) → Sound lx sg world Last (get_views (world n))
  unfolding get_views
  get_views-Sound Last n (ok p) h = listed-Sound n p _ refl
  get_views-Sound Last n (err (Exn.not_connected_error m)) h =
      λ s k. inl (get-err s.session.params _ k)
  get_views-Sound Last n (err raised) h = λ s k. tt

  report-Sound :
      (r : LastResult F) (narration : Outcome (Option Narration))
      → Sound lx sg world
          (λ s. s.last_result.result ≡ some r)
          (report r.plan_summary r.findings narration)
  report-Sound r (ok narration) = λ s k. (r, k, narration, refl)
  report-Sound r (err e) = λ s k. tt

  module _ (n : ℕ) (p : ConnectionParams F) (body : QueryRequest F) (xml : String)
      (accepted : Accepted lx sg world p) (got : (world n).capture_fn p body.query ≡ ok xml) where
    evaluated-Sound :
        (plan : IrPlan F)
        → parse_plan_xml lx (query_options (world n) p body) xml ≡ ok plan
        → (r : Outcome (List Finding)) → evaluate plan ≡ r
        → Sound lx sg world (Got (ok p)) (evaluated (world n) body (summarize_plan plan) r)
    evaluated-Sound plan is_plan (ok findings) e = (
      analysed,
      report-Sound (record { plan_summary = summarize_plan plan; findings = findings }) _,
    )
      where
        analysed :
            Analysed lx sg world
              (record { plan_summary = summarize_plan plan; findings = findings })
        analysed = record {
          time = n;
          params = p;
          body = body;
          xml = xml;
          plan = plan;
          accepted = accepted;
          captured = got;
          parsed = is_plan;
          evaluated = e;
          summarized = refl;
        }
    evaluated-Sound plan is_plan (err raised) e = λ s k. tt

    parsed-Sound :
        (r : Outcome (IrPlan F))
        → parse_plan_xml lx (query_options (world n) p body) xml ≡ r
        → Sound lx sg world (Got (ok p)) (parsed (world n) body r)
    parsed-Sound (ok plan) e = evaluated-Sound plan e (evaluate plan) refl
    parsed-Sound (err (Exn.value_error m)) e = λ s k. tt
    parsed-Sound (err raised) e = λ s k. tt

  captured-Sound :
      (n : ℕ) (p : ConnectionParams F) (body : QueryRequest F)
      → Accepted lx sg world p
      → (r : Outcome String) → (world n).capture_fn p body.query ≡ r
      → Sound lx sg world (Got (ok p)) (captured lx (world n) body p r)
  captured-Sound n p body h (ok xml) e = parsed-Sound n p body xml h e _ refl
  captured-Sound n p body h (err (Exn.query_validation_error m)) e = λ s k. tt
  captured-Sound n p body h (err (Exn.db_capture_error m)) e = λ s k. tt
  captured-Sound n p body h (err raised) e = λ s k. tt

  run_query-Sound :
      (Last : Stores F → Type 0) (n : ℕ) (body : QueryRequest F)
      → Sound lx sg world Last (run_query lx (world n) body)
  unfolding run_query
  run_query-Sound Last n body (ok p) h = captured-Sound n p body h _ refl
  run_query-Sound Last n body (err (Exn.not_connected_error m)) h =
      λ s k. inl (get-err s.session.params _ k)
  run_query-Sound Last n body (err raised) h = λ s k. tt

  proposed-Sound :
      (n : ℕ) (body : ProposeFixRequest F) (r : LastResult F) (proposal : Outcome FixProposal)
      → propose_fixes sg r.findings r.plan_summary body.model
          ((world n).generate_fn body.ollama_timeout_s)
        ≡ proposal
      → Sound lx sg world (GotResult (ok r)) (proposed sg proposal)
  proposed-Sound n body r (ok proposal) e =
      λ s k. (r, result-ok s.last_result.result r k, n, body, proposal, e, refl)
  proposed-Sound n body r (err raised) e = λ s k. tt

  propose_fix-Sound :
      (Last : Stores F → Type 0) (n : ℕ) (body : ProposeFixRequest F)
      → Sound lx sg world Last (propose_fix sg (world n) body)
  unfolding propose_fix
  propose_fix-Sound Last n body (ok r) h = proposed-Sound n body r _ refl
  propose_fix-Sound Last n body (err (Exn.no_result_available_error m)) h =
      λ s k. inr (result-err s.last_result.result _ k)
  propose_fix-Sound Last n body (err raised) h = λ s k. tt

  pub handle-Sound :
      (Last : Stores F → Type 0) (n : ℕ) (request : Request F)
      → Sound lx sg world Last (handle lx sg (world n) request)
  unfolding create_connection delete_connection
  handle-Sound Last n (post_connection body) = connected_as-Sound Last n (params_of body) _ refl
  handle-Sound Last n read_connection = get_connection-Sound Last
  handle-Sound Last n end_connection = λ s k. k
  handle-Sound Last n read_views = get_views-Sound Last n
  handle-Sound Last n (post_query body) = run_query-Sound Last n body
  handle-Sound Last n (post_propose_fix body) = propose_fix-Sound Last n body
