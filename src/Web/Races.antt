-- ===== src/Web/Races.antt =====
-- Orders of steps in which a DELETE comes between two calls of another handler.
use query_smith.Prelude.{ℕ, List, [], ◌∷◌, Option, ◌≡◌, refl}
use query_smith.Prelude.Outcome.{ok}
use query_smith.Float.{Float}
use query_smith.Ir.{IrPlan}
use query_smith.Rules.Finding.{Finding}
use query_smith.Narration.PlanSummary.{summarize_plan}
use query_smith.Db.Connection.{ConnectionParams}
use query_smith.Db.QuerySafety.{Sqlglot}
use query_smith.Adapter.Xml.{Lxml}
use query_smith.Web.Schemas.{ConnectionRequest, QueryRequest}
use query_smith.Web.Session
use query_smith.Web.Handler.{
  Stores, no_stores, Handler, reply, answer, internal_error, connection_status, no_content,
  query_report, set_result, exec,
}
use query_smith.Web.Replies.{params_of, status_of, to_query_response}
use query_smith.Web.App.{
  Services, post_connection, read_connection, end_connection, post_query, create_connection,
  get_connection, delete_connection, narrated, captured, run_query,
}
use query_smith.Web.System.{here, there, arrive, advance, Reach, start, next}
use query_smith.Narration.Models.{Narration}
use query_smith.Web.Laws.{Found, stored}
use query_smith.Web.Schedules.{Reach-serve}

module _ {F : Type 0} where
  abbrev pub status_reply : ConnectionParams F → Handler F
  status_reply p = answer (reply (connection_status (status_of p)))

module _ {F : Type 0} ⦃fl : Float F⦄ where
  abbrev pub report_reply : IrPlan F → List Finding → Option Narration → Handler F
  report_reply plan findings narration =
      answer (reply (query_report (to_query_response (summarize_plan plan) findings narration)))

module _ (lx : Lxml) (sg : Sqlglot) {F : Type 0} ⦃fl : Float F⦄ (world : ℕ → Services F) (n : ℕ)
    (body : ConnectionRequest F) (accepted : (world n).connect_fn (params_of body) ≡ ok tt) where
  abbrev with_params : Stores F
  with_params = record no_stores { session = Session.set (params_of body) Session.new }

  connected_exec :
      (s : Stores F)
      → exec (create_connection (world n) body) s ≡ (
        record s { session = Session.set (params_of body) s.session },
        reply (connection_status (status_of (params_of body))),
      )
  unfolding create_connection
  connected_exec s = rw accepted refl

  Reach-connected :
      Reach lx sg world
        (record { stores = with_params; handlers = status_reply (params_of body) ∷ [] })
  Reach-connected =
      rw (connected_exec no_stores) at (Reach-serve lx sg world start n (post_connection body))

  -- If a connection can succeed, the application reaches a state in which it has replied to a
  -- connect, to a GET of the connection, and to a DELETE, and the reply to the GET is an internal
  -- error.
  pub get_connection_race : Reach lx sg world (record {
    stores = no_stores;
    handlers =
        answer (reply no_content) ∷ answer internal_error ∷ status_reply (params_of body) ∷ [];
  })
  unfolding get_connection delete_connection
  get_connection_race =
      next
        (Reach-serve lx sg world
          (next (next Reach-connected (arrive n read_connection)) (advance here)) n end_connection)
        (advance (there here))

  module _ (query : QueryRequest F) (plan : IrPlan F) (findings : List Finding)
      (narration : Option Narration)
      (found : Found lx (world n) query (params_of body) plan findings)
      (explained : narrated (world n) query findings (summarize_plan plan) ≡ ok narration) where
    captured_lem :
        captured lx
          (world n)
          query
          (params_of body)
          ((world n).capture_fn (params_of body) query.query)
        ≡ set_result
            (record { plan_summary = summarize_plan plan; findings = findings })
            (report_reply plan findings narration)
    captured_lem = rw (found.is_captured, found.is_parsed, found.is_evaluated, explained) refl

    -- If a connection can succeed and a query on it can be explained, the application reaches a
    -- state in which it has replied to a connect, to a query and to a DELETE, the session is
    -- empty, and the query's result is still stored.
    pub run_query_race : Reach lx sg world (record {
      stores = stored lx (world n) query no_stores plan findings;
      handlers =
          answer (reply no_content)
          ∷ report_reply plan findings narration
          ∷ status_reply (params_of body)
          ∷ [];
    })
    unfolding run_query delete_connection
    run_query_race =
        next
          (Reach-serve lx sg world
            (rw captured_lem at
              (next (next Reach-connected (arrive n (post_query query))) (advance here)))
            n end_connection)
          (advance (there here))
