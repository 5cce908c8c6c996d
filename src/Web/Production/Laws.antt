-- ===== src/Web/Production/Laws.antt =====
-- The handlers with the functions of the program itself.
use query_smith.Prelude.{All, ℕ, String, List, [], Option, none, some, true, ◌≡◌, ◌≢◌, refl}
use query_smith.Prelude.Outcome.{
  Exn, ok, err, parse_error, query_validation_error, ollama_client_error,
}
use query_smith.Float.{Float}
use query_smith.Ir.{IrPlan}
use query_smith.Rules.Finding.{Finding}
use query_smith.Narration.Models.{Narration, FixProposal}
use query_smith.Narration.Prompt.{build_prompt}
use query_smith.Narration.PlanSummary.{summarize_plan}
use query_smith.Narration.FixEngine.{propose_fixes}
use query_smith.Narration.FixEngine.Safe.{IsSafeFix}
use query_smith.Json.{Fields}
use query_smith.Narration.Prompt.{build_fix_prompt}
use query_smith.Narration.Response.{read_response}
use query_smith.Narration.FixEngine.Escapes.{Proposes}
use query_smith.Narration.OllamaClient.{Http, generate_json}
use query_smith.Narration.Engine.Degraded.{IsOffline, get_narration-IsOffline}
use query_smith.Db.QuerySafety.{Sqlglot, validate_select_only}
use query_smith.Db.Connection.{ConnectionParams}
use query_smith.Db.Driver.{Driver, connect}
use query_smith.Adapter.Xml.{Lxml}
use query_smith.Web.Schemas.{QueryRequest, ProposeFixRequest}
use query_smith.Web.LastResult.{LastResult, no_result}
use query_smith.Web.Handler.{
  Stores, Reply, reply, http_exception, internal_error, query_report, fix_proposal, exec,
}
use query_smith.Web.Replies.{to_query_response, to_propose_fix_response}
use query_smith.Web.App.{narrated, run_query}
use query_smith.Db.Capture.{capture_plan_xml}
use query_smith.Web.Laws.{Found, exec-run_query}
use query_smith.Web.Production.{production}

module _ (d : Driver) (lx : Lxml) (sg : Sqlglot) {F : Type 0} ⦃fl : Float F⦄ (http : F → Http)
    (now : ℕ) where
  -- The stored result got fixes, each of them safe; or the answer proposes a text on which sqlglot
  -- raises what no clause names; or there was no result.
  pub data Fixed (body : ProposeFixRequest F) (s : Stores F) : Reply F → Type 0 where
    nothing_to_fix : s.last_result.result ≡ none → Fixed body s (http_exception 409 no_result)
    fixed :
        (r : LastResult F) (proposal : FixProposal)
        → s.last_result.result ≡ some r
        → propose_fixes sg r.findings r.plan_summary body.model
            (generate_json (http body.ollama_timeout_s))
          ≡ ok proposal
        → All (IsSafeFix sg r.findings) proposal.fixes
        → Fixed body s (reply (fix_proposal (to_propose_fix_response proposal)))
    unreadable :
        (r : LastResult F) (raw : Option Fields) (reason : Option String) (text : String) (e : Exn)
        → s.last_result.result ≡ some r
        → read_response (
            generate_json
              (http body.ollama_timeout_s)
              (build_fix_prompt r.plan_summary r.findings)
              body.model)
          ≡ ok (raw, reason)
        → Proposes raw text
        → sg.parse text ≡ err e
        → ((m : String) → e ≢ parse_error m)
        → Fixed body s internal_error

  -- If there is a connection and the validation refuses the query, `run_query` replies with status
  -- 422 and the validation's message, the stores stay as they are, and no call reaches the
  -- server.
  pub run_query-Refuses :
      (body : QueryRequest F) (s : Stores F) (p : ConnectionParams F) (message : String)
      → s.session.params ≡ some p
      → validate_select_only sg body.query ≡ err (query_validation_error message)
      → (exec (run_query lx (production d sg http now) body) s ≡ (s, http_exception 422 message))
        × ((capture_plan_xml d sg (connect d) p body.query).0 ≡ [])
  unfolding run_query production capture_plan_xml
  run_query-Refuses body s p message connected refused =
      (rw (connected, refused) refl, rw refused refl)

  -- If the plan captured for a query is analysed and the model's server cannot be used,
  -- `run_query` still replies with the summary and the findings, each explained by Tier 0's own
  -- text, and the reply is marked as degraded with the client's message.
  pub run_query-Offline :
      (body : QueryRequest F) (s : Stores F) (p : ConnectionParams F) (plan : IrPlan F)
      (findings : List Finding) (message : String)
      → s.session.params ≡ some p
      → Found lx (production d sg http now) body p plan findings
      → body.narrate ≡ true
      → generate_json
          (http body.ollama_timeout_s)
          (build_prompt (summarize_plan plan) findings)
          body.model
        ≡ err (ollama_client_error message)
      → (narration : Narration) × IsOffline findings
          (summarize_plan plan)
          body.model
          message
          narration
        × ((exec (run_query lx (production d sg http now) body) s).1
            ≡ reply
                (query_report (to_query_response (summarize_plan plan) findings (some narration))))
  unfolding production narrated
  run_query-Offline body s p plan findings message connected found on failed =
      let (narration, explained, offline) =
        get_narration-IsOffline findings (summarize_plan plan) body.model
          (generate_json (http body.ollama_timeout_s)) message failed in
      let told =
        exec-run_query lx (production d sg http now) body s p plan findings (ok (some narration))
          connected found (rw (on, explained) refl) in
      (narration, offline, rw told refl)
