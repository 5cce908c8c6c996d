-- ===== src/Web/Tests.antt =====
-- The web application at concrete requests.
use query_smith.Argparse.{text, whole, switch, namespace}
use query_smith.Web.Server
use query_smith.Prelude.{
  List, false, ℕ, String, [], ◌∷◌, Option, none, some, get_elem?, ◌≡◌, refl, ap,
}
use query_smith.Prelude.Int.{pos}
use query_smith.Prelude.Outcome.{err, ok, os_error}
use query_smith.Float.Sample.{Cents, cents_float}
use query_smith.Json.{Fields}
use query_smith.Rules.Finding.{Finding}
use query_smith.Narration.Models.{Narration}
use query_smith.Narration.Prompt.{build_prompt}
use query_smith.Narration.PlanSummary.{summarize_plan}
use query_smith.Narration.Response.{read_response}
use query_smith.Narration.Engine.{assemble, get_narration}
use query_smith.Narration.Engine.Degraded.{IsOffline}
use query_smith.Narration.Sample.{two_findings, summary, answer, telling}
use query_smith.Db.Sample.{params, sqlglot, driver}
use query_smith.Narration.OllamaClient.{generate_json}
use query_smith.Text.Repr.{repr_text}
use query_smith.Web.Schemas.{FindingItem}
use query_smith.Web.Session.{show_params}
use query_smith.Web.Handler.{
  Stores, no_stores, Handler, Reply, reply, internal_error, no_content, query_report, exec,
}
use query_smith.Web.Replies.{to_query_response}
use query_smith.Web.App.{
  post_query, Request, read_connection, end_connection, post_propose_fix, narrated, post_connection,
  create_connection, get_connection, run_query, handle,
}
use query_smith.Web.System.{System, Reach, next, arrive}
use query_smith.Web.Invariant.Reached.{SystemIsSound, Reach-IsSound}
use query_smith.Web.Laws.{stored, exec-run_query}
use query_smith.Web.Connecting.{create_connection_hides}
use query_smith.Web.Disconnected.{serve_all, Denied, serve_all-Denied}
use query_smith.Prelude.Pairs.{Pairs}
use query_smith.Web.Races.{status_reply, report_reply, get_connection_race, run_query_race}
use query_smith.Web.Explained.{Explains, to_query_response-Explains}
use query_smith.Web.Production.{production}
use query_smith.Web.Production.Laws.{run_query-Offline}
use query_smith.Web.Production.Success.{Success, run_query-Success}
use query_smith.Web.Sample.{
  reader, services, world, connection, query, narrated_query, fix_request, sample_plan,
  sample_findings, services-Found, silent, production-Found, connected, reported,
}

abbrev raced : System Cents
raced = record {
  stores = stored reader services query no_stores sample_plan sample_findings;
  handlers =
      Handler.answer (reply no_content)
      ∷ report_reply sample_plan sample_findings none
      ∷ status_reply params
      ∷ [];
}

run_query_race_example : Reach reader sqlglot world raced
unfolding narrated
run_query_race_example =
    run_query_race reader sqlglot world 0 connection refl query sample_plan sample_findings none
      services-Found refl

get_connection_race_example : Reach reader sqlglot world (record {
  stores = no_stores;
  handlers =
      Handler.answer (reply no_content) ∷ Handler.answer internal_error ∷ status_reply params ∷ [];
})
get_connection_race_example = get_connection_race reader sqlglot world 0 connection refl

raced_Reach : Reach reader sqlglot world raced
unfolding narrated
raced_Reach =
    run_query_race reader sqlglot world 0 connection refl query sample_plan sample_findings none
      services-Found refl

-- the same, with a GET of the connection and then a connect
abbrev asked : System Cents
asked = record raced { handlers = handle reader sqlglot services read_connection ∷ raced.handlers }

asked_Reach : Reach reader sqlglot world asked
asked_Reach = next raced_Reach (arrive 0 read_connection)

Reach-IsSound_example : SystemIsSound reader sqlglot world asked
Reach-IsSound_example = Reach-IsSound reader sqlglot world asked_Reach

abbrev connecting : Handler Cents
connecting = handle reader sqlglot services (post_connection connection)

abbrev created : String → Stores Cents × Reply Cents
created password =
    exec (create_connection services (record connection { password = password })) reported

show_params_test :
    show_params params
    ≡ "ConnectionParams(server='localhost', database='Sales', user='u', driver='ODBC Driver 18 for SQL Server')"
unfolding show_params repr_text
show_params_test = refl

create_connection_hides_example :
    ((created "p}w").1 ≡ (created "q").1)
    × ((exec get_connection (created "p}w").0).1 ≡ (exec get_connection (created "q").0).1)
    × (show_params params ≡ show_params (record params { password = "q" }))
create_connection_hides_example = create_connection_hides services reported connection "q" refl

-- a query and a fix behind a DELETE
abbrev late : List (Request Cents)
late = post_query query ∷ post_propose_fix fix_request ∷ []

serve_all-Denied_example :
    let served = serve_all reader sqlglot world 0 (end_connection ∷ late) reported in
    (served.0 ≡ no_stores) × Pairs (λ _. Denied) 0 (end_connection ∷ late) served.1
serve_all-Denied_example = serve_all-Denied reader sqlglot world 0 late reported (tt, (tt, tt))

abbrev narration : Narration
narration = assemble two_findings summary "m" (some answer, none)

narration_runs : get_narration two_findings summary "m" telling ≡ ok narration
unfolding get_narration
narration_runs = refl

to_query_response-Explains_example :
    (raw : Option Fields) × (reason : Option String) × (read_response
        (telling (build_prompt summary two_findings) "m")
      ≡ ok (raw, reason))
    × ((i : ℕ) (f : Finding)
        → get_elem? two_findings i ≡ some f
        → (item : FindingItem) × (get_elem?
              (to_query_response summary two_findings (some narration)).findings
              i
            ≡ some item)
          × Explains raw 2 i f item)
to_query_response-Explains_example =
    to_query_response-Explains two_findings summary "m" telling narration narration_runs

run_query-Success_example :
    Success driver reader sqlglot silent 0 query connected
      ((exec (run_query reader (production driver sqlglot silent 0) query) connected).0)
      (to_query_response (summarize_plan sample_plan) sample_findings none)
unfolding narrated production
run_query-Success_example =
    run_query-Success driver reader sqlglot silent 0 query connected
      (to_query_response (summarize_plan sample_plan) sample_findings none)
      (ap (λ (r : Stores Cents × Reply Cents). r.1)
        (exec-run_query reader (production driver sqlglot silent 0) query connected params
          sample_plan sample_findings (ok none) refl production-Found refl))

run_query-Offline_example :
    (narration : Narration) × IsOffline sample_findings
      (summarize_plan sample_plan)
      "m"
      "Ollama request failed: refused"
      narration
    × ((exec (run_query reader (production driver sqlglot silent 0) narrated_query) connected).1
        ≡ reply (
            query_report
              (to_query_response (summarize_plan sample_plan) sample_findings (some narration))))
unfolding generate_json
run_query-Offline_example =
    run_query-Offline driver reader sqlglot silent 0 narrated_query connected params sample_plan
      sample_findings _ refl production-Found refl refl

-- The server listens where the parser says.
server_test :
    Server.main {F = Cents}
      (λ launch. err (os_error launch.host))
      (λ parser argv.
        namespace
          (("host", text "127.0.0.1") ∷ ("port", whole (pos 8420)) ∷ ("reload", switch false) ∷ []))
      []
    ≡ Server.returned (err (os_error "127.0.0.1"))
unfolding Server.main
server_test = refl
