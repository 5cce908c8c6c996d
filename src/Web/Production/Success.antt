-- ===== src/Web/Production/Success.antt =====
-- What it means that a query gets a report.
use query_smith.Prelude.{String, List, Option, some, ◌≡◌, refl, All, ℕ}
use query_smith.Prelude.Outcome.{ok}
use query_smith.Float.{Float}
use query_smith.Ir.{IrPlan}
use query_smith.Rules.Finding.{Finding}
use query_smith.Rules.Coverage.Sound.{IsDue, evaluate-IsDue}
use query_smith.Narration.Models.{Narration}
use query_smith.Narration.PlanSummary.{summarize_plan}
use query_smith.Narration.OllamaClient.{Http}
use query_smith.Db.QuerySafety.{Sqlglot}
use query_smith.Db.QuerySafety.Laws.{IsSingle}
use query_smith.Db.Connection.{ConnectionParams}
use query_smith.Db.Driver.{Driver, connect}
use query_smith.Db.Capture.{capture_plan_xml}
use query_smith.Db.Capture.Trace.{capture_plan_xml-IsSingle}
use query_smith.Adapter.Xml.{Lxml}
use query_smith.Adapter.Build.{parse_plan_xml}
use query_smith.Web.Schemas.{QueryRequest, QueryResponse}
use query_smith.Web.Handler.{Stores, Reply, reply, query_report, exec}
use query_smith.Web.Replies.{to_query_response}
use query_smith.Web.App.{query_options, narrated, run_query}
use query_smith.Web.Laws.{
  Ran, unconnected, refused, uncaptured, unparsed, failed, unexplained, reported, stored,
  run_query-Ran,
}
use query_smith.Web.Production.{production}

module _ (d : Driver) (lx : Lxml) (sg : Sqlglot) {F : Type 0} ⦃fl : Float F⦄ (http : F → Http)
    (now : ℕ) (body : QueryRequest F) (s : Stores F) where
  -- There was a connection, the query is a single SELECT, the text captured for it is a plan, the
  -- findings are called for by the plan, and the response and the stores show both.
  pub record Success (stores : Stores F) (response : QueryResponse F) : Type 0 where
    pub p : ConnectionParams F
    pub connected : s.session.params ≡ some p
    pub single : IsSingle sg sg.is_select body.query
    pub xml : String
    pub captured : (capture_plan_xml d sg (connect d) p body.query).1 ≡ ok xml
    pub plan : IrPlan F
    pub is_plan : parse_plan_xml lx (query_options (production d sg http now) p body) xml ≡ ok plan
    pub findings : List Finding
    pub due : All (IsDue plan) findings
    pub narration : Option Narration
    pub explained :
        narrated (production d sg http now) body findings (summarize_plan plan) ≡ ok narration
    pub shown : response ≡ to_query_response (summarize_plan plan) findings narration
    pub kept : stores ≡ stored lx (production d sg http now) body s plan findings

  -- If `run_query` replies with a report, then there is a connection, the query is a single SELECT,
  -- the text captured for the query is a plan, the report and the stored result show this plan's
  -- summary and findings that the plan calls for, and the connection is kept.
  pub run_query-Success :
      (response : QueryResponse F)
      → (exec (run_query lx (production d sg http now) body) s).1 ≡ reply (query_report response)
      → Success (exec (run_query lx (production d sg http now) body) s).0 response
  unfolding production
  run_query-Success response = at _ (run_query-Ran lx (production d sg http now) body s)
    where
      at :
          (x : Stores F × Reply F)
          → Ran lx (production d sg http now) body s x
          → x.1 ≡ reply (query_report response)
          → Success x.0 response
      at x (unconnected on) h = cc
      at x (refused p m on e) h = cc
      at x (uncaptured p m on e) h = cc
      at x (unparsed p m on u) h = cc
      at x (failed p e on u) h = cc
      at x (unexplained p plan fs e on f raised) h = cc
      at x (reported p plan fs narration on f n) h = record {
        p = p;
        connected = on;
        single = capture_plan_xml-IsSingle d sg (connect d) p body.query f.xml f.is_captured;
        xml = f.xml;
        captured = f.is_captured;
        plan = plan;
        is_plan = f.is_parsed;
        findings = fs;
        due = evaluate-IsDue plan fs f.is_evaluated;
        narration = narration;
        explained = n;
        shown = cc;
        kept = refl;
      }
