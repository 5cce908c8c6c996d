-- ===== src/Web/Sample.antt =====
-- Services, requests and an analysed plan, for the tests.
use query_smith.Prelude.{ℕ, true, false, List, [], some, refl}
use query_smith.Prelude.Outcome.{ok, err, os_error}
use query_smith.Float.Sample.{Cents, cents, cents_float}
use query_smith.Ir.{IrPlan}
use query_smith.Ir.Sample
use query_smith.Rules.Finding.{Finding}
use query_smith.Rules.Checks
use query_smith.Rules.Engine
use query_smith.Rules.Engine.{evaluate}
use query_smith.Prelude.Sorting.{sort_by}
use query_smith.Text.Numerals.{show_ℕ, show_grouped}
use query_smith.Text.{strip}
use query_smith.Narration.PlanSummary.{summarize_plan}
use query_smith.Narration.Sample.{telling}
use query_smith.Narration.OllamaClient.{Http}
use query_smith.Narration.OllamaClient.Sample.{server}
use query_smith.Db.Sample.{params, sqlglot, driver, showplan}
use query_smith.Db.QuerySafety.{validate_select_only}
use query_smith.Db.Connection.{default_odbc_driver}
use query_smith.Db.Driver.{connect}
use query_smith.Db.Capture.{capture_plan_xml, find_showplan_xml, is_showplan, statement_of}
use query_smith.Adapter.Xml.{Lxml}
use query_smith.Adapter.Sample.{lxml, join, document}
use query_smith.Adapter.OperatorMap.{map_access_type}
use query_smith.Adapter.Extract.{direct_child_rel_ops, find_detail_wrapper, extract_warnings}
use query_smith.Adapter.Counters.{sum_actual_rows, max_actual_duration_ms}
use query_smith.Adapter.Build.{parse_plan_xml}
use query_smith.Web.Schemas.{ConnectionRequest, QueryRequest, ProposeFixRequest}
use query_smith.Web.Handler.{Stores, no_stores}
use query_smith.Web.Session
use query_smith.Web.App.{Services, query_options}
use query_smith.Web.Laws.{Found}
use query_smith.Web.Production.{production}

-- a parser that sees the sample's document in every text
abbrev pub reader : Lxml
reader = record lxml { fromstring = λ text. ok (document join) }

abbrev pub services : Services Cents
services = record {
  connect_fn = λ p. ok tt;
  list_views_fn = λ p. ok [];
  capture_fn = λ p query. ok "plan";
  generate_fn = λ timeout. telling;
  now = 0;
}

abbrev pub world : ℕ → Services Cents
world n = services

abbrev pub connection : ConnectionRequest Cents
connection = record {
  server = "localhost";
  database = "Sales";
  user = "u";
  password = "p}w";
  driver = default_odbc_driver;
  trust_server_certificate = false;
  timeout_s = cents 500;
}

abbrev pub query : QueryRequest Cents
query = record {
  query = "SELECT 1";
  narrate = false;
  redact = false;
  model = "m";
  ollama_timeout_s = cents 500;
}

abbrev pub narrated_query : QueryRequest Cents
narrated_query = record query { narrate = true }

abbrev pub fix_request : ProposeFixRequest Cents
fix_request = record { model = "m"; ollama_timeout_s = cents 500 }

abbrev pub sample_plan : IrPlan Cents
unfolding parse_plan_xml find_detail_wrapper sum_actual_rows max_actual_duration_ms extract_warnings
    direct_child_rel_ops show_ℕ
sample_plan = elim (parse_plan_xml reader (query_options services params query) "plan") [
  | ok p ↦ p
  | err e ↦ Sample.plan
]

abbrev pub sample_findings : List Finding
unfolding evaluate sample_plan Checks.check_large_scans Checks.check_large_scan sort_by
    Checks.promote_adapter_warnings Checks.check_cardinality_skew Checks.check_skew
    Engine.check_bookmark_lookups Engine.check_lookup Engine.check_missing_indexes
    Engine.check_parallelism Engine.check_missing_index show_grouped
sample_findings = elim (evaluate sample_plan) [ ok fs ↦ fs | err e ↦ [] ]

pub services-Found : Found reader services query params sample_plan sample_findings
unfolding sample_plan sample_findings map_access_type
services-Found = record { xml = "plan"; is_captured = refl; is_parsed = refl; is_evaluated = refl }

abbrev pub silent : Cents → Http
silent timeout = record {
  post = λ url body. err (os_error "refused");
  loads_body = server.loads_body;
  loads = server.loads;
}

pub production-Found :
    Found reader
      (production driver sqlglot silent 0)
      narrated_query
      params
      sample_plan
      sample_findings
unfolding sample_plan sample_findings map_access_type production capture_plan_xml
    validate_select_only strip connect find_showplan_xml is_showplan statement_of
production-Found = record {
  xml = showplan;
  is_captured = refl;
  is_parsed = refl;
  is_evaluated = refl;
}

abbrev pub connected : Stores Cents
connected = record no_stores { session = Session.set params Session.new }

abbrev pub reported : Stores Cents
reported = record connected {
  last_result = record {
    result =
        some (record { plan_summary = summarize_plan sample_plan; findings = sample_findings });
  };
}
