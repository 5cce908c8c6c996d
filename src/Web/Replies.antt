-- ===== src/Web/Replies.antt =====
-- web/app.py: the copies of the results into the schemas.
use query_smith.Prelude.{
  ℕ, String, true, false, List, map, map_enumerate, get_elem?, Option, none, some,
}
use query_smith.Ir.Names.{severity_value}
use query_smith.Rules.Finding.{Finding}
use query_smith.Narration.Models.{
  PlanSummary, TextSource, FindingNarration, Narration, FindingFix, FixProposal,
}
use query_smith.Db.Connection.{ConnectionParams}
use query_smith.Db.Catalog.{ViewRef, qualified_name}
use query_smith.Web.Schemas.{
  ConnectionRequest, ConnectionStatusResponse, ViewItem, FindingItem, PlanSummaryItem,
  NarrationItem, QueryResponse, FixItem, ProposeFixResponse,
}

abbrev pub source_value : TextSource → String
source_value TextSource.model = "model"
source_value TextSource.fallback = "fallback"

abbrev pub option_map {ℓ κ} : {A : Type ℓ} {B : Type κ} → (A → B) → Option A → Option B
option_map f none = none
option_map f (some a) = some (f a)

abbrev pub model_fix : Option FindingNarration → Option String
model_fix none = none
model_fix (some fn) = fn.suggested_fix

-- `narration_by_index.get(i)`
abbrev pub narration_at : Option Narration → ℕ → Option FindingNarration
narration_at none i = none
narration_at (some narration) i = get_elem? narration.findings i

abbrev pub finding_item : Option Narration → ℕ → Finding → FindingItem
finding_item narration i finding =
    let fn = narration_at narration i in
    record {
      rule_id = finding.rule_id;
      severity = severity_value finding.severity;
      operator_id = finding.operator_id;
      summary = finding.summary;
      detail = finding.detail;
      suggested_fix = finding.suggested_fix;
      explanation = option_map (λ (fn : FindingNarration). fn.explanation) fn;
      explanation_source =
          option_map (λ (fn : FindingNarration). source_value fn.explanation_source) fn;
      model_suggested_fix = model_fix fn;
    }

abbrev summary_item : {F : Type 0} → PlanSummary F → PlanSummaryItem F
summary_item summary = record {
  engine = summary.engine;
  engine_version = summary.engine_version;
  database_name = summary.database_name;
  object_type = summary.object_type;
  statement_type = summary.statement_type;
  statement_text = summary.statement_text;
  total_estimated_cost = summary.total_estimated_cost;
  total_actual_duration_ms = summary.total_actual_duration_ms;
  total_actual_rows = summary.total_actual_rows;
  operator_count = summary.operator_count;
}

abbrev narration_item : Narration → NarrationItem
narration_item narration = record {
  overview = narration.overview;
  overview_source = source_value narration.overview_source;
  degraded = narration.degraded;
  degraded_reason = narration.degraded_reason;
  model_name = narration.model_name;
}

-- `_to_query_response`
unfoldable pub to_query_response :
    {F : Type 0} → PlanSummary F → List Finding → Option Narration → QueryResponse F
to_query_response summary findings narration = record {
  summary = summary_item summary;
  findings = map_enumerate (finding_item narration) 0 findings;
  narration = option_map narration_item narration;
}

abbrev fix_item : FindingFix → FixItem
fix_item f = record {
  finding_index = f.finding_index;
  rewritten_query = f.rewritten_query;
  index_script = f.index_script;
}

-- `_to_propose_fix_response`
unfoldable pub to_propose_fix_response : FixProposal → ProposeFixResponse
to_propose_fix_response proposal = record {
  fixes = map fix_item proposal.fixes;
  degraded = proposal.degraded;
  degraded_reason = proposal.degraded_reason;
  model_name = proposal.model_name;
}

abbrev pub not_connected_status : ConnectionStatusResponse
not_connected_status = record {
  connected = false;
  server = none;
  database = none;
  user = none;
  driver = none;
  trust_server_certificate = none;
}

abbrev pub params_of : {F : Type 0} → ConnectionRequest F → ConnectionParams F
params_of body = record {
  server = body.server;
  database = body.database;
  user = body.user;
  password = body.password;
  driver = body.driver;
  trust_server_certificate = body.trust_server_certificate;
  timeout_s = body.timeout_s;
}

abbrev pub view_item : ViewRef → ViewItem
view_item v = record {
  schema_name = v.schema_name;
  view_name = v.view_name;
  qualified_name = qualified_name v;
  select_body = v.select_body;
}

module _ {F : Type 0} where
  unfoldable pub status_of : ConnectionParams F → ConnectionStatusResponse
  status_of p = record {
    connected = true;
    server = some p.server;
    database = some p.database;
    user = some p.user;
    driver = some p.driver;
    trust_server_certificate = some p.trust_server_certificate;
  }
