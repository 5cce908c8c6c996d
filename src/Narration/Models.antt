-- ===== src/Narration/Models.antt =====
-- narration/models.py
use query_smith.Prelude.{ℕ, String, Bool, List, Option}
use query_smith.Prelude.Int.{ℤ}
use query_smith.Prelude.Outcome.{Outcome}
use query_smith.Json.{Json}
use query_smith.Ir.{Severity}

-- `GenerateFn`: a prompt and a model's name in; a decoded JSON value, or an exception, out.
abbrev pub GenerateFn : Type 0
GenerateFn = String → String → Outcome Json

pub record OperatorHighlight (F : Type 0) : Type 0 where
  pub id : String
  pub operator_type : String
  pub physical_op_raw : String
  pub object_ref : Option String
  pub access_type : Option String
  pub estimated_rows : Option F
  pub actual_rows : Option F
  pub row_estimate_ratio : Option F
  pub estimated_cost_pct_of_total : Option F
  pub actual_duration_ms : Option F
  pub tempdb_spill : Bool
  pub parallel : Bool

pub record PlanSummary (F : Type 0) : Type 0 where
  pub engine : String
  pub engine_version : Option String
  pub database_name : Option String
  pub object_type : String
  pub object_name : Option String
  pub plan_source : String
  pub statement_type : String
  pub statement_text : String
  pub total_estimated_cost : Option F
  pub total_actual_duration_ms : Option F
  pub total_actual_rows : Option ℤ
  pub operator_count : ℕ
  pub notable_operators : List (OperatorHighlight F)

-- where a text comes from: "model" or "fallback"
pub data TextSource : Type 0 where
  model fallback : TextSource

pub record FindingNarration : Type 0 where
  pub rule_id : String
  pub severity : Severity
  pub operator_id : Option String
  pub summary : String
  pub detail : String
  pub explanation : String
  pub explanation_source : TextSource
  pub suggested_fix : Option String

pub record Narration : Type 0 where
  pub overview : String
  pub overview_source : TextSource
  pub findings : List FindingNarration
  pub degraded : Bool
  pub degraded_reason : Option String
  pub model_name : String

pub record FindingFix : Type 0 where
  pub finding_index : ℕ
  pub rewritten_query : Option String
  pub index_script : Option String

pub record FixProposal : Type 0 where
  pub fixes : List FindingFix
  pub degraded : Bool
  pub degraded_reason : Option String
  pub model_name : String
