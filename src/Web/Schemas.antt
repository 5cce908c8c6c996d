-- ===== src/Web/Schemas.antt =====
-- web/schemas.py: the bodies of requests and responses. Parsing a request is pydantic's, the defaults
-- of the fields that it leaves out included.
use query_smith.Prelude.{ℕ, String, Bool, List, Option}
use query_smith.Prelude.Int.{ℤ}

pub record ConnectionRequest (F : Type 0) : Type 0 where
  pub server : String
  pub database : String
  pub user : String
  pub password : String
  pub driver : String
  pub trust_server_certificate : Bool
  pub timeout_s : F

pub record ConnectionStatusResponse : Type 0 where
  pub connected : Bool
  pub server : Option String
  pub database : Option String
  pub user : Option String
  pub driver : Option String
  pub trust_server_certificate : Option Bool

pub record ViewItem : Type 0 where
  pub schema_name : String
  pub view_name : String
  pub qualified_name : String
  pub select_body : Option String

pub record ViewsResponse : Type 0 where
  pub views : List ViewItem

pub record QueryRequest (F : Type 0) : Type 0 where
  pub query : String
  pub narrate : Bool
  pub redact : Bool
  pub model : String
  pub ollama_timeout_s : F

pub record FindingItem : Type 0 where
  pub rule_id : String
  pub severity : String
  pub operator_id : Option String
  pub summary : String
  pub detail : String
  pub suggested_fix : Option String
  pub explanation : Option String
  pub explanation_source : Option String
  pub model_suggested_fix : Option String

pub record PlanSummaryItem (F : Type 0) : Type 0 where
  pub engine : String
  pub engine_version : Option String
  pub database_name : Option String
  pub object_type : String
  pub statement_type : String
  pub statement_text : String
  pub total_estimated_cost : Option F
  pub total_actual_duration_ms : Option F
  pub total_actual_rows : Option ℤ
  pub operator_count : ℕ

pub record NarrationItem : Type 0 where
  pub overview : String
  pub overview_source : String
  pub degraded : Bool
  pub degraded_reason : Option String
  pub model_name : String

pub record QueryResponse (F : Type 0) : Type 0 where
  pub summary : PlanSummaryItem F
  pub findings : List FindingItem
  pub narration : Option NarrationItem

pub record ProposeFixRequest (F : Type 0) : Type 0 where
  pub model : String
  pub ollama_timeout_s : F

pub record FixItem : Type 0 where
  pub finding_index : ℕ
  pub rewritten_query : Option String
  pub index_script : Option String

pub record ProposeFixResponse : Type 0 where
  pub fixes : List FixItem
  pub degraded : Bool
  pub degraded_reason : Option String
  pub model_name : String
