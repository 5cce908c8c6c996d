-- ===== src/Ir.antt =====
-- ir/models.py: the engine-neutral plan. `F` is the type of Python's floats (see Float).
pub mod Names
pub mod Sample
use query_smith.Prelude.{ℕ, String, Bool, List, [], ◌∷◌, Option}
use query_smith.Prelude.Int.{ℤ}

pub data Engine : Type 0 where
  sqlserver postgresql mysql sqlite : Engine

pub data PlanSource : Type 0 where
  estimated actual : PlanSource

pub data ObjectType : Type 0 where
  adhoc_query stored_procedure function trigger view : ObjectType

pub data StatementType : Type 0 where
  select insert update delete merge other : StatementType

pub data OperatorType : Type 0 where
  table_scan index_seek index_scan bookmark_lookup join_nested_loop join_hash join_merge sort
        aggregate other :
      OperatorType

pub data JoinType : Type 0 where
  nested_loop hash merge : JoinType

pub data AccessType : Type 0 where
  seek scan bookmark_lookup full_scan : AccessType

pub data WarningType : Type 0 where
  implicit_conversion tempdb_spill no_join_predicate column_with_no_stats memory_grant_excessive
        cardinality_skew other :
      WarningType

pub data Severity : Type 0 where
  info warning critical : Severity

pub record ObjectRef : Type 0 where
  pub schema : Option String
  pub table : Option String
  pub index : Option String

-- A `datetime` is a count of microseconds; nothing reads it.
pub record PlanMeta : Type 0 where
  pub engine : Engine
  pub engine_version : Option String
  pub plan_source : PlanSource
  pub captured_at : Option ℕ
  pub object_type : ObjectType
  pub object_name : Option String
  pub database_name : Option String

pub record Statement (F : Type 0) : Type 0 where
  pub text : String
  pub statement_type : StatementType
  pub total_estimated_cost : Option F
  pub total_actual_duration_ms : Option F
  pub total_actual_rows : Option ℤ

-- The fields of `Operator` but for `children`.
pub record OperatorInfo (F : Type 0) : Type 0 where
  pub id : String
  pub operator_type : OperatorType
  pub physical_op_raw : String
  pub object_ref : Option ObjectRef
  pub estimated_rows : Option F
  pub actual_rows : Option F
  pub row_estimate_ratio : Option F
  pub estimated_cost : Option F
  pub estimated_cost_pct_of_total : Option F
  pub actual_duration_ms : Option F
  pub predicates : List String
  pub join_type : Option JoinType
  pub access_type : Option AccessType
  pub sort_present : Bool
  pub parallel : Bool
  pub memory_grant_kb : Option ℤ
  pub tempdb_spill : Bool

mutual
  pub data Operator (F : Type 0) : Type 0 where
    node : OperatorInfo F → Operators F → Operator F

  pub data Operators (F : Type 0) : Type 0 where
    nil : Operators F
    cons : Operator F → Operators F → Operators F

abbrev pub operator_info : {F : Type 0} → Operator F → OperatorInfo F
operator_info (node i children) = i

abbrev pub operators : {F : Type 0} → List (Operator F) → Operators F
operators [] = nil
operators (op ∷ ops) = cons op (operators ops)

pub record Warning : Type 0 where
  pub type : WarningType
  pub detail : String
  pub operator_id : Option String
  pub severity : Option Severity

pub record MissingIndex (F : Type 0) : Type 0 where
  pub table : String
  pub columns_equality : List String
  pub columns_inequality : List String
  pub columns_include : List String
  pub estimated_impact : Option F

pub record IrPlan (F : Type 0) : Type 0 where
  pub meta : PlanMeta
  pub statement : Statement F
  pub root_operator : Operator F
  pub warnings : List Warning
  pub missing_indexes : List (MissingIndex F)
