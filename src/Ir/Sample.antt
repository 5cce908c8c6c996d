-- ===== src/Ir/Sample.antt =====
-- A plan for the tests: a hash join over a large table scan and a key lookup.
use query_smith.Prelude.{String, true, false, [], ◌∷◌, none, some}
use query_smith.Float.Sample.{Cents, cents}
use query_smith.Ir.{
  Engine, PlanSource, ObjectType, StatementType, OperatorType, JoinType, AccessType, WarningType,
  OperatorInfo, Operator, node, nil, cons, IrPlan,
}

abbrev pub plain : {F : Type 0} → String → OperatorType → OperatorInfo F
plain id type = record {
  id = id;
  operator_type = type;
  physical_op_raw = "Op";
  object_ref = none;
  estimated_rows = none;
  actual_rows = none;
  row_estimate_ratio = none;
  estimated_cost = none;
  estimated_cost_pct_of_total = none;
  actual_duration_ms = none;
  predicates = [];
  join_type = none;
  access_type = none;
  sort_present = false;
  parallel = false;
  memory_grant_kb = none;
  tempdb_spill = false;
}

abbrev pub join : OperatorInfo Cents
join = record (plain "0" OperatorType.join_hash) {
  join_type = some JoinType.hash;
  parallel = true;
  row_estimate_ratio = some (cents 2500);
  estimated_cost_pct_of_total = some (cents 100);
}

abbrev pub scan : OperatorInfo Cents
scan = record (plain "1" OperatorType.table_scan) {
  object_ref = some (record { schema = some "dbo"; table = some "Orders"; index = none });
  actual_rows = some (cents 12345600);
  access_type = some AccessType.full_scan;
  estimated_cost_pct_of_total = some (cents 60);
}

abbrev pub key_lookup : OperatorInfo Cents
key_lookup = record (plain "2" OperatorType.bookmark_lookup) {
  access_type = some AccessType.bookmark_lookup;
  estimated_cost_pct_of_total = some (cents 30);
}

abbrev pub root : Operator Cents
root = node join (cons (node scan nil) (cons (node key_lookup nil) nil))

abbrev pub plan : IrPlan Cents
plan = record {
  meta = record {
    engine = Engine.sqlserver;
    engine_version = none;
    plan_source = PlanSource.actual;
    captured_at = none;
    object_type = ObjectType.adhoc_query;
    object_name = none;
    database_name = some "Sales";
  };
  statement = record {
    text = "SELECT 1";
    statement_type = StatementType.select;
    total_estimated_cost = none;
    total_actual_duration_ms = none;
    total_actual_rows = none;
  };
  root_operator = root;
  warnings =
      record {
        type = WarningType.implicit_conversion;
        detail = "ConvertIssue=Cardinality Estimate";
        operator_id = some "1";
        severity = none;
      }
      ∷ [];
  missing_indexes =
      record {
        table = "Orders";
        columns_equality = "Status" ∷ [];
        columns_inequality = [];
        columns_include = "Total" ∷ [];
        estimated_impact = some (cents 9000);
      }
      ∷ [];
}
