-- ===== src/Ir/Names.antt =====
-- The `value` of each enumeration of ir/models.py.
use query_smith.Prelude.{String}
use query_smith.Ir.{
  Engine, PlanSource, ObjectType, StatementType, OperatorType, AccessType, WarningType, Severity,
}

abbrev pub engine_value : Engine → String
engine_value Engine.sqlserver = "sqlserver"
engine_value Engine.postgresql = "postgresql"
engine_value Engine.mysql = "mysql"
engine_value Engine.sqlite = "sqlite"

abbrev pub plan_source_value : PlanSource → String
plan_source_value PlanSource.estimated = "estimated"
plan_source_value PlanSource.actual = "actual"

abbrev pub object_type_value : ObjectType → String
object_type_value ObjectType.adhoc_query = "adhoc_query"
object_type_value ObjectType.stored_procedure = "stored_procedure"
object_type_value ObjectType.function = "function"
object_type_value ObjectType.trigger = "trigger"
object_type_value ObjectType.view = "view"

abbrev pub statement_type_value : StatementType → String
statement_type_value StatementType.select = "SELECT"
statement_type_value StatementType.insert = "INSERT"
statement_type_value StatementType.update = "UPDATE"
statement_type_value StatementType.delete = "DELETE"
statement_type_value StatementType.merge = "MERGE"
statement_type_value StatementType.other = "OTHER"

abbrev pub operator_type_value : OperatorType → String
operator_type_value OperatorType.table_scan = "table_scan"
operator_type_value OperatorType.index_seek = "index_seek"
operator_type_value OperatorType.index_scan = "index_scan"
operator_type_value OperatorType.bookmark_lookup = "bookmark_lookup"
operator_type_value OperatorType.join_nested_loop = "join_nested_loop"
operator_type_value OperatorType.join_hash = "join_hash"
operator_type_value OperatorType.join_merge = "join_merge"
operator_type_value OperatorType.sort = "sort"
operator_type_value OperatorType.aggregate = "aggregate"
operator_type_value OperatorType.other = "other"

abbrev pub access_type_value : AccessType → String
access_type_value AccessType.seek = "seek"
access_type_value AccessType.scan = "scan"
access_type_value AccessType.bookmark_lookup = "bookmark_lookup"
access_type_value AccessType.full_scan = "full_scan"

abbrev pub warning_type_value : WarningType → String
warning_type_value WarningType.implicit_conversion = "implicit_conversion"
warning_type_value WarningType.tempdb_spill = "tempdb_spill"
warning_type_value WarningType.no_join_predicate = "no_join_predicate"
warning_type_value WarningType.column_with_no_stats = "column_with_no_stats"
warning_type_value WarningType.memory_grant_excessive = "memory_grant_excessive"
warning_type_value WarningType.cardinality_skew = "cardinality_skew"
warning_type_value WarningType.other = "other"

abbrev pub severity_value : Severity → String
severity_value Severity.info = "info"
severity_value Severity.warning = "warning"
severity_value Severity.critical = "critical"
