-- ===== src/Adapter/OperatorMap.antt =====
-- adapters/sqlserver/operator_map.py, and the mappings of plan_xml_to_ir.py that read it.
pub mod Laws
use query_smith.Prelude.{
  String, Bool, true, false, ◌&&◌, List, [], ◌∷◌, Option, none, some, str_eq, if◌then◌else◌,
}
use query_smith.Text.{contains, member}
use query_smith.Ir.{OperatorType, JoinType, AccessType, WarningType, StatementType}
use query_smith.Adapter.Xml.{lookup, value_or}

abbrev pub physical_op_map : List (String × OperatorType)
physical_op_map =
    ("Table Scan", OperatorType.table_scan)
    ∷ ("Index Seek", OperatorType.index_seek)
    ∷ ("Clustered Index Seek", OperatorType.index_seek)
    ∷ ("Index Scan", OperatorType.index_scan)
    ∷ ("Clustered Index Scan", OperatorType.index_scan)
    ∷ ("Nested Loops", OperatorType.join_nested_loop)
    ∷ ("Merge Join", OperatorType.join_merge)
    ∷ ("Sort", OperatorType.sort)
    ∷ ("Stream Aggregate", OperatorType.aggregate)
    ∷ []

abbrev pub lookup_capable_physical_ops : List String
lookup_capable_physical_ops = "Clustered Index Seek" ∷ "Index Seek" ∷ "RID Lookup" ∷ []

abbrev pub hash_match_logical_op_map : List (String × OperatorType)
hash_match_logical_op_map =
    ("Inner Join", OperatorType.join_hash)
    ∷ ("Left Outer Join", OperatorType.join_hash)
    ∷ ("Right Outer Join", OperatorType.join_hash)
    ∷ ("Full Outer Join", OperatorType.join_hash)
    ∷ ("Left Semi Join", OperatorType.join_hash)
    ∷ ("Left Anti Semi Join", OperatorType.join_hash)
    ∷ ("Aggregate", OperatorType.aggregate)
    ∷ ("Partial Aggregate", OperatorType.aggregate)
    ∷ ("Distinct", OperatorType.aggregate)
    ∷ []

abbrev pub hash_join_logical_ops : List String
hash_join_logical_ops =
    "Inner Join" ∷ "Left Outer Join" ∷ "Right Outer Join" ∷ "Full Outer Join" ∷ "Left Semi Join"
    ∷ "Left Anti Semi Join" ∷ []

abbrev pub warning_tag_map : List (String × WarningType)
warning_tag_map =
    ("SpillToTempDb", WarningType.tempdb_spill)
    ∷ ("NoJoinPredicate", WarningType.no_join_predicate)
    ∷ ("ColumnsWithNoStatistics", WarningType.column_with_no_stats)
    ∷ ("PlanAffectingConvert", WarningType.implicit_conversion)
    ∷ ("MemoryGrantWarning", WarningType.memory_grant_excessive)
    ∷ []

unfoldable pub map_operator_type : String → String → Bool → OperatorType
unfolding member
map_operator_type physical_op logical_op is_lookup =
    if is_lookup && member physical_op lookup_capable_physical_ops
    then OperatorType.bookmark_lookup
    else if str_eq physical_op "Hash Match"
    then value_or OperatorType.other (lookup logical_op hash_match_logical_op_map)
    else value_or OperatorType.other (lookup physical_op physical_op_map)

unfoldable pub map_access_type : String → Bool → Option AccessType
unfolding contains
map_access_type physical_op is_lookup =
    if is_lookup
    then some AccessType.bookmark_lookup
    else if contains "Seek" physical_op
    then some AccessType.seek
    else if str_eq physical_op "Table Scan"
    then some AccessType.full_scan
    else if contains "Scan" physical_op
    then some AccessType.scan
    else none

unfoldable pub map_join_type : String → String → Option JoinType
unfolding member
map_join_type physical_op logical_op =
    if str_eq physical_op "Nested Loops"
    then some JoinType.nested_loop
    else if str_eq physical_op "Merge Join"
    then some JoinType.merge
    else if str_eq physical_op "Hash Match" && member logical_op hash_join_logical_ops
    then some JoinType.hash
    else none

-- `StatementType(raw)`, which raises `ValueError` for any other value
abbrev pub statement_types : List (String × StatementType)
statement_types =
    ("SELECT", StatementType.select)
    ∷ ("INSERT", StatementType.insert)
    ∷ ("UPDATE", StatementType.update)
    ∷ ("DELETE", StatementType.delete)
    ∷ ("MERGE", StatementType.merge)
    ∷ ("OTHER", StatementType.other)
    ∷ []

unfoldable pub map_statement_type : String → StatementType
map_statement_type raw = value_or StatementType.other (lookup raw statement_types)
