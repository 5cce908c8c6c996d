-- ===== src/Rules/Checks.antt =====
-- The six rules of rules/engine.py. Each loop over `_walk(root)` is a function of one operator,
-- mapped over the walk; the only call that can raise is `int(rows)` of the large-scan rule.
use query_smith.Prelude.{
  String, ◌<>◌, List, [], ◌∷◌, ◌++◌, map, Option, none, some, somes, if◌then◌else◌,
}
use query_smith.Prelude.Outcome.{Outcome, ok, ◌>>=◌, traverse}
use query_smith.Text.{truthy}
use query_smith.Text.Numerals.{show_grouped}
use query_smith.Text.Repr.{show_optional}
use query_smith.Float.{Float}
use query_smith.Ir.{
  AccessType, WarningType, Severity, ObjectRef, OperatorInfo, Operator, Operators, node, nil, cons,
  Warning, IrPlan,
}
use query_smith.Ir.Names.{operator_type_value, access_type_value, warning_type_value}
use query_smith.Rules.Finding.{Finding}

abbrev pub promoted_warning_severity : WarningType → Severity
promoted_warning_severity WarningType.tempdb_spill = Severity.critical
promoted_warning_severity WarningType.no_join_predicate = Severity.critical
promoted_warning_severity WarningType.other = Severity.info
promoted_warning_severity _ = Severity.warning

abbrev pub promoted_warning_summary : WarningType → String
promoted_warning_summary WarningType.tempdb_spill = "Operator spilled to tempdb"
promoted_warning_summary WarningType.no_join_predicate =
    "Join has no predicate (possible cartesian product)"
promoted_warning_summary WarningType.implicit_conversion =
    "Implicit type conversion may block index usage"
promoted_warning_summary WarningType.column_with_no_stats = "Column has no statistics"
promoted_warning_summary WarningType.memory_grant_excessive = "Memory grant may be excessive"
promoted_warning_summary WarningType.cardinality_skew = "Engine-reported cardinality estimate skew"
promoted_warning_summary WarningType.other = "Engine-reported plan warning"

-- `_walk`: an operator, then its children's walks, in order.
unfoldable mutual
  pub walk : {F : Type 0} → Operator F → List (OperatorInfo F)
  walk (node op children) = op ∷ walk_all children

  pub walk_all : {F : Type 0} → Operators F → List (OperatorInfo F)
  walk_all nil = []
  walk_all (cons child children) = walk child ++ walk_all children

abbrev pub promote_adapter_warning : Warning → Finding
promote_adapter_warning warning = record {
  rule_id = "adapter_warning." <> warning_type_value warning.type;
  severity = promoted_warning_severity warning.type;
  operator_id = warning.operator_id;
  summary = promoted_warning_summary warning.type;
  detail = warning.detail;
  suggested_fix = none;
}

unfoldable pub promote_adapter_warnings : {F : Type 0} → IrPlan F → List Finding
promote_adapter_warnings plan = map promote_adapter_warning plan.warnings

-- `op.object_ref.table if op.object_ref and op.object_ref.table else "unknown table"`
abbrev table_or_unknown : Option String → String
table_or_unknown none = "unknown table"
table_or_unknown (some table) = if truthy table then table else "unknown table"

abbrev pub table_name : Option ObjectRef → String
table_name none = "unknown table"
table_name (some ref) = table_or_unknown ref.table

-- `op.access_type in (AccessType.SCAN, AccessType.FULL_SCAN)`, with its text
abbrev pub scan_value : Option AccessType → Option String
scan_value (some AccessType.scan) = some (access_type_value AccessType.scan)
scan_value (some AccessType.full_scan) = some (access_type_value AccessType.full_scan)
scan_value _ = none

abbrev pub or_else {ℓ} : {A : Type ℓ} → Option A → Option A → Option A
or_else none b = b
or_else (some a) b = some a

module _ {F : Type 0} ⦃fl : Float F⦄ where
  abbrev pub large_scan_warning_rows : F
  large_scan_warning_rows = fl.ratio 10000 1

  abbrev pub large_scan_critical_rows : F
  large_scan_critical_rows = fl.ratio 100000 1

  abbrev pub skew_ratio_high : F
  skew_ratio_high = fl.ratio 10 1

  abbrev pub skew_ratio_low : F
  skew_ratio_low = fl.ratio 1 10

  abbrev pub missing_index_impact_critical : F
  missing_index_impact_critical = fl.ratio 80 1

  abbrev pub missing_index_impact_warning : F
  missing_index_impact_warning = fl.ratio 50 1

  -- The severity of a scan of so many rows, if it is worth a finding.
  pub scan_severity : F → Option Severity
  scan_severity rows =
      if fl.le large_scan_critical_rows rows
      then some Severity.critical
      else if fl.le large_scan_warning_rows rows
      then some Severity.warning
      else none

  large_scan_finding : OperatorInfo F → String → F → Option Severity → Outcome (Option Finding)
  large_scan_finding op access rows none = ok none
  large_scan_finding op access rows (some severity) = do
    count ← fl.to_int rows
    ok (
        some (record {
          rule_id = "large_table_scan";
          severity = severity;
          operator_id = some op.id;
          summary =
              operator_type_value op.operator_type
              <> " reads ~"
              <> show_grouped count
              <> " rows from "
              <> table_name op.object_ref;
          detail =
              "physical_op="
              <> op.physical_op_raw
              <> ", access_type="
              <> access
              <> ", rows="
              <> fl.show rows;
          suggested_fix = none;
        }))

  unfoldable pub scan_finding : OperatorInfo F → Option String → Option F → Outcome (Option Finding)
  unfolding large_scan_finding scan_severity
  scan_finding op none rows = ok none
  scan_finding op (some access) none = ok none
  scan_finding op (some access) (some rows) = large_scan_finding op access rows (scan_severity rows)

  -- one round of `_check_large_scans`
  unfoldable pub check_large_scan : OperatorInfo F → Outcome (Option Finding)
  unfolding scan_finding
  check_large_scan op =
      scan_finding op (scan_value op.access_type) (or_else op.actual_rows op.estimated_rows)

  unfoldable pub check_large_scans : Operator F → Outcome (List Finding)
  unfolding walk
  check_large_scans root = do ok (somes (← traverse check_large_scan (walk root)))

  -- the direction of a skewed estimate
  pub skew_direction : F → Option String
  skew_direction ratio =
      if fl.le skew_ratio_high ratio
      then some "under-estimated"
      else if fl.le ratio skew_ratio_low
      then some "over-estimated"
      else none

  unfoldable pub check_skew : OperatorInfo F → Option Finding
  unfolding skew_direction
  check_skew op = elim op.row_estimate_ratio [
    | none ↦ none
    | some ratio ↦ elim (skew_direction ratio) [
      | none ↦ none
      | some direction ↦ some (record {
        rule_id = "cardinality_skew";
        severity = Severity.warning;
        operator_id = some op.id;
        summary =
            "Optimizer "
            <> direction
            <> " row count at "
            <> operator_type_value op.operator_type
            <> " (ratio "
            <> fl.show_2g ratio
            <> ")";
        detail =
            "estimated_rows="
            <> show_optional fl.show op.estimated_rows
            <> ", actual_rows="
            <> show_optional fl.show op.actual_rows;
        suggested_fix = none;
      })
    ]
  ]

  unfoldable pub check_cardinality_skew : Operator F → List Finding
  unfolding walk
  check_cardinality_skew root = somes (map check_skew (walk root))
