-- ===== src/Rules/Due.antt =====
-- Which findings a plan calls for, as a relation that does not mention the code of the rules.
use query_smith.Prelude.{String, ◌<>◌, true, false, Option, none, some, ◌≡◌, ◌⊎◌}
use query_smith.Prelude.Collect.{In}
use query_smith.Float.{Float}
use query_smith.Ir.{
  OperatorType, AccessType, WarningType, Severity, OperatorInfo, Operator, Operators, node, cons,
  operator_info, Warning, MissingIndex, IrPlan,
}
use query_smith.Ir.Names.{warning_type_value}

-- The operator is the tree's root or stands below it.
mutual
  pub data Within {F : Type 0} (op : OperatorInfo F) : Operator F → Type 0 where
    at_root :
        {info : OperatorInfo F} {below : Operators F} → info ≡ op → Within op (node info below)
    below :
        {info : OperatorInfo F} {below : Operators F}
        → WithinAny op below
        → Within op (node info below)

  pub data WithinAny {F : Type 0} (op : OperatorInfo F) : Operators F → Type 0 where
    in_first :
        {tree : Operator F} {trees : Operators F} → Within op tree → WithinAny op (cons tree trees)
    in_later :
        {tree : Operator F} {trees : Operators F}
        → WithinAny op trees
        → WithinAny op (cons tree trees)

abbrev pub Scans : {F : Type 0} → OperatorInfo F → Type 0
Scans op = (op.access_type ≡ some AccessType.scan) ⊎ (op.access_type ≡ some AccessType.full_scan)

-- The actual count if there is one, and the estimate otherwise.
abbrev pub HasRows : {F : Type 0} → OperatorInfo F → F → Type 0
HasRows op rows =
    (op.actual_rows ≡ some rows) ⊎ ((op.actual_rows ≡ none) × (op.estimated_rows ≡ some rows))

abbrev pub warning_rank : WarningType → Severity
warning_rank WarningType.implicit_conversion = Severity.warning
warning_rank WarningType.tempdb_spill = Severity.critical
warning_rank WarningType.no_join_predicate = Severity.critical
warning_rank WarningType.column_with_no_stats = Severity.warning
warning_rank WarningType.memory_grant_excessive = Severity.warning
warning_rank WarningType.cardinality_skew = Severity.warning
warning_rank WarningType.other = Severity.info

module _ {F : Type 0} ⦃fl : Float F⦄ where
  pub data HasImpact (impact : Option F) (s : Severity) : Type 0 where
    unknown : impact ≡ none → s ≡ Severity.info → HasImpact impact s
    high :
        (x : F)
        → impact ≡ some x
        → fl.le (fl.ratio 80 1) x ≡ true
        → s ≡ Severity.critical
        → HasImpact impact s
    medium :
        (x : F)
        → impact ≡ some x
        → fl.le (fl.ratio 80 1) x ≡ false
        → fl.le (fl.ratio 50 1) x ≡ true
        → s ≡ Severity.warning
        → HasImpact impact s
    low :
        (x : F)
        → impact ≡ some x
        → fl.le (fl.ratio 80 1) x ≡ false
        → fl.le (fl.ratio 50 1) x ≡ false
        → s ≡ Severity.info
        → HasImpact impact s

  pub data Due (plan : IrPlan F) (rule : String) (s : Severity) (id : Option String) : Type 0 where
    warned :
        (w : Warning)
        → In w plan.warnings
        → rule ≡ "adapter_warning." <> warning_type_value w.type
        → s ≡ warning_rank w.type
        → id ≡ w.operator_id
        → Due plan rule s id
    huge_scan :
        (op : OperatorInfo F) (rows : F)
        → Within op plan.root_operator
        → Scans op
        → HasRows op rows
        → fl.le (fl.ratio 100000 1) rows ≡ true
        → rule ≡ "large_table_scan"
        → s ≡ Severity.critical
        → id ≡ some op.id
        → Due plan rule s id
    large_scan :
        (op : OperatorInfo F) (rows : F)
        → Within op plan.root_operator
        → Scans op
        → HasRows op rows
        → fl.le (fl.ratio 100000 1) rows ≡ false
        → fl.le (fl.ratio 10000 1) rows ≡ true
        → rule ≡ "large_table_scan"
        → s ≡ Severity.warning
        → id ≡ some op.id
        → Due plan rule s id
    skewed :
        (op : OperatorInfo F) (ratio : F)
        → Within op plan.root_operator
        → op.row_estimate_ratio ≡ some ratio
        → (fl.le (fl.ratio 10 1) ratio ≡ true) ⊎ (fl.le ratio (fl.ratio 1 10) ≡ true)
        → rule ≡ "cardinality_skew"
        → s ≡ Severity.warning
        → id ≡ some op.id
        → Due plan rule s id
    looked_up :
        (op : OperatorInfo F)
        → Within op plan.root_operator
        → op.operator_type ≡ OperatorType.bookmark_lookup
        → rule ≡ "non_covering_key_lookup"
        → s ≡ Severity.warning
        → id ≡ some op.id
        → Due plan rule s id
    index_missing :
        (mi : MissingIndex F)
        → In mi plan.missing_indexes
        → HasImpact mi.estimated_impact s
        → rule ≡ "missing_index_available"
        → id ≡ none
        → Due plan rule s id
    ran_parallel :
        (operator_info plan.root_operator).parallel ≡ true
        → rule ≡ "parallelism_used"
        → s ≡ Severity.info
        → id ≡ some (operator_info plan.root_operator).id
        → Due plan rule s id
