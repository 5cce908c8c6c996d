-- ===== src/Rules/Engine.antt =====
-- The remaining rules of rules/engine.py, and `evaluate`.
use query_smith.Prelude.{
  String, ◌<>◌, List, [], ◌∷◌, ◌++◌, map, Option, none, some, somes, if◌then◌else◌,
}
use query_smith.Prelude.Outcome.{Outcome, ok, ◌>>=◌}
use query_smith.Prelude.Sorting.{sort_by}
use query_smith.Text.Repr.{repr_list}
use query_smith.Float.{Float}
use query_smith.Ir.{
  OperatorType, Severity, OperatorInfo, Operator, operator_info, MissingIndex, IrPlan,
}
use query_smith.Rules.Finding.{Finding, more_severe}
use query_smith.Rules.Script.{missing_index_script}
use query_smith.Rules.Checks.{
  walk, table_name, promote_adapter_warnings, check_large_scans, check_cardinality_skew,
  missing_index_impact_critical, missing_index_impact_warning,
}

lookup_finding : {F : Type 0} → OperatorInfo F → Finding
lookup_finding op = record {
  rule_id = "non_covering_key_lookup";
  severity = Severity.warning;
  operator_id = some op.id;
  summary = "Key lookup against " <> table_name op.object_ref <> " -- consider a covering index";
  detail = "physical_op=" <> op.physical_op_raw <> ", predicates=" <> repr_list op.predicates;
  suggested_fix = none;
}

-- one round of `_check_bookmark_lookups`
unfoldable pub check_lookup : {F : Type 0} → OperatorInfo F → Option Finding
unfolding lookup_finding
check_lookup op = elim op.operator_type [
  | OperatorType.bookmark_lookup ↦ some (lookup_finding op)
  | _ ↦ none
]

unfoldable pub check_bookmark_lookups : {F : Type 0} → Operator F → List Finding
unfolding walk
check_bookmark_lookups root = somes (map check_lookup (walk root))

module _ {F : Type 0} ⦃fl : Float F⦄ where
  unfoldable pub impact_severity : Option F → Severity
  impact_severity none = Severity.info
  impact_severity (some impact) =
      if fl.le missing_index_impact_critical impact
      then Severity.critical
      else if fl.le missing_index_impact_warning impact
      then Severity.warning
      else Severity.info

  abbrev impact_text : Option F → String
  impact_text none = "unknown"
  impact_text (some impact) = fl.show impact

  unfoldable pub check_missing_index : MissingIndex F → Finding
  unfolding impact_severity
  check_missing_index mi = record {
    rule_id = "missing_index_available";
    severity = impact_severity mi.estimated_impact;
    operator_id = none;
    summary =
        "Engine suggests an index on "
        <> mi.table
        <> " (impact "
        <> impact_text mi.estimated_impact
        <> ")";
    detail =
        "equality="
        <> repr_list mi.columns_equality
        <> ", inequality="
        <> repr_list mi.columns_inequality
        <> ", include="
        <> repr_list mi.columns_include;
    suggested_fix = some (missing_index_script mi);
  }

  unfoldable pub check_missing_indexes : IrPlan F → List Finding
  check_missing_indexes plan = map check_missing_index plan.missing_indexes

unfoldable pub check_parallelism : {F : Type 0} → Operator F → List Finding
check_parallelism root =
    if (operator_info root).parallel
    then record {
      rule_id = "parallelism_used";
      severity = Severity.info;
      operator_id = some (operator_info root).id;
      summary = "Plan executed with parallelism";
      detail =
          "Root operator ran in parallel; not inherently bad, but worth noting for small/OLTP workloads.";
      suggested_fix = none;
    }
      ∷ []
    else []

module _ {F : Type 0} ⦃fl : Float F⦄ where
  -- The findings in the order in which the rules run, before the sort.
  unfoldable pub collect : IrPlan F → Outcome (List Finding)
  collect plan = do
    scans ← check_large_scans plan.root_operator
    ok (
        promote_adapter_warnings plan
        ++ (scans
            ++ (check_cardinality_skew plan.root_operator
                ++ (check_bookmark_lookups plan.root_operator
                    ++ (check_missing_indexes plan ++ check_parallelism plan.root_operator)))))

  unfoldable pub evaluate : IrPlan F → Outcome (List Finding)
  unfolding collect
  evaluate plan = do ok (sort_by more_severe (← collect plan))
