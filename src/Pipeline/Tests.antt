-- ===== src/Pipeline/Tests.antt =====
-- The document of Adapter/Sample, analysed.
use query_smith.Prelude.{List, Option, [], ◌∷◌, some, ◌≡◌, refl, inl, inr, All, Any}
use query_smith.Prelude.Outcome.{ok, err}
use query_smith.Prelude.Sorting.{sort_by}
use query_smith.Text.Numerals.{show_ℕ, show_grouped}
use query_smith.Float.Sample.{Cents, cents_float}
use query_smith.Ir.{WarningType, Severity}
use query_smith.Rules.Checks
use query_smith.Rules.Engine
use query_smith.Rules.Finding.{Finding}
use query_smith.Rules.Engine.{evaluate}
use query_smith.Rules.Coverage.Found.{Matches}
use query_smith.Adapter.Build.Shown.{rel_ops_inside}
use query_smith.Adapter.Build.Unique.{rel_ops_of}
use query_smith.Adapter.Sample.{
  indexed_plan, indexed_runs, around, missing, wanted, wanted_group, elem, lxml, options,
  numbered_join, scan, spills, spill,
}
use query_smith.Adapter.Extract.{direct_child_rel_ops, find_detail_wrapper, extract_warnings}
use query_smith.Adapter.Counters.{get_float, sum_actual_rows, max_actual_duration_ms}
use query_smith.Adapter.OperatorMap.{map_access_type}
use query_smith.Adapter.Build.{parse_plan_xml}
use query_smith.Ir.{IrPlan}
use query_smith.Ir.Sample.{plan}
use query_smith.Pipeline.Placed.{warns}
use query_smith.Pipeline.Named.{IsAbout, evaluate-IsAbout}
use query_smith.Pipeline.Asked.{Suggests, evaluate-Suggests}
use query_smith.Pipeline.Reported.{evaluate-parse_plan_xml}

abbrev parsed : IrPlan Cents
unfolding parse_plan_xml map_access_type find_detail_wrapper sum_actual_rows max_actual_duration_ms
    extract_warnings direct_child_rel_ops show_ℕ
parsed = elim (parse_plan_xml lxml options "numbered") [ ok p ↦ p | err e ↦ plan ]

parse_runs : parse_plan_xml lxml options "numbered" ≡ ok parsed
unfolding parsed
parse_runs = refl

abbrev findings : List Finding
unfolding parsed evaluate Checks.check_large_scans Checks.check_large_scan sort_by
    Checks.promote_adapter_warnings Checks.check_cardinality_skew Checks.check_skew
    Engine.check_bookmark_lookups Engine.check_lookup Engine.check_missing_indexes
    Engine.check_parallelism Engine.check_missing_index show_grouped
findings = elim (evaluate parsed) [ ok fs ↦ fs | err e ↦ [] ]

evaluate_runs : evaluate parsed ≡ ok findings
unfolding findings
evaluate_runs = refl

rel_ops_runs : rel_ops_of lxml "numbered" ≡ ok (numbered_join ∷ scan ∷ [])
unfolding rel_ops_of rel_ops_inside
rel_ops_runs = refl

evaluate-parse_plan_xml_example :
    Any (Matches "adapter_warning.tempdb_spill" Severity.critical (some "7")) findings
evaluate-parse_plan_xml_example =
    evaluate-parse_plan_xml lxml options "numbered" (numbered_join ∷ scan ∷ []) scan "7"
      "adapter_warning.tempdb_spill" Severity.critical parsed findings refl rel_ops_runs
      (inr (inl refl)) refl refl
      (warns spills spill "SpillToTempDb" WarningType.tempdb_spill refl (inl refl) refl refl refl
        refl)
      parse_runs evaluate_runs

evaluate-IsAbout_example : All (IsAbout (numbered_join ∷ scan ∷ [])) findings
evaluate-IsAbout_example =
    evaluate-IsAbout lxml options "numbered" parsed (numbered_join ∷ scan ∷ []) findings
      rel_ops_runs (("3", refl, refl), (("7", refl, refl), tt)) parse_runs evaluate_runs

abbrev indexed_findings : List Finding
unfolding indexed_plan evaluate Checks.check_large_scans Checks.check_large_scan sort_by
    Checks.promote_adapter_warnings Checks.check_cardinality_skew Checks.check_skew
    Engine.check_bookmark_lookups Engine.check_lookup Engine.check_missing_indexes
    Engine.check_parallelism Engine.check_missing_index Engine.impact_severity show_grouped
indexed_findings = elim (evaluate indexed_plan) [ ok fs ↦ fs | err e ↦ [] ]

indexed_evaluate : evaluate indexed_plan ≡ ok indexed_findings
unfolding indexed_findings
indexed_evaluate = refl

evaluate-Suggests_example :
    (impact : Option Cents) × (get_float lxml "Impact" wanted_group ≡ ok impact)
    × Any (Suggests lxml impact wanted) indexed_findings
evaluate-Suggests_example =
    evaluate-Suggests lxml options "indexed" (around (missing ∷ scan ∷ []))
      (elem "StmtSimple" (("StatementType", "SELECT") ∷ [])
        (elem "QueryPlan" [] (missing ∷ scan ∷ []) ∷ []))
      (elem "QueryPlan" [] (missing ∷ scan ∷ [])) wanted_group wanted indexed_plan indexed_findings
      refl refl refl (inl refl) (inl refl) indexed_runs indexed_evaluate
