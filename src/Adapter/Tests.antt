-- ===== src/Adapter/Tests.antt =====
-- `parse_plan_xml` on the document of Adapter/Sample.
use query_smith.Prelude.{ℕ, ◌++◌, String, List, [], ◌∷◌, map, Option, some, ◌≡◌, refl}
use query_smith.Prelude.Outcome.{Outcome, ok, err}
use query_smith.Float.Sample.{Cents, cents_float}
use query_smith.Ir.{PlanSource, IrPlan}
use query_smith.Rules.Checks.{walk}
use query_smith.Adapter.Extract.{direct_child_rel_ops, find_detail_wrapper, extract_warnings}
use query_smith.Adapter.Counters.{sum_actual_rows, max_actual_duration_ms}
use query_smith.Text.Numerals.{show_ℕ}
use query_smith.Adapter.Build.{parse_plan_xml}
use query_smith.Ir.Sample.{plan}
use query_smith.Adapter.Build.Inversion.{Parsed}
use query_smith.Adapter.Build.Shown.{physical_op, rel_ops_inside, Along}
use query_smith.Adapter.Build.Order.{start, parse_plan_xml_in_order}
use query_smith.Adapter.Build.Unique.{rel_ops_of, parse_plan_xml-Distinct}
use query_smith.Adapter.Xml.{Xml, attribute}
use query_smith.Prelude.Collect.{Distinct}
use query_smith.Adapter.MissingIndexes.Laws.{groups_of, AsksOf, parse_plan_xml-AsksOf}
use query_smith.Float.Whole.{whole, whole-IsRanked}
use query_smith.Adapter.Counters.Laws.{
  threads, Readings, IsOneOf, IsBound, max_actual_duration_ms-IsBound,
}
use query_smith.Adapter.Sample.{
  indexed_plan, indexed_runs, elem, lxml, options, join, scan, numbered_join,
}

abbrev ids : IrPlan Cents → List String × List (Option String)
ids plan = (map (λ op. op.id) (walk plan.root_operator), map (λ w. w.operator_id) plan.warnings)

abbrev ids_of : Outcome (IrPlan Cents) → List String × List (Option String)
ids_of (ok plan) = ids plan
ids_of (err e) = ([], [])

ids_test : ids_of (parse_plan_xml lxml options "plan") ≡ ("1" ∷ "7" ∷ [], some "7" ∷ [])
unfolding parse_plan_xml find_detail_wrapper sum_actual_rows max_actual_duration_ms extract_warnings
    direct_child_rel_ops walk show_ℕ
ids_test = refl

abbrev parsed : IrPlan Cents
unfolding parse_plan_xml find_detail_wrapper sum_actual_rows max_actual_duration_ms extract_warnings
    direct_child_rel_ops show_ℕ
parsed = elim (parse_plan_xml lxml options "plan") [ ok p ↦ p | err e ↦ plan ]

parse_runs : parse_plan_xml lxml options "plan" ≡ ok parsed
unfolding parsed
parse_runs = refl

parse_plan_xml_in_order_example :
    (found : Parsed lxml options "plan" parsed) × (last : ℕ) × Along lxml found.tree.total_cost
      PlanSource.actual start
      (found.rel_op ∷ rel_ops_inside found.rel_op)
      (walk parsed.root_operator)
      (record { next_id = last; warnings = parsed.warnings })
parse_plan_xml_in_order_example = parse_plan_xml_in_order lxml options "plan" parsed parse_runs

in_order_test : map physical_op (join ∷ rel_ops_inside join) ≡ "Hash Match" ∷ "Table Scan" ∷ []
unfolding rel_ops_inside
in_order_test = refl

abbrev numbered : List Xml
numbered = numbered_join ∷ scan ∷ []

numbered_rel_ops : rel_ops_of lxml "numbered" ≡ ok numbered
unfolding rel_ops_of rel_ops_inside
numbered_rel_ops = refl

abbrev numbered_plan : IrPlan Cents
unfolding parse_plan_xml find_detail_wrapper sum_actual_rows max_actual_duration_ms extract_warnings
    direct_child_rel_ops show_ℕ
numbered_plan = elim (parse_plan_xml lxml options "numbered") [ ok p ↦ p | err e ↦ plan ]

numbered_runs : parse_plan_xml lxml options "numbered" ≡ ok numbered_plan
unfolding numbered_plan
numbered_runs = refl

-- both elements of a document with ids
parse_plan_xml-Distinct_example :
    (map (λ op. some op.id) (walk numbered_plan.root_operator) ≡ map (attribute "NodeId") numbered)
    × Distinct (map (λ op. op.id) (walk numbered_plan.root_operator))
parse_plan_xml-Distinct_example =
    parse_plan_xml-Distinct lxml options "numbered" numbered_plan numbered numbered_rel_ops
      (("3", refl, refl), (("7", refl, refl), tt)) ((λ e. cc, tt), (tt, tt)) numbered_runs

indexed_test :
    map (λ mi. mi.columns_equality ++ mi.columns_include) indexed_plan.missing_indexes
    ≡ ("CustomerId" ∷ "Total" ∷ []) ∷ []
unfolding indexed_plan
indexed_test = refl

parse_plan_xml-AsksOf_example :
    (found : Parsed lxml options "indexed" indexed_plan) × AsksOf lxml
      (groups_of lxml (lxml.find "sp:MissingIndexes" found.query_plan))
      indexed_plan.missing_indexes
parse_plan_xml-AsksOf_example =
    parse_plan_xml-AsksOf lxml options "indexed" indexed_plan indexed_runs

-- two threads
abbrev threaded : Xml
threaded = elem "RunTimeInformation" [] (
    elem "RunTimeCountersPerThread" (("ActualElapsedms", "7") ∷ []) []
    ∷ elem "RunTimeCountersPerThread" (("ActualElapsedms", "12") ∷ []) []
    ∷ [])

longest : max_actual_duration_ms lxml {F = ℕ} (some threaded) ≡ ok (some 12)
unfolding max_actual_duration_ms
longest = refl

max_actual_duration_ms-IsBound_example :
    (values : List ℕ) × Readings lxml "ActualElapsedms" (threads lxml (some threaded)) values
    × IsOneOf values (some 12)
    × IsBound values (some 12)
max_actual_duration_ms-IsBound_example =
    max_actual_duration_ms-IsBound lxml whole-IsRanked (some threaded) (some 12) longest
