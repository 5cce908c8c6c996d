-- ===== src/Narration/PlanSummary/Tests.antt =====
-- The summary of the plan of Ir/Sample, and the ranking of three operators.
use query_smith.Prelude.{ℕ, String, List, [], ◌∷◌, map, some, ◌≡◌, refl}
use query_smith.Float.Sample.{cents_float}
use query_smith.Ir.{OperatorInfo, OperatorType}
use query_smith.Ir.Sample.{plain, plan}
use query_smith.Prelude.Sorting.{sort_by}
use query_smith.Narration.PlanSummary.{select_notable_operators, summarize_plan, text_lt, key_lt}
use query_smith.Narration.PlanSummary.Bounds.{IsBounded, summarize_plan-IsBounded}
use query_smith.Float.Whole.{whole, whole-IsRanked}
use query_smith.Narration.PlanSummary.Ranking.{Ranks, select_notable_operators-Ranks}

summarize_plan-IsBounded_example : IsBounded plan (summarize_plan plan)
summarize_plan-IsBounded_example = summarize_plan-IsBounded plan

abbrev costing : String → ℕ → OperatorInfo ℕ
costing id cost = record (plain id OperatorType.table_scan) {
  estimated_cost_pct_of_total = some cost;
}

abbrev three : List (OperatorInfo ℕ)
three = costing "a" 20 ∷ costing "c" 70 ∷ costing "b" 20 ∷ []

ranking_test : map (λ op. op.id) (select_notable_operators three 2) ≡ "c" ∷ "a" ∷ []
unfolding select_notable_operators sort_by text_lt key_lt
ranking_test = refl

select_notable_operators-Ranks_example :
    Ranks whole-IsRanked three (select_notable_operators three 2)
select_notable_operators-Ranks_example = select_notable_operators-Ranks whole-IsRanked three 2
