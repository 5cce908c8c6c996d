-- ===== src/Narration/PlanSummary/Bounds.antt =====
-- The size of a summary, and where its operators come from.
use Prim.Native.String.{count}
use text.Mathlib.TextLemmas.{length-append, length-cons}
use query_smith.Prelude.{
  ℕ, zero, suc, ◌+◌, ◌≤◌, String, List, map, length, take, ◌≡◌, refl, arith, All, Any, inl, inr,
  ltb, Bool-cases, length-map, length-take, All-take,
}
use query_smith.Prelude.Collect.{In, All-In, All-map, Any-of_In}
use query_smith.Prelude.Sorting.{length-sort_by, sort_by, All-sort_by}
use query_smith.Float.{Float}
use query_smith.Ir.{OperatorInfo, Operator, node, IrPlan}
use query_smith.Rules.Checks.{walk}
use query_smith.Narration.Models.{PlanSummary}
use query_smith.Narration.PlanSummary.{
  prefix, truncate, select_notable_operators, to_highlight, summarize_plan, key_lt,
}

count-prefix : (n : ℕ) (s : String) → count (prefix n s) ≤ n
unfolding prefix
count-prefix zero s = omega arith
count-prefix (suc n) String.[] = omega arith
count-prefix (suc n) (String.◌∷◌ c s) = omega (arith, count-prefix n s, length-cons c (prefix n s))

-- A text that is cut has the limit's length at most, and the mark.
count-truncate : (limit : ℕ) (s : String) → count (truncate limit s) ≤ limit + 15
unfolding truncate
count-truncate limit s = elim (Bool-cases (ltb limit (count s))) [
  | inl e ↦
      rw e (omega (arith, length-append (prefix limit s) " ...[truncated]", count-prefix limit s))
  | inr e ↦ rw e (ground (arith, e))
]

truncate-whole : (limit : ℕ) (s : String) → count s ≤ limit → truncate limit s ≡ s
unfolding truncate
truncate-whole limit s h = ground arith

module _ {F : Type 0} ⦃fl : Float F⦄ where
  -- The summary counts all operators of the plan and shows eight of them, or all if there are
  -- fewer; the statement's text is whole up to 4000 characters, and cut behind them.
  pub record IsBounded (plan : IrPlan F) (summary : PlanSummary F) : Type 0 where
    pub counted : summary.operator_count ≡ length (walk plan.root_operator)
    pub some_operator : 1 ≤ summary.operator_count
    pub at_most : length summary.notable_operators ≤ 8
    pub all_shown :
        (summary.operator_count ≤ 8) → length summary.notable_operators ≡ summary.operator_count
    pub eight_shown : (8 ≤ summary.operator_count) → length summary.notable_operators ≡ 8
    pub known :
        All
          (λ h. Any (λ op. h ≡ to_highlight op) (walk plan.root_operator))
          summary.notable_operators
    pub text : count summary.statement_text ≤ 4015
    pub whole_text :
        (count plan.statement.text ≤ 4000) → summary.statement_text ≡ plan.statement.text

  known_operators :
      (ops : List (OperatorInfo F))
      → All
          (λ h. Any (λ op. h ≡ to_highlight op) ops)
          (map to_highlight (select_notable_operators ops 8))
  unfolding select_notable_operators
  known_operators ops =
      All-map _ (λ op. In op ops) to_highlight (λ op m. Any-of_In _ op ops m refl) _
        (All-take _ 8 _ (All-sort_by key_lt _ ops (All-In ops)))

  length-walk : (op : Operator F) → 1 ≤ length (walk op)
  unfolding walk
  length-walk (node op children) = omega arith

  -- For every plan, the summary counts all operators and at least one, shows eight of them, or all
  -- if there are fewer, and has the statement's text, whole up to 4000 characters and never longer
  -- than 4015.
  pub summarize_plan-IsBounded : (plan : IrPlan F) → IsBounded plan (summarize_plan plan)
  unfolding summarize_plan select_notable_operators
  summarize_plan-IsBounded plan =
      let ops = walk plan.root_operator in
      let shown = length-map to_highlight (take 8 (sort_by key_lt ops)) in
      let sorted = length-sort_by key_lt ops in
      let (upper, all, eight) = length-take 8 (sort_by key_lt ops) in
      record {
        counted = refl;
        some_operator = length-walk plan.root_operator;
        at_most = omega (arith, shown, upper);
        all_shown = λ h. omega (arith, shown, sorted, all (omega (arith, sorted, h)));
        eight_shown = λ h. omega (arith, shown, sorted, eight (omega (arith, sorted, h)));
        known = known_operators ops;
        text = count-truncate 4000 plan.statement.text;
        whole_text = truncate-whole 4000 plan.statement.text;
      }
