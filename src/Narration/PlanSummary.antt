-- ===== src/Narration/PlanSummary.antt =====
-- narration/plan_summary.py: the condensed plan that goes into a prompt.
pub mod Bounds
pub mod Ranking
mod Tests
use Prim.Native.String.{count}
use Prim.Native.Char.{code}
use query_smith.Prelude.{
  ℕ, zero, suc, String, ◌<>◌, Bool, true, false, not, ◌&&◌, ◌||◌, List, [], ◌∷◌, map, Option, none,
  some, length, take, is_empty, ltb, if◌then◌else◌,
}
use query_smith.Prelude.Sorting.{sort_by}
use query_smith.Text.{truthy, join}
use query_smith.Float.{Float}
use query_smith.Ir.{AccessType, ObjectRef, OperatorInfo, IrPlan}
use query_smith.Ir.Names.{
  engine_value, object_type_value, plan_source_value, statement_type_value, operator_type_value,
  access_type_value,
}
use query_smith.Rules.Checks.{walk}
use query_smith.Narration.Models.{OperatorHighlight, PlanSummary}

-- `s < t` on texts: by code points
unfoldable pub text_lt : String → String → Bool
text_lt s String.[] = false
text_lt String.[] (String.◌∷◌ d t) = true
text_lt (String.◌∷◌ c s) (String.◌∷◌ d t) =
    ltb (code c) (code d) || not (ltb (code d) (code c)) && text_lt s t

-- `s[:n]`
unfoldable pub prefix : ℕ → String → String
prefix zero s = String.[]
prefix (suc n) String.[] = String.[]
prefix (suc n) (String.◌∷◌ c s) = String.◌∷◌ c (prefix n s)

abbrev pub default_max_notable_operators : ℕ
default_max_notable_operators = 8

abbrev pub default_max_statement_text_chars : ℕ
default_max_statement_text_chars = 4000

module _ {F : Type 0} ⦃fl : Float F⦄ where
  -- the negated value, or that of -1.0 where there is none
  negated : Option F → F
  negated none = fl.neg (fl.neg (fl.ratio 1 1))
  negated (some x) = fl.neg x

  -- The comparison of two `sort_key` tuples: the first components that differ decide.
  pub key_lt : OperatorInfo F → OperatorInfo F → Bool
  unfolding negated
  key_lt a b =
      let a₁ = negated a.estimated_cost_pct_of_total in
      let b₁ = negated b.estimated_cost_pct_of_total in
      let a₂ = negated a.actual_duration_ms in
      let b₂ = negated b.actual_duration_ms in
      if not (fl.eq a₁ b₁)
      then fl.lt a₁ b₁
      else if not (fl.eq a₂ b₂)
      then fl.lt a₂ b₂
      else text_lt a.id b.id

  unfoldable pub select_notable_operators : List (OperatorInfo F) → ℕ → List (OperatorInfo F)
  select_notable_operators operators limit = take limit (sort_by key_lt operators)

abbrev some_truthy : Option String → List String → List String
some_truthy none parts = parts
some_truthy (some s) parts = if truthy s then s ∷ parts else parts

abbrev ref_text : Option ObjectRef → Option String
ref_text none = none
ref_text (some ref) =
    let parts = some_truthy ref.schema (some_truthy ref.table []) in
    if is_empty parts then none else some (join "." parts)

abbrev access_text : Option AccessType → Option String
access_text none = none
access_text (some a) = some (access_type_value a)

unfoldable pub to_highlight : {F : Type 0} → OperatorInfo F → OperatorHighlight F
to_highlight op = record {
  id = op.id;
  operator_type = operator_type_value op.operator_type;
  physical_op_raw = op.physical_op_raw;
  object_ref = ref_text op.object_ref;
  access_type = access_text op.access_type;
  estimated_rows = op.estimated_rows;
  actual_rows = op.actual_rows;
  row_estimate_ratio = op.row_estimate_ratio;
  estimated_cost_pct_of_total = op.estimated_cost_pct_of_total;
  actual_duration_ms = op.actual_duration_ms;
  tempdb_spill = op.tempdb_spill;
  parallel = op.parallel;
}

unfoldable pub truncate : ℕ → String → String
unfolding prefix
truncate limit text =
    if ltb limit (count text) then prefix limit text <> " ...[truncated]" else text

module _ {F : Type 0} ⦃fl : Float F⦄ where
  unfoldable pub summarize_plan_with : ℕ → ℕ → IrPlan F → PlanSummary F
  summarize_plan_with max_notable_operators max_statement_text_chars plan =
      let operators = walk plan.root_operator in
      record {
        engine = engine_value plan.meta.engine;
        engine_version = plan.meta.engine_version;
        database_name = plan.meta.database_name;
        object_type = object_type_value plan.meta.object_type;
        object_name = plan.meta.object_name;
        plan_source = plan_source_value plan.meta.plan_source;
        statement_type = statement_type_value plan.statement.statement_type;
        statement_text = truncate max_statement_text_chars plan.statement.text;
        total_estimated_cost = plan.statement.total_estimated_cost;
        total_actual_duration_ms = plan.statement.total_actual_duration_ms;
        total_actual_rows = plan.statement.total_actual_rows;
        operator_count = length operators;
        notable_operators =
            map to_highlight (select_notable_operators operators max_notable_operators);
      }

  unfoldable pub summarize_plan : IrPlan F → PlanSummary F
  unfolding summarize_plan_with
  summarize_plan =
      summarize_plan_with default_max_notable_operators default_max_statement_text_chars
