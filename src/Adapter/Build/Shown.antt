-- ===== src/Adapter/Build/Shown.antt =====
-- What a plan shows of its document: for each `RelOp` element, in document order, an operator with
-- the element's own values.
use query_smith.Prelude.{
  ℕ, suc, refl, String, Bool, true, false, List, [], ◌∷◌, ◌++◌, Option, none, some, str_eq, sym,
  ◌≡◌, ◌≢◌, All, Any, if◌then◌else◌,
}
use mathlib.Core.List.{append_assoc}
use query_smith.Rules.Checks.{walk, walk_all}
use query_smith.Adapter.Build.{append_operators}
use query_smith.Prelude.Outcome.{ok}
use query_smith.Text.{truthy}
use query_smith.Text.Numerals.{show_ℕ}
use query_smith.Float.{Float}
use query_smith.Ir.{PlanSource, WarningType, OperatorInfo, Operators, Warning}
use query_smith.Adapter.Xml.{
  Xml, element, comment, Nodes, Lxml, attribute, value_or, inside, list_of,
}
use query_smith.Adapter.OperatorMap.{map_operator_type, map_access_type, map_join_type}
use query_smith.Adapter.Extract.{find_detail_wrapper, extract_object_ref, extract_warnings}
use query_smith.Adapter.Extract.Laws.{TextsOf}
use query_smith.Adapter.Counters.{get_float, quotient}
use query_smith.Adapter.Counters.Laws.{threads, IsTotal, IsOneOf, Readings}
use query_smith.Adapter.Node.{BuildState, is_actual, is_lookup_wrapper}

abbrev pub is_rel_op : Xml → Bool
is_rel_op (element namespace name attrs nodes) = str_eq name "RelOp"
is_rel_op comment = false

-- All `RelOp`s inside an element, at any depth, in document order.
unfoldable mutual
  pub rel_ops_inside : Xml → List Xml
  rel_ops_inside (element namespace name attrs nodes) = rel_ops nodes
  rel_ops_inside comment = []

  pub rel_ops : Nodes → List Xml
  rel_ops Nodes.nil = []
  rel_ops (Nodes.cons x xs) =
      let beneath = rel_ops_inside x in
      let later = rel_ops xs in if is_rel_op x then x ∷ (beneath ++ later) else beneath ++ later

abbrev pub physical_op : Xml → String
physical_op x = value_or "" (attribute "PhysicalOp" x)

abbrev pub logical_op : Xml → String
logical_op x = value_or "" (attribute "LogicalOp" x)

-- An id of the document's own is kept; without one the counter's next value is the id.
pub data Identifies (given : Option String) (n : ℕ) (id : String) (next : ℕ) : Type 0 where
  own : given ≡ some id → truthy id ≡ true → next ≡ n → Identifies given n id next
  absent : given ≡ none → id ≡ show_ℕ n → next ≡ suc n → Identifies given n id next
  empty : given ≡ some "" → id ≡ show_ℕ n → next ≡ suc n → Identifies given n id next

-- The flag tells whether one of the warnings is a spill to tempdb.
abbrev pub Spills : List Warning → Bool → Type 0
Spills warnings true = Any (λ w. w.type ≡ WarningType.tempdb_spill) warnings
Spills warnings false = All (λ w. w.type ≢ WarningType.tempdb_spill) warnings

-- The element of the operator's details, and what is read of it.
abbrev pub scalar_operators : Lxml → Option Xml → List Xml
scalar_operators lx none = []
scalar_operators lx (some wrapper) = lx.findall ".//sp:ScalarOperator" wrapper

module _ (lx : Lxml) {F : Type 0} ⦃fl : Float F⦄ (total_cost : Option F)
    (plan_source : PlanSource) where
  -- The threads' counters count for an actual plan only.
  abbrev pub runtime_info : Xml → Option Xml
  runtime_info x = if is_actual plan_source then lx.find "sp:RunTimeInformation" x else none

  pub record Shows (x : Xml) (op : OperatorInfo F) (warnings : List Warning) : Type 0 where
    pub wrapper : Option Xml
    pub is_wrapper : find_detail_wrapper (list_of (inside x)) ≡ ok wrapper
    pub raw : op.physical_op_raw ≡ physical_op x
    pub typed :
        op.operator_type
        ≡ map_operator_type (physical_op x) (logical_op x) (is_lookup_wrapper wrapper)
    pub accessed : op.access_type ≡ map_access_type (physical_op x) (is_lookup_wrapper wrapper)
    pub joined : op.join_type ≡ map_join_type (physical_op x) (logical_op x)
    pub object : op.object_ref ≡ extract_object_ref lx wrapper
    pub estimated : get_float lx "EstimateRows" x ≡ ok op.estimated_rows
    pub cost : get_float lx "EstimatedTotalSubtreeCost" x ≡ ok op.estimated_cost
    pub share : op.estimated_cost_pct_of_total ≡ quotient op.estimated_cost total_cost
    pub row_counts : List F
    pub counted : Readings lx "ActualRows" (threads lx (runtime_info x)) row_counts
    pub total : IsTotal row_counts op.actual_rows
    pub ratio : op.row_estimate_ratio ≡ quotient op.actual_rows op.estimated_rows
    pub durations : List F
    pub timed : Readings lx "ActualElapsedms" (threads lx (runtime_info x)) durations
    pub longest : IsOneOf durations op.actual_duration_ms
    pub texts : TextsOf (scalar_operators lx wrapper) op.predicates
    pub warned : extract_warnings lx x op.id ≡ ok warnings
    pub spilled : Spills warnings op.tempdb_spill

  -- From one state of the counter and the warnings to another, element by element.
  abbrev pub Along : BuildState → List Xml → List (OperatorInfo F) → BuildState → Type 0
  Along s [] [] t = s ≡ t
  Along s (x ∷ xs) (op ∷ ops) t =
      (next : ℕ) × (warnings : List Warning) × Identifies (attribute "NodeId" x) s.next_id op.id
        next
      × Shows x op warnings
      × Along (record { next_id = next; warnings = s.warnings ++ warnings }) xs ops t
  Along s _ _ t = ⊥

  pub Along-append :
      (s u t : BuildState) (xs ys : List Xml) (ops qs : List (OperatorInfo F))
      → Along s xs ops u
      → Along u ys qs t
      → Along s (xs ++ ys) (ops ++ qs) t
  Along-append s u t [] ys [] qs h k = rw h k
  Along-append s u t [] ys (op ∷ ops) qs h k = absurd h
  Along-append s u t (x ∷ xs) ys [] qs h k = absurd h
  Along-append s u t (x ∷ xs) ys (op ∷ ops) qs (next, ws, i, sh, h) k =
      (next, ws, i, sh, Along-append _ u t xs ys ops qs h k)

pub walk_all-append :
    {F : Type 0} (a b : Operators F) → walk_all (append_operators a b) ≡ walk_all a ++ walk_all b
unfolding walk
walk_all-append Operators.nil b = refl
walk_all-append (Operators.cons op ops) b =
    rw (walk_all-append ops b) (sym (append_assoc (walk op) (walk_all ops) (walk_all b)))
