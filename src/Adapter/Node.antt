-- ===== src/Adapter/Node.antt =====
-- plan_xml_to_ir.py: what `_build_operator_tree` reads of one element. The state is the next value
-- of the counter and the warnings collected so far.
use query_smith.Prelude.{
  ℕ, suc, String, Bool, true, false, List, ◌++◌, any, Option, none, some, str_eq, if◌then◌else◌,
}
use query_smith.Prelude.Outcome.{Outcome, ok, err, ◌>>=◌}
use query_smith.Text.{truthy}
use query_smith.Text.Numerals.{show_ℕ}
use query_smith.Float.{Float}
use query_smith.Ir.{PlanSource, WarningType, OperatorInfo, Warning}
use query_smith.Adapter.Xml.{Xml, Lxml, value_or, local_name, attribute, inside, list_of}
use query_smith.Adapter.OperatorMap.{map_operator_type, map_access_type, map_join_type}
use query_smith.Adapter.Extract.{
  direct_child_rel_ops, find_detail_wrapper, extract_object_ref, extract_predicates,
  extract_warnings,
}
use query_smith.Adapter.Counters.{get_float, sum_actual_rows, max_actual_duration_ms, quotient}

pub record BuildState : Type 0 where
  pub next_id : ℕ
  pub warnings : List Warning

-- `rel_op_elem.get("NodeId") or str(next(counter))`
abbrev fresh_id : ℕ → String × ℕ
fresh_id n = (show_ℕ n, suc n)

abbrev pub node_id_of : Option String → ℕ → String × ℕ
node_id_of none n = fresh_id n
node_id_of (some id) n = if truthy id then (id, n) else fresh_id n

abbrev pub is_spill : Warning → Bool
is_spill w = elim w.type [ WarningType.tempdb_spill ↦ true | _ ↦ false ]

abbrev is_one : Option String → Bool
is_one none = false
is_one (some s) = str_eq s "1"

abbrev pub is_lookup_wrapper : Option Xml → Bool
is_lookup_wrapper none = false
is_lookup_wrapper (some wrapper) = is_one (attribute "Lookup" wrapper)

abbrev pub is_sort : Option Xml → Bool
is_sort none = false
is_sort (some wrapper) = elim (local_name wrapper) [ ok name ↦ str_eq name "Sort" | err e ↦ false ]

abbrev pub is_actual : PlanSource → Bool
is_actual PlanSource.actual = true
is_actual PlanSource.estimated = false

module _ (lx : Lxml) {F : Type 0} ⦃fl : Float F⦄ where
  -- `_build_operator_tree` but for the children: the operator's own fields, and the state behind
  -- its warnings. The elements of the children are looked for here, since that may raise.
  unfoldable pub build_node :
      Option F → PlanSource → Xml → BuildState → Outcome (OperatorInfo F × BuildState)
  build_node total_cost plan_source rel_op s =
      let id = node_id_of (attribute "NodeId" rel_op) s.next_id in
      let physical_op = value_or "" (attribute "PhysicalOp" rel_op) in
      let logical_op = value_or "" (attribute "LogicalOp" rel_op) in
      let runtime_info =
        if is_actual plan_source then lx.find "sp:RunTimeInformation" rel_op else none in
      do
        wrapper ← find_detail_wrapper (list_of (inside rel_op))
        estimated_rows ← get_float lx "EstimateRows" rel_op
        estimated_cost ← get_float lx "EstimatedTotalSubtreeCost" rel_op
        actual_rows ← sum_actual_rows lx runtime_info
        actual_duration_ms ← max_actual_duration_ms lx runtime_info
        node_warnings ← extract_warnings lx rel_op id.0
        children ← direct_child_rel_ops rel_op
        let is_lookup = is_lookup_wrapper wrapper
        ok (
          record {
            id = id.0;
            operator_type = map_operator_type physical_op logical_op is_lookup;
            physical_op_raw = physical_op;
            object_ref = extract_object_ref lx wrapper;
            estimated_rows = estimated_rows;
            actual_rows = actual_rows;
            row_estimate_ratio = quotient actual_rows estimated_rows;
            estimated_cost = estimated_cost;
            estimated_cost_pct_of_total = quotient estimated_cost total_cost;
            actual_duration_ms = actual_duration_ms;
            predicates = extract_predicates lx wrapper;
            join_type = map_join_type physical_op logical_op;
            access_type = map_access_type physical_op is_lookup;
            sort_present = is_sort wrapper;
            parallel = is_one (attribute "Parallel" rel_op);
            memory_grant_kb = none;
            tempdb_spill = any is_spill node_warnings;
          },
          record { next_id = id.1; warnings = s.warnings ++ node_warnings },
        )
