-- ===== src/Adapter/Build/Inversion.antt =====
-- What `parse_plan_xml` has done when it returns.
use query_smith.Prelude.{String, [], Option, none, some, ◌≡◌, ap, if◌then◌else◌}
use query_smith.Prelude.Int.{ℤ}
use query_smith.Prelude.Outcome.{Outcome, ok, err, >>=-eq-ok}
use query_smith.Float.{Float}
use query_smith.Ir.{Operator, operator_info, IrPlan}
use query_smith.Adapter.Xml.{Xml, Lxml}
use query_smith.Adapter.MissingIndexes.{extract_missing_indexes}
use query_smith.Adapter.Counters.{get_float}
use query_smith.Adapter.Build.{
  ParseOptions, plan_of, parse_plan_xml, granted_memory, with_grant, int_of, found,
  build_operator_tree,
}
use query_smith.Adapter.Node.{BuildState, is_actual}

found-eq-ok : (message : String) (o : Option Xml) (x : Xml) → found message o ≡ ok x → o ≡ some x
found-eq-ok message none x e = cc
found-eq-ok message (some y) x e = cc

module _ (lx : Lxml) {F : Type 0} ⦃fl : Float F⦄ (options : ParseOptions) where
  -- The plan's tree is the one built from the root's element, with the plan's memory grant.
  pub record Built (stmt query_plan rel_op : Xml) (plan : IrPlan F) : Type 0 where
    pub total_cost : Option F
    pub costed : get_float lx "StatementSubTreeCost" stmt ≡ ok total_cost
    pub listed : extract_missing_indexes lx query_plan ≡ ok plan.missing_indexes
    pub built : Operator F × BuildState
    pub grant : Option ℤ
    pub made :
        build_operator_tree lx total_cost options.plan_source rel_op
          (record { next_id = 1; warnings = [] })
        ≡ ok built
    pub same_root : with_grant grant built.0 ≡ plan.root_operator
    pub same_warnings : built.1.warnings ≡ plan.warnings

  plan_of-Built :
      (stmt query_plan rel_op : Xml) (plan : IrPlan F)
      → plan_of lx options stmt query_plan rel_op ≡ ok plan
      → Built stmt query_plan rel_op plan
  unfolding plan_of
  plan_of-Built stmt query_plan rel_op plan e =
      let (total_cost, costed, e) = >>=-eq-ok (get_float lx "StatementSubTreeCost" stmt) _ e in
      let (built, made, e) =
        >>=-eq-ok
          (build_operator_tree lx total_cost options.plan_source rel_op
            (record { next_id = 1; warnings = [] }))
          _ e in
      let (grant, granted, e) =
        >>=-eq-ok (granted_memory lx F (lx.find "sp:MemoryGrantInfo" query_plan)) _ e in
      let (indexes, extracted, e) = >>=-eq-ok (extract_missing_indexes lx query_plan) _ e in
      let (rows, counted, e) =
        >>=-eq-ok
          (int_of lx (
            if is_actual options.plan_source
            then (operator_info (with_grant grant built.0)).actual_rows
            else none))
          _ e in
      let same_root : with_grant grant built.0 ≡ plan.root_operator =
        ap
          (λ (o : Outcome (IrPlan F)). elim o [
            | ok p ↦ p.root_operator
            | err x ↦ with_grant grant built.0
          ])
          e in
      let same_warnings : built.1.warnings ≡ plan.warnings =
        ap (λ (o : Outcome (IrPlan F)). elim o [ ok p ↦ p.warnings | err x ↦ [] ]) e in
      let same_indexes : indexes ≡ plan.missing_indexes =
        ap (λ (o : Outcome (IrPlan F)). elim o [ ok p ↦ p.missing_indexes | err x ↦ indexes ]) e in
      record {
        total_cost = total_cost;
        costed = costed;
        listed = rw (← same_indexes) extracted;
        built = built;
        grant = grant;
        made = made;
        same_root = same_root;
        same_warnings = same_warnings;
      }

  -- The root's element, with the searches that have found it.
  pub record Parsed (xml : String) (plan : IrPlan F) : Type 0 where
    pub root : Xml
    pub stmt : Xml
    pub query_plan : Xml
    pub rel_op : Xml
    pub read : lx.fromstring xml ≡ ok root
    pub is_stmt : lx.find ".//sp:StmtSimple" root ≡ some stmt
    pub is_query_plan : lx.find "sp:QueryPlan" stmt ≡ some query_plan
    pub is_rel_op : lx.find "sp:RelOp" query_plan ≡ some rel_op
    pub tree : Built stmt query_plan rel_op plan

  pub parse_plan_xml-Parsed :
      (xml : String) (plan : IrPlan F) → parse_plan_xml lx options xml ≡ ok plan → Parsed xml plan
  unfolding parse_plan_xml
  parse_plan_xml-Parsed xml plan e =
      let (root, read, e) = >>=-eq-ok (lx.fromstring xml) _ e in
      let (stmt, a, e) =
        >>=-eq-ok
          (found "No StmtSimple element found in plan XML" (lx.find ".//sp:StmtSimple" root)) _ e in
      let (query_plan, b, e) =
        >>=-eq-ok (found "No QueryPlan element found in plan XML" (lx.find "sp:QueryPlan" stmt)) _
          e in
      let (rel_op, c, e) =
        >>=-eq-ok (found "No root RelOp element found in plan XML" (lx.find "sp:RelOp" query_plan))
          _ e in
      record {
        root = root;
        stmt = stmt;
        query_plan = query_plan;
        rel_op = rel_op;
        read = read;
        is_stmt = found-eq-ok _ _ stmt a;
        is_query_plan = found-eq-ok _ _ query_plan b;
        is_rel_op = found-eq-ok _ _ rel_op c;
        tree = plan_of-Built stmt query_plan rel_op plan e;
      }
