-- ===== src/Adapter/Build/Order.antt =====
-- The operators of a plan beside the `RelOp` elements of the document.
use query_smith.Prelude.{
  ℕ, String, List, [], ◌∷◌, ◌++◌, ◌≡◌, refl, inl, inr, Bool-cases, str_eq, Option, none, some,
}
use mathlib.Core.Path.{subst}
use query_smith.Prelude.Outcome.{ok, >>=-eq-ok, ok-injective}
use query_smith.Prelude.Int.{ℤ}
use query_smith.Float.{Float}
use query_smith.Ir.{PlanSource, OperatorInfo, Operator, Operators, node, IrPlan}
use query_smith.Rules.Checks.{walk, walk_all}
use query_smith.Adapter.Xml.{Xml, element, comment, Nodes, Lxml}
use query_smith.Adapter.Node.{BuildState, build_node}
use query_smith.Adapter.Build.{
  ParseOptions, parse_plan_xml, with_grant, enter, entered, attach, build_inside, build_nodes,
  build_operator_tree,
}
use query_smith.Adapter.Build.Next.{build_node-Next, Shows-granted}
use query_smith.Adapter.Build.Inversion.{Parsed, parse_plan_xml-Parsed}
use query_smith.Adapter.Build.Shown.{walk_all-append}
use query_smith.Adapter.Build.Shown.{rel_ops_inside, rel_ops, Along, Along-append}

module _ (lx : Lxml) {F : Type 0} ⦃fl : Float F⦄ (total_cost : Option F)
    (plan_source : PlanSource) where
  attach-Along :
      (x : Xml) (xs : Nodes) (s : BuildState) (here : Option (OperatorInfo F) × BuildState)
      (beneath later : Operators F × BuildState)
      → enter lx total_cost plan_source x s ≡ ok here
      → Along lx total_cost plan_source here.1 (rel_ops_inside x) (walk_all beneath.0) beneath.1
      → Along lx total_cost plan_source beneath.1 (rel_ops xs) (walk_all later.0) later.1
      → Along lx total_cost plan_source s
          (rel_ops (Nodes.cons x xs))
          (walk_all (attach here.0 beneath.0 later.0))
          later.1
  unfolding enter walk rel_ops
  attach-Along comment xs s here beneath later e inner rest = cc
  attach-Along (element ns name attrs nodes) xs s here beneath later e inner rest =
      let x = element ns name attrs nodes in
      let both =
        Along-append lx total_cost plan_source here.1 beneath.1 later.1 (rel_ops nodes) (rel_ops xs)
          (walk_all beneath.0) (walk_all later.0) inner rest in
      elim (Bool-cases (str_eq name "RelOp")) [
        | inl relational ↦
            let (built, made, e') =
              >>=-eq-ok (build_node lx total_cost plan_source x s) _ (rw relational at e) in
            let (next, ws, id, shown, same) =
              build_node-Next lx total_cost plan_source x s built made in
            let entering : entered built ≡ here = cc e' in
            rw relational (
              subst
                (λ (h : Option (OperatorInfo F) × BuildState).
                  Along lx total_cost plan_source h.1 (rel_ops nodes ++ rel_ops xs)
                    (walk_all beneath.0 ++ walk_all later.0) later.1
                  → Along lx total_cost plan_source s (x ∷ (rel_ops nodes ++ rel_ops xs))
                      (walk_all (attach h.0 beneath.0 later.0)) later.1)
                entering (λ tail. (next, ws, id, shown, rw same tail)) both)
        | inr other ↦
            let entering : (none, s) ≡ here = cc (rw other at e) in
            rw other (
              subst
                (λ (h : Option (OperatorInfo F) × BuildState).
                  Along lx total_cost plan_source h.1 (rel_ops nodes ++ rel_ops xs)
                    (walk_all beneath.0 ++ walk_all later.0) later.1
                  → Along lx total_cost plan_source s (rel_ops nodes ++ rel_ops xs)
                      (walk_all (attach h.0 beneath.0 later.0)) later.1)
                entering (λ tail. rw (walk_all-append beneath.0 later.0) tail) both)
      ]

  mutual
    unfolding build_inside build_nodes walk rel_ops

    build_inside-Along :
        (x : Xml) (s : BuildState) (r : Operators F × BuildState)
        → build_inside lx total_cost plan_source x s ≡ ok r
        → Along lx total_cost plan_source s (rel_ops_inside x) (walk_all r.0) r.1
    build_inside-Along (element namespace name attrs nodes) s r e = build_nodes-Along nodes s r e
    build_inside-Along comment s r e = let same : (Operators.nil, s) ≡ r = cc e in rw (← same) refl

    build_nodes-Along :
        (xs : Nodes) (s : BuildState) (r : Operators F × BuildState)
        → build_nodes lx total_cost plan_source xs s ≡ ok r
        → Along lx total_cost plan_source s (rel_ops xs) (walk_all r.0) r.1
    build_nodes-Along Nodes.nil s r e = let same : (Operators.nil, s) ≡ r = cc e in rw (← same) refl
    build_nodes-Along (Nodes.cons x xs) s r e =
        let (here, entering, e1) = >>=-eq-ok (enter lx total_cost plan_source x s) _ e in
        let (beneath, inner, e2) =
          >>=-eq-ok (build_inside lx total_cost plan_source x here.1) _ e1 in
        let (later, rest, e3) =
          >>=-eq-ok (build_nodes lx total_cost plan_source xs beneath.1) _ e2 in
        subst
          (λ (t : Operators F × BuildState).
            Along lx total_cost plan_source s (rel_ops (Nodes.cons x xs)) (walk_all t.0) t.1)
          (ok-injective e3)
          (attach-Along x xs s here beneath later entering
            (build_inside-Along x here.1 beneath inner) (build_nodes-Along xs beneath.1 later rest))

  build_operator_tree-Along :
      (x : Xml) (s : BuildState) (r : Operator F × BuildState)
      → build_operator_tree lx total_cost plan_source x s ≡ ok r
      → Along lx total_cost plan_source s (x ∷ rel_ops_inside x) (walk r.0) r.1
  unfolding build_operator_tree walk
  build_operator_tree-Along x s r e =
      let (built, made, e1) = >>=-eq-ok (build_node lx total_cost plan_source x s) _ e in
      let (beneath, inner, e2) =
        >>=-eq-ok (build_inside lx total_cost plan_source x built.1) _ e1 in
      let (next, ws, id, shown, same) = build_node-Next lx total_cost plan_source x s built made in
      subst
        (λ (t : Operator F × BuildState).
          Along lx total_cost plan_source s (x ∷ rel_ops_inside x) (walk t.0) t.1)
        (ok-injective e2)
        (next, ws, id, shown, rw same (build_inside-Along x built.1 beneath inner))

  Along-with_grant :
      (s t : BuildState) (xs : List Xml) (grant : Option ℤ) (root : Operator F)
      → Along lx total_cost plan_source s xs (walk root) t
      → Along lx total_cost plan_source s xs (walk (with_grant grant root)) t
  unfolding walk
  Along-with_grant s t xs none root h = h
  Along-with_grant s t [] (some kb) (node op children) h = absurd h
  Along-with_grant s t (x ∷ xs) (some kb) (node op children) (next, ws, id, shown, h) =
      (next, ws, id, Shows-granted lx total_cost plan_source x op ws kb shown, h)

-- the state that `parse_plan_xml` begins with
abbrev pub start : BuildState
start = record { next_id = 1; warnings = [] }

-- When `parse_plan_xml` returns, the operators of the plan, from the root down, are the root's
-- `RelOp` and all those inside it, each once and in the order of the document. Each shows its
-- element: the operator's names and types, its object, rows, costs and ratios, the total of its
-- threads' rows and one of their durations, each predicate once, whether it spills, and the
-- element's id or else the next value of a counter from 1 on. The plan's warnings are those of the
-- elements, in the same order, under the ids of their operators.
pub parse_plan_xml_in_order :
    (lx : Lxml) {F : Type 0} ⦃fl : Float F⦄ (options : ParseOptions) (xml : String)
    (plan : IrPlan F)
    → parse_plan_xml lx options xml ≡ ok plan
    → (parsed : Parsed lx options xml plan) × (last : ℕ) × Along lx parsed.tree.total_cost
        options.plan_source start
        (parsed.rel_op ∷ rel_ops_inside parsed.rel_op)
        (walk plan.root_operator)
        (record { next_id = last; warnings = plan.warnings })
parse_plan_xml_in_order lx options xml plan e =
    let parsed = parse_plan_xml-Parsed lx options xml plan e in
    let tree = parsed.tree in
    let along =
      Along-with_grant lx tree.total_cost options.plan_source start tree.built.1
        (parsed.rel_op ∷ rel_ops_inside parsed.rel_op) tree.grant tree.built.0
        (build_operator_tree-Along lx tree.total_cost options.plan_source parsed.rel_op start
          tree.built tree.made) in
    (parsed, tree.built.1.next_id, rw (← tree.same_root, ← tree.same_warnings) along)
