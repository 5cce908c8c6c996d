-- ===== src/Adapter/Build/Warnings.antt =====
-- The warnings of a parsed plan and the operators that they name.
use query_smith.Prelude.{
  String, List, [], ◌∷◌, ◌++◌, Option, none, some, ◌≡◌, refl, sym, ap, inl, inr, All, All-append,
  Any,
}
use query_smith.Prelude.Outcome.{Outcome, ok, err, >>=-eq-ok, traverse}
use query_smith.Prelude.Collect.{In, All-map_In, Any-of_In}
use query_smith.Float.{Float}
use query_smith.Ir.{PlanSource, OperatorInfo, Operator, IrPlan, Warning}
use query_smith.Rules.Checks.{walk}
use query_smith.Adapter.Xml.{Xml, element, comment, Lxml, inside, list_of}
use query_smith.Adapter.Extract.{warning_of, warnings_in, extract_warnings}
use query_smith.Adapter.Node.{BuildState}
use query_smith.Adapter.Build.{ParseOptions, parse_plan_xml}
use query_smith.Adapter.Build.Shown.{rel_ops_inside, Along}
use query_smith.Adapter.Build.Order.{start, parse_plan_xml_in_order}

-- The warning names an operator of the tree.
abbrev pub Names : {F : Type 0} → Operator F → Warning → Type 0
Names root w = Any (λ op. w.operator_id ≡ some op.id) (walk root)

warning_of-id :
    (id : String) (child : Xml) (w : Warning) → warning_of id child ≡ ok w → w.operator_id ≡ some id
warning_of-id id (element ns name attrs nodes) w e =
    ap (λ (o : Outcome Warning). elim o [ ok v ↦ v.operator_id | err x ↦ none ]) (sym e)
warning_of-id id comment w e = cc

warnings-id :
    (id : String) (xs : List Xml) (ws : List Warning)
    → traverse (warning_of id) xs ≡ ok ws
    → All (λ w. w.operator_id ≡ some id) ws
warnings-id id [] ws e = let same : [] ≡ ws = cc e in rw (← same) tt
warnings-id id (x ∷ xs) ws e =
    let (w, one, e') = >>=-eq-ok (warning_of id x) _ e in
    let (rest, others, e'') = >>=-eq-ok (traverse (warning_of id) xs) _ e' in
    let same : w ∷ rest ≡ ws = cc e'' in
    rw (← same) (warning_of-id id x w one, warnings-id id xs rest others)

extract_warnings-id :
    (lx : Lxml) (x : Xml) (id : String) (ws : List Warning)
    → extract_warnings lx x id ≡ ok ws
    → All (λ w. w.operator_id ≡ some id) ws
unfolding extract_warnings
extract_warnings-id lx x id ws e = go (lx.find "sp:Warnings" x) e
  where
    go : (o : Option Xml) → warnings_in lx id o ≡ ok ws → All (λ w. w.operator_id ≡ some id) ws
    go none e = let same : [] ≡ ws = cc e in rw (← same) tt
    go (some found) e = warnings-id id (list_of (inside found)) ws e

module _ (lx : Lxml) {F : Type 0} ⦃fl : Float F⦄ (total_cost : Option F) (plan_source : PlanSource)
    (P : Warning → Type 0) where
  -- What holds of the warnings at hand and of those that name one of the operators, holds at the end.
  Along-All :
      (s t : BuildState) (xs : List Xml) (ops : List (OperatorInfo F))
      → Along lx total_cost plan_source s xs ops t
      → ((op : OperatorInfo F) (w : Warning) → In op ops → w.operator_id ≡ some op.id → P w)
      → All P s.warnings
      → All P t.warnings
  Along-All s t [] [] h tells before = rw (← h) before
  Along-All s t [] (op ∷ ops) h tells before = absurd h
  Along-All s t (x ∷ xs) [] h tells before = absurd h
  Along-All s t (x ∷ xs) (op ∷ ops) (next, ws, id, shown, h) tells before =
      Along-All (record { next_id = next; warnings = s.warnings ++ ws }) t xs ops h
        (λ q w m. tells q w (inr m))
        (All-append P s.warnings ws before (
          All-map_In (λ w. w.operator_id ≡ some op.id) P ws (λ w e. tells op w (inl refl) e)
            (extract_warnings-id lx x op.id ws shown.warned)))

-- When `parse_plan_xml` returns, each warning of the plan names an operator of the plan's tree.
pub parse_plan_xml-Names :
    (lx : Lxml) {F : Type 0} ⦃fl : Float F⦄ (options : ParseOptions) (xml : String)
    (plan : IrPlan F)
    → parse_plan_xml lx options xml ≡ ok plan
    → All (Names plan.root_operator) plan.warnings
parse_plan_xml-Names lx options xml plan e =
    let (parsed, last, along) = parse_plan_xml_in_order lx options xml plan e in
    Along-All lx parsed.tree.total_cost options.plan_source (Names plan.root_operator) start
      (record { next_id = last; warnings = plan.warnings })
      (parsed.rel_op ∷ rel_ops_inside parsed.rel_op) (walk plan.root_operator) along
      (λ op w m h. Any-of_In (λ op. w.operator_id ≡ some op.id) op (walk plan.root_operator) m h) tt
