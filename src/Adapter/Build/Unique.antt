-- ===== src/Adapter/Build/Unique.antt =====
-- The ids of a plan's operators.
use query_smith.Prelude.{
  ℕ, String, true, List, [], ◌∷◌, map, Option, some, ◌≡◌, refl, sym, ◌∙◌, All,
}
use query_smith.Prelude.Outcome.{Outcome, ok, ◌>>=◌, ok-injective}
use query_smith.Prelude.Collect.{Distinct, Distinct-map}
use query_smith.Text.{truthy}
use query_smith.Float.{Float}
use query_smith.Ir.{PlanSource, OperatorInfo, IrPlan}
use query_smith.Rules.Checks.{walk}
use query_smith.Adapter.Xml.{Xml, Lxml, attribute}
use query_smith.Adapter.Node.{BuildState}
use query_smith.Adapter.Build.{ParseOptions, parse_plan_xml, found}
use query_smith.Adapter.Build.Inversion.{Parsed}
use query_smith.Adapter.Build.Shown.{rel_ops_inside, Identifies, own, absent, empty, Along}
use query_smith.Adapter.Build.Order.{start, parse_plan_xml_in_order}

-- The `RelOp`s of the first statement's plan, in document order.
unfoldable pub rel_ops_of : Lxml → String → Outcome (List Xml)
rel_ops_of lx xml = do
  root ← lx.fromstring xml
  stmt ← found "No StmtSimple element found in plan XML" (lx.find ".//sp:StmtSimple" root)
  query_plan ← found "No QueryPlan element found in plan XML" (lx.find "sp:QueryPlan" stmt)
  rel_op ← found "No root RelOp element found in plan XML" (lx.find "sp:RelOp" query_plan)
  ok (rel_op ∷ rel_ops_inside rel_op)

pub Parsed-rel_ops_of :
    (lx : Lxml) {F : Type 0} ⦃fl : Float F⦄ (options : ParseOptions) (xml : String)
    (plan : IrPlan F) (parsed : Parsed lx options xml plan)
    → rel_ops_of lx xml ≡ ok (parsed.rel_op ∷ rel_ops_inside parsed.rel_op)
unfolding rel_ops_of
Parsed-rel_ops_of lx options xml plan parsed =
    rw (parsed.read, parsed.is_stmt, parsed.is_query_plan, parsed.is_rel_op) refl

-- The element has an id of its own.
abbrev pub HasId : Xml → Type 0
HasId x = (id : String) × (attribute "NodeId" x ≡ some id) × (truthy id ≡ true)

pub Identifies-own :
    (given : Option String) (n : ℕ) (id : String) (next : ℕ) (k : String)
    → Identifies given n id next
    → given ≡ some k
    → truthy k ≡ true
    → some id ≡ given
Identifies-own given n id next k (own e full step) g f = sym e
Identifies-own given n id next k (absent e i step) g f = cc
Identifies-own given n id next k (empty e i step) g f = cc

module _ (lx : Lxml) {F : Type 0} ⦃fl : Float F⦄ (total_cost : Option F)
    (plan_source : PlanSource) where
  Along-ids :
      (s t : BuildState) (xs : List Xml) (ops : List (OperatorInfo F))
      → Along lx total_cost plan_source s xs ops t
      → All HasId xs
      → map (λ op. some op.id) ops ≡ map (attribute "NodeId") xs
  Along-ids s t [] [] h own_ids = refl
  Along-ids s t [] (op ∷ ops) h own_ids = absurd h
  Along-ids s t (x ∷ xs) [] h own_ids = absurd h
  Along-ids s t (x ∷ xs) (op ∷ ops) (next, ws, i, shown, h) ((k, e, full), own_ids) =
      rw (Identifies-own _ _ _ _ k i e full, Along-ids _ t xs ops h own_ids) refl

-- With ids of their own, the elements give them to their operators.
pub parse_plan_xml-ids :
    (lx : Lxml) {F : Type 0} ⦃fl : Float F⦄ (options : ParseOptions) (xml : String)
    (plan : IrPlan F) (xs : List Xml)
    → rel_ops_of lx xml ≡ ok xs
    → All HasId xs
    → parse_plan_xml lx options xml ≡ ok plan
    → map (λ op. some op.id) (walk plan.root_operator) ≡ map (attribute "NodeId") xs
parse_plan_xml-ids lx options xml plan xs all_ops own_ids e =
    let (parsed, last, along) = parse_plan_xml_in_order lx options xml plan e in
    let same : parsed.rel_op ∷ rel_ops_inside parsed.rel_op ≡ xs =
      ok-injective (sym (Parsed-rel_ops_of lx options xml plan parsed) ∙ all_ops) in
    Along-ids lx parsed.tree.total_cost options.plan_source start
      (record { next_id = last; warnings = plan.warnings }) xs (walk plan.root_operator)
      (rw (same) at along) own_ids

-- When `parse_plan_xml` returns for a document whose `RelOp`s all have ids of their own, pairwise
-- different, then the operators of the plan have these ids, in the order of the document, so that
-- an id stands for one operator.
pub parse_plan_xml-Distinct :
    (lx : Lxml) {F : Type 0} ⦃fl : Float F⦄ (options : ParseOptions) (xml : String)
    (plan : IrPlan F) (xs : List Xml)
    → rel_ops_of lx xml ≡ ok xs
    → All HasId xs
    → Distinct (map (attribute "NodeId") xs)
    → parse_plan_xml lx options xml ≡ ok plan
    → (map (λ op. some op.id) (walk plan.root_operator) ≡ map (attribute "NodeId") xs)
      × Distinct (map (λ op. op.id) (walk plan.root_operator))
parse_plan_xml-Distinct lx {F} options xml plan xs all_ops own_ids different e =
    let ids = parse_plan_xml-ids lx options xml plan xs all_ops own_ids e in
    (
      ids,
      Distinct-map (λ (op : OperatorInfo F). op.id) (λ (id : String). some id)
          (walk plan.root_operator) (rw ids different),
    )
