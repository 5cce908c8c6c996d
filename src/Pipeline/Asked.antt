-- ===== src/Pipeline/Asked.antt =====
-- From a missing index of the document to its finding.
use query_smith.Prelude.{String, List, Option, none, some, ◌≡◌, refl, sym, ap, ◌∙◌, Any}
use mathlib.Core.Path.{subst}
use mathlib.Core.Option.{some-injective}
use query_smith.Prelude.Outcome.{ok, ok-injective}
use query_smith.Prelude.Collect.{In}
use query_smith.Float.{Float}
use query_smith.Ir.{MissingIndex, IrPlan}
use query_smith.Rules.Finding.{Finding}
use query_smith.Rules.Script.{missing_index_script}
use query_smith.Rules.Engine.{evaluate, check_missing_index}
use query_smith.Rules.Due.{HasImpact}
use query_smith.Rules.Coverage.Complete.{evaluate-Any-index}
use query_smith.Rules.Coverage.Sound.{impact_severity-HasImpact}
use query_smith.Adapter.Xml.{Xml, Lxml}
use query_smith.Adapter.Counters.{get_float}
use query_smith.Adapter.Build.{ParseOptions, parse_plan_xml}
use query_smith.Adapter.MissingIndexes.Laws.{
  Asks, groups_of, AsksOf, AsksOf-In, parse_plan_xml-AsksOf,
}

module _ (lx : Lxml) {F : Type 0} ⦃fl : Float F⦄ where
  -- The finding for an element whose group has the impact: it is about no operator, and it suggests
  -- the index that the element asks for.
  pub record Suggests (impact : Option F) (mi : Xml) (f : Finding) : Type 0 where
    pub index : MissingIndex F
    pub asked : Asks lx impact mi index
    pub rule : f.rule_id ≡ "missing_index_available"
    pub ranked : HasImpact impact f.severity
    pub unplaced : f.operator_id ≡ none
    pub script : f.suggested_fix ≡ some (missing_index_script index)

  check_missing_index-Suggests :
      (plan : IrPlan F) (impact : Option F) (mi : Xml) (index : MissingIndex F)
      → Asks lx impact mi index
      → Suggests impact mi (check_missing_index index)
  unfolding check_missing_index
  check_missing_index-Suggests plan impact mi index asked = record {
    index = index;
    asked = asked;
    rule = refl;
    ranked = rw (← asked.impact_of) (impact_severity-HasImpact plan index.estimated_impact);
    unplaced = refl;
    script = refl;
  }

  -- If the statement's query plan has a group of missing indexes with an element for an index, then
  -- the analysis of the document reports it: once `parse_plan_xml` and `evaluate` return, the
  -- group's impact reads, and there is a finding about no operator, of the severity that the impact
  -- calls for, whose suggested fix is the script for the element's table and columns.
  pub evaluate-Suggests :
      (options : ParseOptions) (xml : String) (root stmt query_plan group mi : Xml)
      (plan : IrPlan F) (findings : List Finding)
      → lx.fromstring xml ≡ ok root
      → lx.find ".//sp:StmtSimple" root ≡ some stmt
      → lx.find "sp:QueryPlan" stmt ≡ some query_plan
      → In group (groups_of lx (lx.find "sp:MissingIndexes" query_plan))
      → In mi (lx.findall "sp:MissingIndex" group)
      → parse_plan_xml lx options xml ≡ ok plan
      → evaluate plan ≡ ok findings
      → (impact : Option F) × (get_float lx "Impact" group ≡ ok impact)
        × Any (Suggests impact mi) findings
  evaluate-Suggests options xml root stmt query_plan group mi plan findings read a b in_plan
        in_group e f =
      let (parsed, listed) = parse_plan_xml-AsksOf lx options xml plan e in
      let same_root : parsed.root ≡ root = ok-injective (sym parsed.read ∙ read) in
      let same_stmt : parsed.stmt ≡ stmt =
        some-injective _ _ (sym parsed.is_stmt ∙ ap (lx.find ".//sp:StmtSimple") same_root ∙ a) in
      let same_plan : parsed.query_plan ≡ query_plan =
        some-injective _ _ (sym parsed.is_query_plan ∙ ap (lx.find "sp:QueryPlan") same_stmt ∙ b) in
      let (impact, index, reads, asked, within) =
        AsksOf-In lx (groups_of lx (lx.find "sp:MissingIndexes" query_plan)) plan.missing_indexes
          group mi
          (subst
            (λ x. AsksOf lx (groups_of lx (lx.find "sp:MissingIndexes" x)) plan.missing_indexes)
            same_plan listed)
          in_plan in_group in
      (
        impact,
        reads,
        evaluate-Any-index plan (Suggests impact mi) index findings within
            (check_missing_index-Suggests plan impact mi index asked) f,
      )
