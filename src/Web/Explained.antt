-- ===== src/Web/Explained.antt =====
-- The findings of a query's response beside what the model said of them.
use query_smith.Prelude.{
  ℕ, ◌+◌, arith, String, List, Option, none, some, get_elem?, length, ◌≡◌, refl, if◌then◌else◌,
}
use query_smith.Prelude.Outcome.{ok}
use query_smith.Float.{Float}
use query_smith.Text.{truthy?}
use query_smith.Ir.Names.{severity_value}
use query_smith.Json.{Fields}
use query_smith.Rules.Finding.{Finding}
use query_smith.Narration.Models.{GenerateFn, PlanSummary, FindingNarration, Narration}
use query_smith.Narration.Prompt.{build_prompt}
use query_smith.Narration.Response.{read_response}
use query_smith.Narration.Engine.{get_narration}
use query_smith.Narration.Engine.Laws.{IsFaithful, get_narration-IsFaithful, said, explanation_of}
use query_smith.Prelude.Pairs.{Pairs-map_enumerate, Pairs-get_elem?}
use query_smith.Web.Schemas.{FindingItem}
use query_smith.Web.Replies.{finding_item, source_value, to_query_response}

-- Item `i` repeats the finding, Tier 0's fix included; it has an explanation, the model's if it
-- gave one and the fallback otherwise, labelled by its source; and the model's fix only where
-- Tier 0 has none.
pub record Explains (raw : Option Fields) (count i : ℕ) (f : Finding) (item : FindingItem)
    : Type 0 where
  pub rule_id : item.rule_id ≡ f.rule_id
  pub severity : item.severity ≡ severity_value f.severity
  pub operator_id : item.operator_id ≡ f.operator_id
  pub summary : item.summary ≡ f.summary
  pub detail : item.detail ≡ f.detail
  pub suggested_fix : item.suggested_fix ≡ f.suggested_fix
  pub explained : item.explanation ≡ some ((explanation_of (said "explanation" raw count i) f).0)
  pub credited :
      item.explanation_source
      ≡ some (source_value ((explanation_of (said "explanation" raw count i) f).1))
  pub model_fix :
      item.model_suggested_fix
      ≡ (if truthy? f.suggested_fix then none else said "suggested_fix" raw count i)

finding_item-Explains :
    (raw : Option Fields) (count i : ℕ) (f : Finding) (narration : Narration) (n : FindingNarration)
    → get_elem? narration.findings i ≡ some n
    → IsFaithful raw count i f n
    → Explains raw count i f (finding_item (some narration) i f)
finding_item-Explains raw count i f narration n at h = record {
  rule_id = refl;
  severity = refl;
  operator_id = refl;
  summary = refl;
  detail = refl;
  suggested_fix = refl;
  explained = rw (at, h.explained) refl;
  credited = rw (at, h.credited) refl;
  model_fix = rw at (h.fixed);
}

module _ {F : Type 0} ⦃fl : Float F⦄ (findings : List Finding) (plan_summary : PlanSummary F)
    (model : String) (client : GenerateFn) where
  -- When `get_narration` returns, item `i` of the response is about finding `i`, for every
  -- position: it repeats the finding, and it has what the answer holds for this index as
  -- explanation and fix, or the fallback.
  pub to_query_response-Explains :
      (narration : Narration)
      → get_narration findings plan_summary model client ≡ ok narration
      → (raw : Option Fields) × (reason : Option String) × (read_response
            (client (build_prompt plan_summary findings) model)
          ≡ ok (raw, reason))
        × ((i : ℕ) (f : Finding)
            → get_elem? findings i ≡ some f
            → (item : FindingItem) × (get_elem?
                  (to_query_response plan_summary findings (some narration)).findings
                  i
                ≡ some item)
              × Explains raw (length findings) i f item)
  unfolding to_query_response
  to_query_response-Explains narration e =
      let (raw, reason, answered, pairs) =
        get_narration-IsFaithful findings plan_summary model client narration e in
      (
        raw,
        reason,
        answered,
        λ i f at_i.
            let made = finding_item (some narration) in
            let zeroth : 0 + i ≡ i = omega arith in
            let (n, at_n, faithful) =
              Pairs-get_elem? _ 0 i findings narration.findings f pairs at_i in
            let (item, at_item, same) =
              Pairs-get_elem? (λ j g (item : FindingItem). item ≡ made j g) 0 i findings _ f
                (Pairs-map_enumerate _ made (λ j g. refl) 0 findings) at_i in
            (
              item,
              at_item,
              rw (same, zeroth)
                  (finding_item-Explains raw (length findings) i f narration n at_n
                    (rw zeroth at faithful)),
            ),
      )
