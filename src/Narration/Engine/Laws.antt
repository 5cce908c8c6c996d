-- ===== src/Narration/Engine/Laws.antt =====
-- What `get_narration` promises whatever the model answers.
use query_smith.Prelude.{
  ℕ, String, List, Option, none, some, length, ◌≡◌, refl, ap, inl, inr, Bool-cases, ltb,
  if◌then◌else◌, ◌∙◌,
}
use query_smith.Prelude.Pairs.{Pairs, Pairs-map_enumerate}
use query_smith.Prelude.Outcome.{Outcome, ok, >>=-eq-ok}
use query_smith.Text.{truthy?}
use query_smith.Float.{Float}
use query_smith.Json.{Fields}
use query_smith.Rules.Finding.{Finding}
use query_smith.Narration.Models.{GenerateFn, PlanSummary, TextSource, FindingNarration, Narration}
use query_smith.Narration.Prompt.{build_prompt}
use query_smith.Narration.Response.{
  read_response, answer_list, extract_explanations, extract_suggested_fixes,
}
use query_smith.Narration.Response.Laws.{
  first_text, listed, text_at-extract_texts, Usable, first_text-Usable,
}
use query_smith.Narration.Engine.{
  fallback_explanation, explain, narrate_finding, assemble, get_narration,
}

-- The narration repeats the finding.
pub record Repeats (f : Finding) (n : FindingNarration) : Type 0 where
  pub rule_id : n.rule_id ≡ f.rule_id
  pub severity : n.severity ≡ f.severity
  pub operator_id : n.operator_id ≡ f.operator_id
  pub summary : n.summary ≡ f.summary
  pub detail : n.detail ≡ f.detail

-- What the model said of finding `i` under a key, if it said something usable.
abbrev pub said : String → Option Fields → ℕ → ℕ → Option String
said key raw n i = if ltb i n then first_text key i (listed (answer_list "findings" raw)) else none

-- The model's explanation, or the fallback.
abbrev pub explanation_of : Option String → Finding → String × TextSource
explanation_of none f = (fallback_explanation f, TextSource.fallback)
explanation_of (some s) f = (s, TextSource.model)

-- Narration `n` of finding `i` repeats it; the explanation is the model's if it gave one, and the
-- fallback otherwise; the fix is the model's only if Tier 0 had none.
pub record IsFaithful (raw : Option Fields) (count i : ℕ) (f : Finding) (n : FindingNarration)
    : Type 0 where
  pub repeats : Repeats f n
  pub explained : n.explanation ≡ (explanation_of (said "explanation" raw count i) f).0
  pub credited : n.explanation_source ≡ (explanation_of (said "explanation" raw count i) f).1
  pub fixed :
      n.suggested_fix ≡ (if truthy? f.suggested_fix then none else said "suggested_fix" raw count i)

said-Usable : (key : String) (raw : Option Fields) (n i : ℕ) → Usable (said key raw n i)
said-Usable key raw n i = elim (Bool-cases (ltb i n)) [
  | inl e ↦ rw e (first_text-Usable key i (listed (answer_list "findings" raw)))
  | inr e ↦ rw e tt
]

explain-Usable : (o : Option String) (f : Finding) → Usable o → explain o f ≡ explanation_of o f
explain-Usable none f h = refl
explain-Usable (some s) f h = rw h refl

narrate_finding-IsFaithful :
    (raw : Option Fields) (count i : ℕ) (f : Finding)
    → IsFaithful raw count i f
        (narrate_finding (extract_explanations raw count) (extract_suggested_fixes raw count) i f)
unfolding narrate_finding extract_explanations extract_suggested_fixes
narrate_finding-IsFaithful raw count i f =
    let told =
      ap (λ (o : Option String). explain o f) (text_at-extract_texts "explanation" raw count i)
      ∙ explain-Usable (said "explanation" raw count i) f (said-Usable "explanation" raw count i) in
    record {
      repeats = record {
        rule_id = refl;
        severity = refl;
        operator_id = refl;
        summary = refl;
        detail = refl;
      };
      explained = ap (λ (t : String × TextSource). t.0) told;
      credited = ap (λ (t : String × TextSource). t.1) told;
      fixed =
          ap (λ (o : Option String). if truthy? f.suggested_fix then none else o)
            (text_at-extract_texts "suggested_fix" raw count i);
    }

module _ {F : Type 0} ⦃fl : Float F⦄ (findings : List Finding) (plan_summary : PlanSummary F)
    (model : String) (client : GenerateFn) where
  abbrev answer : Outcome (Option Fields × Option String)
  answer = read_response (client (build_prompt plan_summary findings) model)

  -- When `get_narration` returns, its narrations are those of the findings, one for each, in the
  -- same order, and each is faithful to its finding and to what the answer holds for its index.
  pub get_narration-IsFaithful :
      (n : Narration)
      → get_narration findings plan_summary model client ≡ ok n
      → (raw : Option Fields) × (reason : Option String) × (answer ≡ ok (raw, reason))
        × Pairs (IsFaithful raw (length findings)) 0 findings n.findings
  unfolding get_narration
  get_narration-IsFaithful n e =
      let ((raw, reason), answered, same) =
        >>=-eq-ok answer (λ a. ok (assemble findings plan_summary model a)) e in
      let made : assemble findings plan_summary model (raw, reason) ≡ n = cc same in
      (
        raw,
        reason,
        answered,
        rw (← made) (
            Pairs-map_enumerate (IsFaithful raw (length findings)) _
              (narrate_finding-IsFaithful raw (length findings)) 0 findings),
      )
