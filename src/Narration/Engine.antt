-- ===== src/Narration/Engine.antt =====
-- narration/engine.py: `get_narration`.
pub mod Laws
pub mod Degraded
mod Tests
use query_smith.Prelude.{
  ℕ, zero, suc, ◌+◌, String, ◌<>◌, Bool, true, false, not, ◌||◌, List, [], ◌∷◌, ◌++◌, map_enumerate,
  Option, none, some, any, length, select, is_empty, ◌==◌, if◌then◌else◌,
}
use query_smith.Prelude.Outcome.{Outcome, ok, ◌>>=◌}
use query_smith.Text.{truthy, truthy?, strip, join, lower}
use query_smith.Text.Numerals.{show_ℕ}
use query_smith.Float.{Float}
use query_smith.Json.{Fields, get, as_text}
use query_smith.Ir.{Severity}
use query_smith.Ir.Names.{severity_value}
use query_smith.Rules.Finding.{Finding, severity_order}
use query_smith.Narration.Models.{GenerateFn, PlanSummary, TextSource, FindingNarration, Narration}
use query_smith.Narration.Prompt.{build_prompt}
use query_smith.Narration.Response.{
  Texts, text_at, read_response, extract_explanations, extract_suggested_fixes,
}

unfoldable pub fallback_explanation : Finding → String
unfolding strip
fallback_explanation finding = strip (finding.summary <> ". " <> finding.detail)

-- `counts[s]`
abbrev pub count_severity : Severity → List Finding → ℕ
count_severity s findings =
    length (select (λ f. severity_order f.severity == severity_order s) findings)

abbrev count_part : Severity → List Finding → List String → List String
count_part s findings parts =
    let n = count_severity s findings in
    if n == 0 then parts else (show_ℕ n <> " " <> severity_value s) ∷ parts

module _ {F : Type 0} where
  subject : PlanSummary F → String
  unfolding lower
  subject plan_summary = elim plan_summary.object_name [
    | some name ↦
        if truthy name then name else "this " <> lower plan_summary.statement_type <> " statement"
    | none ↦ "this " <> lower plan_summary.statement_type <> " statement"
  ]

  unfoldable pub fallback_overview : PlanSummary F → List Finding → String
  unfolding subject join show_ℕ
  fallback_overview plan_summary findings =
      let parts =
        count_part Severity.critical findings
          (count_part Severity.warning findings (count_part Severity.info findings [])) in
      let counts_text = if is_empty parts then "no findings" else join ", " parts in
      "Automated narration was unavailable for this plan. Showing the rules engine's own findings for "
      <> subject plan_summary
      <> ": "
      <> counts_text
      <> "."

-- `model_explanation` if truthy, else the fallback; with its source
abbrev pub explain : Option String → Finding → String × TextSource
explain none finding = (fallback_explanation finding, TextSource.fallback)
explain (some s) finding =
    if truthy s then (s, TextSource.model) else (fallback_explanation finding, TextSource.fallback)

-- one round of the loop over `enumerate(findings)`
unfoldable pub narrate_finding : Texts → Texts → ℕ → Finding → FindingNarration
narrate_finding explanations model_fixes idx finding =
    let told = explain (text_at idx explanations) finding in
    record {
      rule_id = finding.rule_id;
      severity = finding.severity;
      operator_id = finding.operator_id;
      summary = finding.summary;
      detail = finding.detail;
      explanation = told.0;
      explanation_source = told.1;
      suggested_fix = if truthy? finding.suggested_fix then none else text_at idx model_fixes;
    }

abbrev pub is_model : TextSource → Bool
is_model TextSource.model = true
is_model TextSource.fallback = false

-- `raw.get("overview") if isinstance(raw, dict) else None`, where it is a text that is not blank
abbrev overview_text : Option String → Option String
overview_text none = none
overview_text (some s) = if truthy (strip s) then some (strip s) else none

unfoldable pub overview_of : Option Fields → Option String
unfolding get
overview_of none = none
overview_of (some raw) = overview_text (as_text (get "overview" raw))

abbrev pub or_fallback : Option String → String → String × TextSource
or_fallback none other = (other, TextSource.fallback)
or_fallback (some s) other = (s, TextSource.model)

abbrev pub or_invalid : Option String → Option String
or_invalid none = some "invalid_response_shape"
or_invalid (some reason) = some reason

module _ {F : Type 0} ⦃fl : Float F⦄ where
  -- The part of `get_narration` behind the call of the model.
  unfoldable pub assemble :
      List Finding → PlanSummary F → String → Option Fields × Option String → Narration
  unfolding narrate_finding overview_of extract_explanations extract_suggested_fixes
  assemble findings plan_summary model (raw, reason) =
      let explanations = extract_explanations raw (length findings) in
      let model_fixes = extract_suggested_fixes raw (length findings) in
      let finding_narrations =
        map_enumerate (narrate_finding explanations model_fixes) 0 findings in
      let overview = or_fallback (overview_of raw) (fallback_overview plan_summary findings) in
      let model_contributed =
        is_model overview.1 || any (λ fn. is_model fn.explanation_source) finding_narrations in
      record {
        overview = overview.0;
        overview_source = overview.1;
        findings = finding_narrations;
        degraded = not model_contributed;
        degraded_reason = if model_contributed then none else or_invalid reason;
        model_name = model;
      }

  unfoldable pub get_narration :
      List Finding → PlanSummary F → String → GenerateFn → Outcome Narration
  unfolding assemble
  get_narration findings plan_summary model client = do
    answer ← read_response (client (build_prompt plan_summary findings) model)
    ok (assemble findings plan_summary model answer)
