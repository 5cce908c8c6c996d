-- ===== src/Narration/FixEngine.antt =====
-- narration/fix_engine.py: `propose_fixes`.
mod Valid
pub mod Safe
pub mod Escapes
mod Tests
use query_smith.Prelude.{
  ℕ, zero, suc, String, Bool, true, false, not, ◌||◌, List, [], ◌∷◌, ◌++◌, Option, none, some,
  is_some, length, ltb, if◌then◌else◌,
}
use query_smith.Prelude.Int.{ℤ, pos, negsuc}
use query_smith.Prelude.Outcome.{Outcome, ok, err, ◌>>=◌, query_validation_error}
use query_smith.Text.{truthy?, strip}
use query_smith.Float.{Float}
use query_smith.Json.{Json, Fields}
use query_smith.Rules.Finding.{Finding}
use query_smith.Db.QuerySafety.{Sqlglot, validate_select_only, validate_create_index_only}
use query_smith.Narration.Models.{GenerateFn, PlanSummary, FindingFix, FixProposal}
use query_smith.Narration.Prompt.{build_fix_prompt}
use query_smith.Narration.Response.{Texts, text_at, read_response, answer_list, entry}

module _ (validator : String → Outcome String) (num_findings : ℕ) where
  -- `except QueryValidationError: continue`
  abbrev pub keep : ℕ → String → Texts → Outcome String → Outcome Texts
  keep i text result (ok _) = ok (result ++ (i, text) ∷ [])
  keep i text result (err (query_validation_error _)) = ok result
  keep i text result (err e) = err e

  -- one round of the loop of `_extract_field`
  unfoldable pub add_valid : Texts → Option (ℤ × String) → Outcome Texts
  add_valid result none = ok result
  add_valid result (some (negsuc n, value)) = ok result
  add_valid result (some (pos i, value)) =
      if not (ltb i num_findings)
      then ok result
      else if is_some (text_at i result)
      then ok result
      else keep i (strip value) result (validator (strip value))

  unfoldable pub collect_valid : String → Texts → List Json → Outcome Texts
  unfolding add_valid
  collect_valid key result [] = ok result
  collect_valid key result (item ∷ items) =
      add_valid result (entry key item) >>= λ result. collect_valid key result items

  abbrev pub collect_valid_listed : String → Option (List Json) → Outcome Texts
  collect_valid_listed key none = ok []
  collect_valid_listed key (some items) = collect_valid key [] items

  -- `_extract_field`
  unfoldable pub extract_field : Option Fields → String → Outcome Texts
  unfolding collect_valid answer_list
  extract_field raw key = collect_valid_listed key (answer_list "fixes" raw)

-- The loop of `propose_fixes` over `enumerate(findings)`.
unfoldable pub fixes_from : Texts → Texts → ℕ → List Finding → List FindingFix
fixes_from rewrites index_scripts idx [] = []
fixes_from rewrites index_scripts idx (finding ∷ findings) =
    let rest = fixes_from rewrites index_scripts (suc idx) findings in
    let rewritten_query = text_at idx rewrites in
    let index_script = text_at idx index_scripts in
    if truthy? finding.suggested_fix
    then rest
    else if truthy? rewritten_query || truthy? index_script
    then record {
      finding_index = idx;
      rewritten_query = rewritten_query;
      index_script = index_script;
    }
      ∷ rest
    else rest

module _ (sg : Sqlglot) where
  -- The part of `propose_fixes` behind the call of the model.
  unfoldable pub draft : List Finding → String → Option Fields × Option String → Outcome FixProposal
  unfolding extract_field fixes_from
  draft findings model (raw, reason) = do
    rewrites ← extract_field (validate_select_only sg) (length findings) raw "rewritten_query"
    index_scripts ←
        extract_field (validate_create_index_only sg) (length findings) raw "index_script"
    ok (record {
      fixes = fixes_from rewrites index_scripts 0 findings;
      degraded = not (is_some raw);
      degraded_reason = if is_some raw then none else reason;
      model_name = model;
    })

module _ {F : Type 0} ⦃fl : Float F⦄ (sg : Sqlglot) where
  unfoldable pub propose_fixes :
      List Finding → PlanSummary F → String → GenerateFn → Outcome FixProposal
  unfolding draft
  propose_fixes findings plan_summary model client = do
    answer ← read_response (client (build_fix_prompt plan_summary findings) model)
    draft sg findings model answer
