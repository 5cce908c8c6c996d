-- ===== src/Narration/Engine/Degraded.antt =====
-- When a narration is degraded, and what it holds then.
use query_smith.Prelude.{
  ℕ, suc, String, ◌<>◌, Bool, true, false, not, ◌||◌, List, [], ◌∷◌, map_enumerate, Option, none,
  some, any, is_some, ◌≡◌, refl, arith, All, ◌↔◌, if◌then◌else◌,
}
use query_smith.Prelude.Outcome.{ok, err, ollama_client_error, >>=-eq-ok}
use query_smith.Float.{Float}
use query_smith.Json.{Fields}
use query_smith.Rules.Finding.{Finding}
use query_smith.Narration.Models.{GenerateFn, PlanSummary, TextSource, FindingNarration, Narration}
use query_smith.Narration.Prompt.{build_prompt}
use query_smith.Narration.Response.{
  read_response, extract_explanations, extract_suggested_fixes, extract_texts, answer_list,
}
use query_smith.Narration.Engine.{
  fallback_explanation, fallback_overview, narrate_finding, is_model, overview_of, or_invalid,
  assemble, get_narration,
}
use query_smith.Narration.Engine.Laws.{Repeats}
use query_smith.Prelude.Pairs.{Pairs, Pairs-map_enumerate}

-- The flag says that no text of the narration is the model's, and the reason stands beside it
-- exactly then.
pub record IsHonest (n : Narration) : Type 0 where
  pub flag : (n.degraded ≡ true) ↔ (
      (n.overview_source ≡ TextSource.fallback)
      × All (λ fn. fn.explanation_source ≡ TextSource.fallback) n.findings)
  pub reason : is_some n.degraded_reason ≡ n.degraded

not-is_model : (s : TextSource) → (is_model s ≡ false) ↔ (s ≡ TextSource.fallback)
not-is_model s = ground arith

none_model :
    (ns : List FindingNarration)
    → (any (λ fn. is_model fn.explanation_source) ns ≡ false)
      ↔ All (λ fn. fn.explanation_source ≡ TextSource.fallback) ns
none_model [] = ground arith
none_model (n ∷ ns) = ground (arith, none_model ns)

flag_iff :
    (s : TextSource) (ns : List FindingNarration)
    → (not (is_model s || any (λ fn. is_model fn.explanation_source) ns) ≡ true)
      ↔ ((s ≡ TextSource.fallback) × All (λ fn. fn.explanation_source ≡ TextSource.fallback) ns)
flag_iff s ns = ground (arith, none_model ns)

reason_iff : (b : Bool) (r : Option String) → is_some (if b then none else or_invalid r) ≡ not b
reason_iff b r = ground arith

module _ {F : Type 0} ⦃fl : Float F⦄ (findings : List Finding) (plan_summary : PlanSummary F)
    (model : String) where
  assemble-IsHonest :
      (a : Option Fields × Option String) → IsHonest (assemble findings plan_summary model a)
  unfolding assemble
  assemble-IsHonest (raw, reason) = record { flag = flag_iff _ _; reason = reason_iff _ reason }

  -- When `get_narration` returns, the narration is marked as degraded exactly when neither the
  -- overview nor any explanation is the model's, and it has a reason exactly when it is degraded.
  pub get_narration-IsHonest :
      (client : GenerateFn) (n : Narration)
      → get_narration findings plan_summary model client ≡ ok n
      → IsHonest n
  unfolding get_narration
  get_narration-IsHonest client n e =
      let (a, answered, same) =
        >>=-eq-ok (read_response (client (build_prompt plan_summary findings) model))
          (λ a. ok (assemble findings plan_summary model a)) e in
      let made : assemble findings plan_summary model a ≡ n = cc same in
      rw made at (assemble-IsHonest a)

  -- Tier 0's own texts stand in for the model's.
  pub record IsStandIn (i : ℕ) (f : Finding) (fn : FindingNarration) : Type 0 where
    pub repeats : Repeats f fn
    pub explanation : fn.explanation ≡ fallback_explanation f
    pub credited : fn.explanation_source ≡ TextSource.fallback
    pub unfixed : fn.suggested_fix ≡ none

  narrate_finding-IsStandIn : (i : ℕ) (f : Finding) → IsStandIn i f (narrate_finding [] [] i f)
  unfolding narrate_finding
  narrate_finding-IsStandIn i f = record {
    repeats = record {
      rule_id = refl;
      severity = refl;
      operator_id = refl;
      summary = refl;
      detail = refl;
    };
    explanation = refl;
    credited = refl;
    unfixed = ground arith;
  }

  -- The result when the model cannot be reached.
  pub record IsOffline (message : String) (n : Narration) : Type 0 where
    pub degraded : n.degraded ≡ true
    pub reason : n.degraded_reason ≡ some ("client_error: " <> message)
    pub overview : n.overview ≡ fallback_overview plan_summary findings
    pub told : Pairs IsStandIn 0 findings n.findings

  none_told :
      (i : ℕ) (fs : List Finding)
      → any (λ fn. is_model fn.explanation_source) (map_enumerate (narrate_finding [] []) i fs)
        ≡ false
  unfolding narrate_finding
  none_told i [] = refl
  none_told i (f ∷ fs) = none_told (suc i) fs

  assemble-IsOffline :
      (message : String)
      → IsOffline message
          (assemble findings plan_summary model (none, some ("client_error: " <> message)))
  unfolding assemble extract_explanations extract_suggested_fixes extract_texts answer_list
      overview_of
  assemble-IsOffline message = record {
    degraded = rw (none_told 0 findings) refl;
    reason = rw (none_told 0 findings) refl;
    overview = refl;
    told =
        Pairs-map_enumerate IsStandIn (narrate_finding [] []) narrate_finding-IsStandIn 0 findings;
  }

  -- When the client raises `OllamaClientError`, `get_narration` still returns: a narration for each
  -- finding in order, made of Tier 0's own texts, marked as degraded with the client's message.
  pub get_narration-IsOffline :
      (client : GenerateFn) (message : String)
      → client (build_prompt plan_summary findings) model ≡ err (ollama_client_error message)
      → (n : Narration) × (get_narration findings plan_summary model client ≡ ok n)
        × IsOffline message n
  unfolding get_narration
  get_narration-IsOffline client message e = (_, rw e refl, assemble-IsOffline message)
