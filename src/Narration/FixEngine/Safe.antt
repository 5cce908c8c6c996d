-- ===== src/Narration/FixEngine/Safe.antt =====
-- What `propose_fixes` lets through.
use query_smith.Prelude.{
  ℕ, suc, ◌+◌, ◌≤◌, String, true, false, ◌||◌, List, [], ◌∷◌, Option, some, length, ◌≡◌, refl,
  arith, All, get_elem?, Bool-cases, inl, inr, ap,
}
use query_smith.Prelude.Outcome.{Outcome, ok, err, >>=-eq-ok}
use query_smith.Text.{truthy?}
use query_smith.Float.{Float}
use query_smith.Json.{Fields}
use query_smith.Rules.Finding.{Finding}
use query_smith.Db.QuerySafety.{
  Sqlglot, creates_index, validate_select_only, validate_create_index_only,
}
use query_smith.Db.QuerySafety.Laws.{
  IsSingle, validate_select_only-ok, validate_create_index_only-ok,
}
use query_smith.Narration.Models.{GenerateFn, PlanSummary, FindingFix, FixProposal}
use query_smith.Narration.Prompt.{build_fix_prompt}
use query_smith.Narration.Response.{Texts, text_at, read_response}
use query_smith.Narration.FixEngine.{extract_field, fixes_from, draft, propose_fixes}
use query_smith.Narration.FixEngine.Valid.{
  OnSome, AllTexts, text_at-AllTexts, extract_field-AllTexts,
}

-- A fix that may be shown: its finding has no fix of its own, each text it carries is a single
-- statement of the kind allowed, and it carries one at least.
pub record IsSafeFix (sg : Sqlglot) (findings : List Finding) (fix : FindingFix) : Type 0 where
  pub finding : Finding
  pub found : get_elem? findings fix.finding_index ≡ some finding
  pub unsolved : truthy? finding.suggested_fix ≡ false
  pub query : OnSome (IsSingle sg sg.is_select) fix.rewritten_query
  pub script : OnSome (IsSingle sg (creates_index sg)) fix.index_script
  pub proposed : (truthy? fix.rewritten_query || truthy? fix.index_script) ≡ true

-- The indices of the fixes increase, from the bound on.
abbrev pub Increasing : ℕ → List FindingFix → Type 0
Increasing n [] = Unit
Increasing n (fix ∷ fixes) = (n ≤ fix.finding_index) × Increasing (suc fix.finding_index) fixes

Increasing-weaken :
    (fixes : List FindingFix) (m n : ℕ) → m ≤ n → Increasing n fixes → Increasing m fixes
Increasing-weaken [] m n h k = tt
Increasing-weaken (fix ∷ fixes) m n h k = (omega arith, k.1)

fixes_from-Increasing :
    (rewrites scripts : Texts) (idx : ℕ) (findings : List Finding)
    → Increasing idx (fixes_from rewrites scripts idx findings)
unfolding fixes_from
fixes_from-Increasing rewrites scripts idx [] = tt
fixes_from-Increasing rewrites scripts idx (finding ∷ findings) =
    let rest = fixes_from-Increasing rewrites scripts (suc idx) findings in
    let later = Increasing-weaken _ idx (suc idx) (omega arith) rest in
    elim (Bool-cases (truthy? finding.suggested_fix)) [
      | inl t ↦ rw t later
      | inr u ↦
          elim (Bool-cases (truthy? (text_at idx rewrites) || truthy? (text_at idx scripts))) [
            | inl p ↦ rw (u, p) (omega arith, rest)
            | inr p ↦ rw (u, p) later
          ]
    ]

shift :
    (findings rest : List Finding) (finding : Finding) (idx j : ℕ)
    → get_elem? findings (suc j + idx) ≡ get_elem? (finding ∷ rest) (suc j)
    → get_elem? findings (j + suc idx) ≡ get_elem? rest j
shift findings rest finding idx j h = let e : j + suc idx ≡ suc j + idx = omega arith in rw e h

module _ (sg : Sqlglot) (findings : List Finding) (rewrites scripts : Texts)
    (queries : AllTexts (IsSingle sg sg.is_select) rewrites)
    (indexes : AllTexts (IsSingle sg (creates_index sg)) scripts) where
  fixes_from-AllSafe :
      (idx : ℕ) (rest : List Finding)
      → ((j : ℕ) → get_elem? findings (j + idx) ≡ get_elem? rest j)
      → All (IsSafeFix sg findings) (fixes_from rewrites scripts idx rest)
  unfolding fixes_from
  fixes_from-AllSafe idx [] same = tt
  fixes_from-AllSafe idx (finding ∷ rest) same =
      let later =
        fixes_from-AllSafe (suc idx) rest (λ j. shift findings rest finding idx j (same (suc j))) in
      elim (Bool-cases (truthy? finding.suggested_fix)) [
        | inl t ↦ rw t later
        | inr u ↦
            elim (Bool-cases (truthy? (text_at idx rewrites) || truthy? (text_at idx scripts))) [
              | inl p ↦
                  rw (u, p)
                    (
                      record {
                        finding = finding;
                        found = (let e : 0 + idx ≡ idx = omega arith in rw e at (same 0));
                        unsolved = u;
                        query = text_at-AllTexts (IsSingle sg sg.is_select) idx rewrites queries;
                        script =
                            text_at-AllTexts (IsSingle sg (creates_index sg)) idx scripts indexes;
                        proposed = p;
                      },
                      later,
                    )
              | inr p ↦ rw (u, p) later
            ]
      ]

module _ {F : Type 0} ⦃fl : Float F⦄ (sg : Sqlglot) (findings : List Finding)
    (plan_summary : PlanSummary F) (model : String) (client : GenerateFn) where
  draft-IsSafe :
      (answer : Option Fields × Option String) (proposal : FixProposal)
      → draft sg findings model answer ≡ ok proposal
      → All (IsSafeFix sg findings) proposal.fixes × Increasing 0 proposal.fixes
  unfolding draft
  draft-IsSafe (raw, reason) proposal e =
      let (rewrites, queries, e') =
        >>=-eq-ok (extract_field (validate_select_only sg) (length findings) raw "rewritten_query")
          _ e in
      let (scripts, indexes, made) =
        >>=-eq-ok
          (extract_field (validate_create_index_only sg) (length findings) raw "index_script") _
          e' in
      let same : fixes_from rewrites scripts 0 findings ≡ proposal.fixes =
        ap (λ (o : Outcome FixProposal). elim o [ ok p ↦ p.fixes | err x ↦ [] ]) made in
      let select_all =
        extract_field-AllTexts (IsSingle sg sg.is_select) (validate_select_only sg)
          (λ s r h. (validate_select_only-ok sg s r h).1) (length findings) raw "rewritten_query"
          rewrites queries in
      let index_all =
        extract_field-AllTexts (IsSingle sg (creates_index sg)) (validate_create_index_only sg)
          (λ s r h. (validate_create_index_only-ok sg s r h).1) (length findings) raw "index_script"
          scripts indexes in
      rw (← same) (
        fixes_from-AllSafe sg findings rewrites scripts select_all index_all 0 findings
            (λ j. let e : j + 0 ≡ j = omega arith in rw e refl),
        fixes_from-Increasing rewrites scripts 0 findings,
      )

  -- Whatever the model answers, each fix that `propose_fixes` returns belongs to a finding without
  -- a fix of its own, carries a text, and each text it carries is a single SELECT, or a single
  -- CREATE INDEX for the script; no finding has two fixes, and they stand in the findings' order.
  pub propose_fixes-IsSafe :
      (proposal : FixProposal)
      → propose_fixes sg findings plan_summary model client ≡ ok proposal
      → All (IsSafeFix sg findings) proposal.fixes × Increasing 0 proposal.fixes
  unfolding propose_fixes
  propose_fixes-IsSafe proposal e =
      let (answer, answered, drafted) =
        >>=-eq-ok (read_response (client (build_fix_prompt plan_summary findings) model)) _ e in
      draft-IsSafe answer proposal drafted
