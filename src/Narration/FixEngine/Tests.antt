-- ===== src/Narration/FixEngine/Tests.antt =====
-- `propose_fixes` on the answers of Narration/Sample.
use query_smith.Prelude.{Option, String, arith, false, [], ◌∷◌, none, some, ◌≡◌, refl, All}
use query_smith.Prelude.Int.{pos}
use query_smith.Prelude.Outcome.{ok, err, token_error}
use query_smith.Json.{Fields}
use query_smith.Narration.Prompt.{build_fix_prompt}
use query_smith.Float.Sample.{cents_float}
use query_smith.Db.QuerySafety.{validate_select_only, validate_create_index_only}
use query_smith.Text.{strip}
use query_smith.Narration.Response.{read_response, entry, answer_list}
use query_smith.Db.Sample.{sqlglot, tokenless}
use query_smith.Narration.Models.{FixProposal}
use query_smith.Narration.FixEngine.{propose_fixes}
use query_smith.Narration.FixEngine.Safe.{IsSafeFix, Increasing, propose_fixes-IsSafe}
use query_smith.Narration.FixEngine.Escapes.{
  Ends, Proposes, propose_fixes-Ends, propose_fixes-token_error,
}
use query_smith.Narration.Sample.{two_findings, summary, entry_for, fix_answer, fixing}

abbrev proposal : FixProposal
proposal = record {
  fixes = record { finding_index = 0; rewritten_query = some "SELECT 1"; index_script = none } ∷ [];
  degraded = false;
  degraded_reason = none;
  model_name = "m";
}

propose_fixes_runs :
    propose_fixes sqlglot two_findings summary "m" (fixing " SELECT 1 ") ≡ ok proposal
unfolding propose_fixes entry strip validate_select_only validate_create_index_only
propose_fixes_runs = refl

propose_fixes-IsSafe_example :
    All (IsSafeFix sqlglot two_findings) proposal.fixes × Increasing 0 proposal.fixes
propose_fixes-IsSafe_example =
    propose_fixes-IsSafe sqlglot two_findings summary "m" (fixing " SELECT 1 ") proposal
      propose_fixes_runs

propose_fixes-Ends_example :
    (raw : Option Fields) × (reason : Option String) × (read_response
        (fixing " SELECT 1 " (build_fix_prompt summary two_findings) "m")
      ≡ ok (raw, reason))
    × Ends sqlglot
        (Proposes raw)
        (propose_fixes sqlglot two_findings summary "m" (fixing " SELECT 1 "))
propose_fixes-Ends_example =
    propose_fixes-Ends sqlglot two_findings summary "m" (fixing " SELECT 1 ") tt

propose_fixes-token_error_example :
    propose_fixes tokenless two_findings summary "m" (fixing "it's")
    ≡ err (token_error "Missing quote")
unfolding answer_list entry strip
propose_fixes-token_error_example =
    propose_fixes-token_error tokenless two_findings summary "m" (fixing "it's") (fix_answer "it's")
      (entry_for (pos 0) "rewritten_query" "it's")
      (entry_for (pos 0) "index_script" "DROP TABLE Orders"
        ∷ entry_for (pos 1) "index_script" "CREATE INDEX j"
        ∷ [])
      0 "it's" "Missing quote" refl refl refl (omega arith) refl refl
