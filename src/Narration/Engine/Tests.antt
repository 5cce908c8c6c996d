-- ===== src/Narration/Engine/Tests.antt =====
-- `get_narration` on the answers of Narration/Sample.
use query_smith.Prelude.{String, [], ◌∷◌, map, Option, none, some, ◌≡◌, refl}
use query_smith.Prelude.Outcome.{ok}
use query_smith.Float.Sample.{cents_float}
use query_smith.Json.{Fields}
use query_smith.Narration.Models.{Narration}
use query_smith.Narration.Response.{read_response, collect_texts}
use query_smith.Text.{strip}
use query_smith.Narration.Prompt.{build_prompt}
use query_smith.Narration.Engine.{assemble, fallback_explanation, get_narration}
use query_smith.Narration.Engine.Laws.{IsFaithful, get_narration-IsFaithful}
use query_smith.Prelude.Pairs.{Pairs}
use query_smith.Narration.Engine.Degraded.{IsHonest, get_narration-IsHonest}
use query_smith.Narration.Sample.{two_findings, summary, answer, telling}

abbrev narration : Narration
narration = assemble two_findings summary "m" (some answer, none)

get_narration_runs : get_narration two_findings summary "m" telling ≡ ok narration
unfolding get_narration
get_narration_runs = refl

narration_test :
    map (λ n. n.explanation) narration.findings
    ≡ "It reads all rows." ∷ "Missing index. An index on Orders" ∷ []
unfolding assemble collect_texts strip fallback_explanation
narration_test = refl

fixes_test : map (λ n. n.suggested_fix) narration.findings ≡ some "Add a filter." ∷ none ∷ []
unfolding assemble collect_texts strip
fixes_test = refl

get_narration-IsFaithful_example :
    (raw : Option Fields) × (reason : Option String) × (read_response
        (telling (build_prompt summary two_findings) "m")
      ≡ ok (raw, reason))
    × Pairs (IsFaithful raw 2) 0 two_findings narration.findings
get_narration-IsFaithful_example =
    get_narration-IsFaithful two_findings summary "m" telling narration get_narration_runs

get_narration-IsHonest_example : IsHonest narration
get_narration-IsHonest_example =
    get_narration-IsHonest two_findings summary "m" telling narration get_narration_runs
