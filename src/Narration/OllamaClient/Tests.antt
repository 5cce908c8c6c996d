-- ===== src/Narration/OllamaClient/Tests.antt =====
-- `generate_json` against a server with one answer.
use query_smith.Prelude.{String, ◌≡◌, refl}
use query_smith.Prelude.Outcome.{◌>>=◌, ok}
use query_smith.Float.Sample.{cents_float}
use query_smith.Json.{obj}
use query_smith.Narration.FixEngine.Escapes.{Answers}
use query_smith.Narration.OllamaClient.Request.{Asks, generate_json-Asks}
use query_smith.Narration.OllamaClient.{or_request_failed, decode_body, generate_json}
use query_smith.Narration.OllamaClient.Laws.{generate_json-Answers}
use query_smith.Narration.OllamaClient.Sample.{server, loads-Decodes}
use query_smith.Narration.Sample.{fix_answer}

generate_json_test : generate_json server "p" "m" ≡ ok (obj (fix_answer "SELECT 1"))
unfolding generate_json
generate_json_test = refl

generate_json-Answers_example : Answers (generate_json server "p" "m")
generate_json-Answers_example =
    generate_json-Answers server loads-Decodes (λ url sent. tt)
      (λ url sent body h. loads-Decodes body) "p" "m"

generate_json-Asks_example :
    (body : String) × Asks "say \"}\"" "m" body
    × (generate_json server "say \"}\"" "m" ≡ (
        or_request_failed (server.post "http://localhost:11434/api/generate" body)
        >>= decode_body server))
generate_json-Asks_example = generate_json-Asks server "say \"}\"" "m"
