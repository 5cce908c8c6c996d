-- ===== src/Narration/OllamaClient/Request.antt =====
-- The request to the model's server, as a reader of JSON takes it.
use query_smith.Prelude.{String, ◌<>◌, ◌≡◌, refl}
use query_smith.Prelude.Outcome.{◌>>=◌}
use query_smith.Json.Dumps.{dumps_text}
use query_smith.Json.Dumps.Literal.{Quotes, dumps_text-Quotes}
use query_smith.Narration.OllamaClient.{
  Http, payload, or_request_failed, decode_body, generate_json_at, generate_json,
}
use query_smith.Text.{rstrip_by}

-- A JSON object whose model and prompt are these texts, which asks for JSON in one piece.
pub record Asks (prompt model body : String) : Type 0 where
  pub model_literal : String
  pub prompt_literal : String
  pub names : Quotes model model_literal
  pub prompts : Quotes prompt prompt_literal
  pub written :
      body
      ≡ "{\"model\": " <> model_literal <> ", \"prompt\": " <> prompt_literal
        <> ", \"format\": \"json\", \"stream\": false}"

payload-Asks : (prompt model : String) → Asks prompt model (payload prompt model)
unfolding payload
payload-Asks prompt model = record {
  model_literal = dumps_text model;
  prompt_literal = dumps_text prompt;
  names = dumps_text-Quotes model;
  prompts = dumps_text-Quotes prompt;
  written = refl;
}

-- Whatever the prompt and the model's name are, `generate_json` posts one body to the server's
-- generate endpoint and goes on from what that gives. The body is a JSON object whose fields "model"
-- and "prompt" are literals of just these two texts, character by character, so that no text ends its
-- field early, and whose other fields ask for JSON in one piece.
pub generate_json-Asks :
    (http : Http) (prompt model : String)
    → (body : String) × Asks prompt model body
      × (generate_json http prompt model ≡ (
          or_request_failed (http.post "http://localhost:11434/api/generate" body)
          >>= decode_body http))
unfolding generate_json generate_json_at rstrip_by
generate_json-Asks http prompt model = (payload prompt model, payload-Asks prompt model, refl)
