-- ===== src/Narration/OllamaClient.antt =====
-- narration/ollama_client.py: `generate_json`, with the default server and its timeout.
pub mod Laws
pub mod Request
pub mod Sample
mod Tests
use Prim.Native.Char.{code}
use query_smith.Prelude.{ℕ, String, ◌<>◌, true, false, Option, none, some, ◌==◌}
use query_smith.Prelude.Outcome.{
  Outcome, ok, err, ◌>>=◌, http_error, os_error, json_decode_error, ollama_client_error,
}
use query_smith.Text.{rstrip_by}
use query_smith.Text.Numerals.{show_ℕ}
use query_smith.Json.{Json, bool, str, obj, field, end, get, as_text}
use query_smith.Json.Dumps.{dumps_text}
use query_smith.Narration.Models.{GenerateFn}

pub record Http : Type 0 where
  -- opening a POST request to a URL with a payload, and reading the response's body
  pub post : String → String → Outcome String
  -- `json.loads` of a body, which is bytes, and of a `str`
  pub loads_body : String → Outcome Json
  pub loads : String → Outcome Json

abbrev pub default_base_url : String
default_base_url = "http://localhost:11434"

-- `f"{base_url.rstrip('/')}/api/generate"`
abbrev pub generate_url : String → String
generate_url base_url = rstrip_by (λ c. code c == 47) base_url <> "/api/generate"

-- `json.dumps` of the request
pub payload : String → String → String
unfolding dumps_text
payload prompt model =
    "{\"model\": "
    <> dumps_text model
    <> ", \"prompt\": "
    <> dumps_text prompt
    <> ", \"format\": \"json\", \"stream\": false}"

-- the two `except` clauses of the request
abbrev pub or_request_failed : Outcome String → Outcome String
or_request_failed (err (http_error status)) =
    err (ollama_client_error ("Ollama returned HTTP " <> show_ℕ status))
or_request_failed (err (os_error message)) =
    err (ollama_client_error ("Ollama request failed: " <> message))
or_request_failed r = r

-- `except json.JSONDecodeError`
abbrev pub or_undecoded : String → Outcome Json → Outcome Json
or_undecoded context (err (json_decode_error message)) =
    err (ollama_client_error (context <> message))
or_undecoded context r = r

-- `envelope.get("response") if isinstance(envelope, dict) else None`, as a text
abbrev pub response_text : Json → Option String
response_text (obj envelope) = as_text (get "response" envelope)
response_text _ = none

abbrev pub required_text : Option String → Outcome String
required_text none =
    err (ollama_client_error "Ollama response envelope missing string 'response' field")
required_text (some text) = ok text

module _ (http : Http) where
  -- What follows the request.
  unfoldable pub decode_body : String → Outcome Json
  unfolding get
  decode_body body = do
    envelope ← or_undecoded "Ollama response envelope was not valid JSON: " (http.loads_body body)
    inner_text ← required_text (response_text envelope)
    or_undecoded "Model response was not valid JSON despite format=json: " (http.loads inner_text)

  unfoldable pub generate_json_at : String → GenerateFn
  unfolding decode_body rstrip_by payload show_ℕ
  generate_json_at base_url prompt model = do
    body ← or_request_failed (http.post (generate_url base_url) (payload prompt model))
    decode_body body

  unfoldable pub generate_json : GenerateFn
  unfolding generate_json_at
  generate_json = generate_json_at default_base_url
