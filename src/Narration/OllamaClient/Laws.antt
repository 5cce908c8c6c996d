-- ===== src/Narration/OllamaClient/Laws.antt =====
-- What `generate_json` raises.
use query_smith.Prelude.{String, Option, none, some, ◌≡◌, refl}
use query_smith.Prelude.Outcome.{
  Exn, Outcome, ok, err, ◌>>=◌, http_error, os_error, json_decode_error,
}
use query_smith.Json.{Json}
use query_smith.Narration.FixEngine.Escapes.{Answers}
use query_smith.Narration.OllamaClient.{
  Http, or_request_failed, or_undecoded, response_text, required_text, decode_body,
  generate_json_at, generate_json,
}

-- The request gives a body, or fails with `HTTPError` or another `OSError`.
abbrev pub Responds : Outcome String → Type 0
Responds (ok body) = Unit
Responds (err (http_error status)) = Unit
Responds (err (os_error message)) = Unit
Responds (err e) = ⊥

-- The text is decoded, or refused with `JSONDecodeError`.
abbrev pub Decodes : Outcome Json → Type 0
Decodes (ok value) = Unit
Decodes (err (json_decode_error message)) = Unit
Decodes (err e) = ⊥

or_undecoded-Answers :
    (context : String) (r : Outcome Json) → Decodes r → Answers (or_undecoded context r)
or_undecoded-Answers context (ok value) h = tt
or_undecoded-Answers context (err (json_decode_error message)) h = tt
or_undecoded-Answers context (err e) h = absurd h

bind-Answers :
    {A : Type 0} (r : Outcome A) (rest : A → Outcome Json)
    → ((e : Exn) → r ≡ err e → Answers (err e))
    → ((a : A) → Answers (rest a))
    → Answers (r >>= rest)
bind-Answers (ok a) rest failing returning = returning a
bind-Answers (err e) rest failing returning = failing e refl

module _ (http : Http) (decodes : (s : String) → Decodes (http.loads s)) where
  decoded-Answers : (context s : String) → Answers (or_undecoded context (http.loads s))
  decoded-Answers context s = or_undecoded-Answers context (http.loads s) (decodes s)

  required_text-Answers :
      (o : Option String)
      → Answers (
          required_text o >>= λ text.
          or_undecoded "Model response was not valid JSON despite format=json: " (http.loads text))
  required_text-Answers none = tt
  required_text-Answers (some text) = decoded-Answers _ text

  decode_body-Answers :
      (body : String) → Decodes (http.loads_body body) → Answers (decode_body http body)
  unfolding decode_body
  decode_body-Answers body h =
      let context : String = "Ollama response envelope was not valid JSON: " in
      bind-Answers (or_undecoded context (http.loads_body body)) _
        (λ e k. rw k at (or_undecoded-Answers context (http.loads_body body) h))
        (λ envelope. required_text-Answers (response_text envelope))

  requested-Answers :
      (r : Outcome String)
      → Responds r
      → ((body : String) → r ≡ ok body → Decodes (http.loads_body body))
      → Answers (or_request_failed r >>= decode_body http)
  requested-Answers (ok body) h readable = decode_body-Answers body (readable body refl)
  requested-Answers (err (http_error status)) h readable = tt
  requested-Answers (err (os_error message)) h readable = tt
  requested-Answers (err e) h readable = absurd h

  -- If every request gives a body that decodes or fails with `JSONDecodeError`, or itself fails with
  -- an `OSError`, and every text decodes or fails with `JSONDecodeError`, then `generate_json` gives a
  -- value or raises `OllamaClientError`, and nothing else.
  pub generate_json-Answers :
      ((url sent : String) → Responds (http.post url sent))
      → ((url sent body : String) → http.post url sent ≡ ok body → Decodes (http.loads_body body))
      → (prompt model : String) → Answers (generate_json http prompt model)
  unfolding generate_json generate_json_at
  generate_json-Answers responds readable prompt model =
      requested-Answers _ (responds _ _) (readable _ _)
