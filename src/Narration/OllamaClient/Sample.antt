-- ===== src/Narration/OllamaClient/Sample.antt =====
-- A server with one answer, for the tests.
use query_smith.Prelude.{String, inl, inr, Bool-cases, str_eq, if◌then◌else◌}
use query_smith.Prelude.Outcome.{Outcome, ok, err, json_decode_error}
use query_smith.Json.{Json, obj, field, str, end}
use query_smith.Narration.OllamaClient.{Http}
use query_smith.Narration.OllamaClient.Laws.{Decodes}
use query_smith.Narration.Sample.{fix_answer}

abbrev loads : String → Outcome Json
loads s =
    if str_eq s "envelope"
    then ok (obj (field "response" (str "inner") end))
    else if str_eq s "inner"
    then ok (obj (fix_answer "SELECT 1"))
    else err (json_decode_error "Expecting value")

abbrev pub server : Http
server = record { post = λ url body. ok "envelope"; loads_body = loads; loads = loads }

pub loads-Decodes : (s : String) → Decodes (loads s)
loads-Decodes s = elim (Bool-cases (str_eq s "envelope")) [
  | inl e ↦ rw e tt
  | inr e ↦ elim (Bool-cases (str_eq s "inner")) [ inl f ↦ rw (e, f) tt | inr f ↦ rw (e, f) tt ]
]
