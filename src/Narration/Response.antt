-- ===== src/Narration/Response.antt =====
-- What both engines of narration/ do with the model's answer: reading it, and collecting one text
-- for each finding index (`_extract_explanations`, `_extract_suggested_fixes`).
pub mod Laws
use query_smith.Prelude.{
  ℕ, String, ◌<>◌, Bool, true, false, not, ◌&&◌, ◌||◌, List, [], ◌∷◌, ◌++◌, Option, none, some,
  is_some, ltb, ◌==◌, if◌then◌else◌,
}
use query_smith.Prelude.Int.{ℤ, pos, negsuc}
use query_smith.Prelude.Outcome.{Outcome, ok, err, ollama_client_error}
use query_smith.Text.{truthy, strip}
use query_smith.Json.{Json, obj, Fields, get, as_int, as_text, as_list}

-- A `dict[int, str]`, in order of insertion.
abbrev pub Texts : Type 0
Texts = List (ℕ × String)

-- `texts.get(i)`
abbrev pub text_at : ℕ → Texts → Option String
text_at i [] = none
text_at i ((j, s) ∷ texts) = if j == i then some s else text_at i texts

-- The answer as a dict, with the reason if there is none. An exception other than
-- `OllamaClientError` is not caught.
abbrev pub read_response : Outcome Json → Outcome (Option Fields × Option String)
read_response (ok (obj fields)) = ok (some fields, none)
read_response (ok _) = ok (none, some "invalid_response_shape")
read_response (err (ollama_client_error message)) = ok (none, some ("client_error: " <> message))
read_response (err e) = err e

-- `raw.get(key) if isinstance(raw, dict) else None`, as a list
unfoldable pub answer_list : String → Option Fields → Option (List Json)
unfolding get
answer_list key none = none
answer_list key (some raw) = as_list (get key raw)

-- The index and the text of an entry, before the range is checked.
abbrev pub entry_of : Option ℤ → Option String → Option (ℤ × String)
entry_of none text = none
entry_of (some idx) none = none
entry_of (some idx) (some text) = if truthy (strip text) then some (idx, text) else none

unfoldable pub entry : String → Json → Option (ℤ × String)
unfolding get
entry key (obj item) = entry_of (as_int (get "finding_index" item)) (as_text (get key item))
entry key _ = none

-- one round of the loop
unfoldable pub add_text : ℕ → Texts → Option (ℤ × String) → Texts
add_text num_findings result none = result
add_text num_findings result (some (negsuc n, text)) = result
add_text num_findings result (some (pos i, text)) =
    if not (ltb i num_findings)
    then result
    else if is_some (text_at i result)
    then result
    else result ++ (i, strip text) ∷ []

unfoldable pub collect_texts : String → ℕ → Texts → List Json → Texts
unfolding entry add_text
collect_texts key num_findings result [] = result
collect_texts key num_findings result (item ∷ items) =
    collect_texts key num_findings (add_text num_findings result (entry key item)) items

abbrev pub collect_listed : String → ℕ → Option (List Json) → Texts
collect_listed key num_findings none = []
collect_listed key num_findings (some items) = collect_texts key num_findings [] items

-- The texts under `key` in the entries of "findings".
unfoldable pub extract_texts : String → Option Fields → ℕ → Texts
unfolding answer_list
extract_texts key raw num_findings = collect_listed key num_findings (answer_list "findings" raw)

unfoldable pub extract_explanations : Option Fields → ℕ → Texts
unfolding extract_texts
extract_explanations = extract_texts "explanation"

unfoldable pub extract_suggested_fixes : Option Fields → ℕ → Texts
unfolding extract_texts
extract_suggested_fixes = extract_texts "suggested_fix"
