-- ===== src/Narration/FixEngine/Escapes.antt =====
-- When `propose_fixes` returns, and when an exception escapes from it.
use query_smith.Prelude.{
  ℕ, ◌<◌, String, Bool, true, List, [], ◌∷◌, Option, none, some, is_some, length, ltb, ◌≡◌, ◌≢◌,
  refl, inl, inr, arith, Bool-cases,
}
use query_smith.Prelude.Int.{ℤ, pos, negsuc}
use query_smith.Prelude.Outcome.{
  Exn, Outcome, ok, err, ◌>>=◌, ollama_client_error, query_validation_error, parse_error,
  token_error, Returns, Returns-ok,
}
use query_smith.Text.{truthy, strip}
use query_smith.Float.{Float}
use query_smith.Json.{Json, obj, Fields}
use query_smith.Rules.Finding.{Finding}
use query_smith.Db.QuerySafety.{
  Sqlglot, creates_index, validate_select_only, validate_create_index_only,
}
use query_smith.Db.QuerySafety.Laws.{
  Verdict, accepted, rejected, let_through, validate_select_only-Verdict,
  validate_create_index_only-Verdict, validate_select_only-token_error,
}
use query_smith.Prelude.Collect.{In}
use query_smith.Narration.Models.{GenerateFn, PlanSummary}
use query_smith.Narration.Prompt.{build_fix_prompt}
use query_smith.Narration.Response.{Texts, text_at, read_response, answer_list, entry}
use query_smith.Narration.FixEngine.{
  keep, add_valid, collect_valid, collect_valid_listed, extract_field, draft, propose_fixes,
}

-- A call returns, or raises what sqlglot raised on a text of those that `P` holds for, which is not
-- its `ParseError`.
pub data Ends (sg : Sqlglot) (P : String → Type 0) {A : Type 0} (r : Outcome A) : Type 0 where
  returned : (a : A) → r ≡ ok a → Ends sg P r
  raised :
      (text : String) (e : Exn)
      → P text
      → sg.parse text ≡ err e
      → ((m : String) → e ≢ parse_error m)
      → r ≡ err e
      → Ends sg P r

module _ (sg : Sqlglot) (P : String → Type 0) where
  pub >>=-Ends :
      {A B : Type 0} (r : Outcome A) (rest : A → Outcome B)
      → Ends sg P r
      → ((a : A) → Ends sg P (rest a))
      → Ends sg P (r >>= rest)
  >>=-Ends r rest (returned a e) later = rw e (later a)
  >>=-Ends r rest (raised text x p h unlike e) later = rw e (raised text x p h unlike refl)

module _ (sg : Sqlglot) (P : String → Type 0) (test : sg.Expr → Bool)
    (validator : String → Outcome String) (verdict : (s : String) → Verdict sg test s (validator s))
    (n : ℕ) where
  keep-Ends :
      (i : ℕ) (s : String) (texts : Texts) (r : Outcome String)
      → P s
      → Verdict sg test s r
      → Ends sg P (keep validator n i s texts r)
  keep-Ends i s texts r p (accepted single e) = rw e (returned _ refl)
  keep-Ends i s texts r p (rejected m unlike e) = rw e (returned _ refl)
  keep-Ends i s texts r p (let_through (query_validation_error m) h unlike solid e) =
      rw e (returned _ refl)
  keep-Ends i s texts r p (let_through x h unlike solid e) = rw e (raised s x p h unlike refl)

  add_valid-Ends :
      (texts : Texts) (e : Option (ℤ × String))
      → ((i : ℕ) (v : String) → e ≡ some (pos i, v) → P (strip v))
      → Ends sg P (add_valid validator n texts e)
  unfolding add_valid
  add_valid-Ends texts none p = returned _ refl
  add_valid-Ends texts (some (negsuc m, v)) p = returned _ refl
  add_valid-Ends texts (some (pos i, v)) p = elim (Bool-cases (ltb i n)) [
    | inl t ↦ elim (Bool-cases (is_some (text_at i texts))) [
      | inl u ↦ rw (t, u) (returned _ refl)
      | inr u ↦
          rw (t, u)
            (keep-Ends i (strip v) texts (validator (strip v)) (p i v refl) (verdict (strip v)))
    ]
    | inr f ↦ rw f (returned _ refl)
  ]

  collect_valid-Ends :
      (key : String) (items : List Json) (texts : Texts)
      → ((item : Json) (i : ℕ) (v : String)
          → In item items
          → entry key item ≡ some (pos i, v)
          → P (strip v))
      → Ends sg P (collect_valid validator n key texts items)
  unfolding collect_valid
  collect_valid-Ends key [] texts p = returned _ refl
  collect_valid-Ends key (item ∷ items) texts p =
      >>=-Ends sg P (add_valid validator n texts (entry key item)) _
        (add_valid-Ends texts (entry key item) (λ i v. p item i v (inl refl)))
        λ next. collect_valid-Ends key items next (λ item' i v m. p item' i v (inr m))

-- A text, without the white space around it, that the answer proposes for a finding under a key.
pub record Proposes (raw : Option Fields) (text : String) : Type 0 where
  pub key : String
  pub items : List Json
  pub item : Json
  pub index : ℕ
  pub value : String
  pub listed : answer_list "fixes" raw ≡ some items
  pub within : In item items
  pub is_entry : entry key item ≡ some (pos index, value)
  pub stripped : strip value ≡ text

module _ (sg : Sqlglot) (test : sg.Expr → Bool) (validator : String → Outcome String)
    (verdict : (s : String) → Verdict sg test s (validator s)) (n : ℕ) where
  extract_field-Ends :
      (raw : Option Fields) (key : String)
      → Ends sg (Proposes raw) (extract_field validator n raw key)
  unfolding extract_field
  extract_field-Ends raw key = listed (answer_list "fixes" raw) refl
    where
      listed :
          (l : Option (List Json))
          → answer_list "fixes" raw ≡ l
          → Ends sg (Proposes raw) (collect_valid_listed validator n key l)
      listed none e = returned _ refl
      listed (some items) e =
          collect_valid-Ends sg (Proposes raw) test validator verdict n key items [] λ item i v m h.
            record {
              key = key;
              items = items;
              item = item;
              index = i;
              value = v;
              listed = e;
              within = m;
              is_entry = h;
              stripped = refl;
            }

-- The client answers, or raises `OllamaClientError`.
abbrev pub Answers : Outcome Json → Type 0
Answers (ok answer) = Unit
Answers (err (ollama_client_error m)) = Unit
Answers (err e) = ⊥

read_response-Returns : (r : Outcome Json) → Answers r → Returns (read_response r)
read_response-Returns (ok (obj fields)) h = tt
read_response-Returns (ok j) h = tt
read_response-Returns (err (ollama_client_error m)) h = tt
read_response-Returns (err e) h = absurd h

module _ {F : Type 0} ⦃fl : Float F⦄ (sg : Sqlglot) (findings : List Finding)
    (plan_summary : PlanSummary F) (model : String) (client : GenerateFn) where
  draft-Ends :
      (answer : Option Fields × Option String)
      → Ends sg (Proposes answer.0) (draft sg findings model answer)
  unfolding draft
  draft-Ends (raw, reason) =
      >>=-Ends sg (Proposes raw) (extract_field (validate_select_only sg) (length findings) raw _) _
        (extract_field-Ends sg sg.is_select (validate_select_only sg)
          (validate_select_only-Verdict sg) (length findings) raw "rewritten_query")
        λ rewrites.
          >>=-Ends sg (Proposes raw)
            (extract_field (validate_create_index_only sg) (length findings) raw _) _
            (extract_field-Ends sg (creates_index sg) (validate_create_index_only sg)
              (validate_create_index_only-Verdict sg) (length findings) raw "index_script")
            λ scripts. returned _ refl

  -- If the client answers or raises `OllamaClientError`, then `propose_fixes` returns a proposal,
  -- whatever the answer is, unless sqlglot raises something other than `ParseError` on a text that
  -- the answer proposes: then `propose_fixes` raises just that.
  pub propose_fixes-Ends :
      Answers (client (build_fix_prompt plan_summary findings) model)
      → (raw : Option Fields) × (reason : Option String) × (read_response
            (client (build_fix_prompt plan_summary findings) model)
          ≡ ok (raw, reason))
        × Ends sg (Proposes raw) (propose_fixes sg findings plan_summary model client)
  unfolding propose_fixes
  propose_fixes-Ends answers =
      let ((raw, reason), e) = Returns-ok _ (read_response-Returns _ answers) in
      (raw, reason, e, rw e (draft-Ends (raw, reason)))

  -- If the first entry of the model's "fixes" proposes a query, not blank, for a finding in range,
  -- and sqlglot raises `TokenError` on the stripped query, then the `TokenError` escapes from
  -- `propose_fixes`.
  pub propose_fixes-token_error :
      (fields : Fields) (item : Json) (items : List Json) (i : ℕ) (query message : String)
      → client (build_fix_prompt plan_summary findings) model ≡ ok (obj fields)
      → answer_list "fixes" (some fields) ≡ some (item ∷ items)
      → entry "rewritten_query" item ≡ some (pos i, query)
      → i < length findings
      → truthy (strip (strip query)) ≡ true
      → sg.parse (strip query) ≡ err (token_error message)
      → propose_fixes sg findings plan_summary model client ≡ err (token_error message)
  unfolding propose_fixes draft extract_field collect_valid add_valid
  propose_fixes-token_error fields item items i query message answered listed is_entry inside solid
        untokenized =
      let known : ltb i (length findings) ≡ true = ground arith in
      let raised = validate_select_only-token_error sg (strip query) message solid untokenized in
      rw (answered, listed, is_entry, known, raised) refl
