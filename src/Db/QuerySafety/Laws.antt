-- ===== src/Db/QuerySafety/Laws.antt =====
-- What the two validators accept, and what they raise.
use query_smith.Prelude.{
  ◌<>◌, String, Bool, true, false, List, [], ◌∷◌, Option, somes, ◌≡◌, refl, ◌≢◌, inl, inr,
  Bool-cases, if◌then◌else◌,
}
use query_smith.Prelude.Outcome.{
  Exn, Outcome, ok, err, ◌>>=◌, ◌>>◌, query_validation_error, parse_error, token_error,
}
use query_smith.Text.{truthy, strip}
use query_smith.Db.QuerySafety.{
  Sqlglot, or_rejected, gate, check_select, validate_select_only, creates_index, check_create_index,
  validate_create_index_only,
}

module _ (sg : Sqlglot) where
  open sg use {Expr}

  -- The text is not blank, it parses, and it is one statement, empty ones aside, that passes.
  pub record IsSingle (test : Expr → Bool) (text : String) : Type 0 where
    pub solid : truthy (strip text) ≡ true
    pub parsed : List (Option Expr)
    pub parses : sg.parse text ≡ ok parsed
    pub statement : Expr
    pub alone : somes parsed ≡ statement ∷ []
    pub passes : test statement ≡ true

  -- The outcomes of a validator: it returns the text as it is, for a single statement that passes;
  -- it raises `QueryValidationError`, for any other text that sqlglot parses or refuses with
  -- `ParseError`; or it lets another exception of sqlglot through.
  pub data Verdict (test : Expr → Bool) (text : String) (r : Outcome String) : Type 0 where
    accepted : IsSingle test text → r ≡ ok text → Verdict test text r
    rejected :
        (message : String)
        → ¬ IsSingle test text
        → r ≡ err (query_validation_error message)
        → Verdict test text r
    let_through :
        (e : Exn)
        → sg.parse text ≡ err e
        → ((m : String) → e ≢ parse_error m)
        → truthy (strip text) ≡ true
        → r ≡ err e
        → Verdict test text r

  abbrev single_passes : (Expr → Bool) → List Expr → Bool
  single_passes test [] = false
  single_passes test (e ∷ []) = test e
  single_passes test (e ∷ f ∷ es) = false

  single_passes-statement :
      (test : Expr → Bool) (es : List Expr)
      → single_passes test es ≡ true
      → (e : Expr) × (es ≡ e ∷ []) × (test e ≡ true)
  single_passes-statement test [] h = cc
  single_passes-statement test (e ∷ []) h = (e, refl, h)
  single_passes-statement test (e ∷ f ∷ es) h = cc

  statement-single_passes :
      (test : Expr → Bool) (es : List Expr) (e : Expr)
      → es ≡ e ∷ []
      → test e ≡ true
      → single_passes test es ≡ true
  statement-single_passes test es e p h = rw p h

  abbrev IsRejection {ℓ} : {A : Type ℓ} → Outcome A → Type 0
  IsRejection (err (query_validation_error m)) = Unit
  IsRejection _ = ⊥

  -- A check of the statements, for the frame.
  abbrev Checks : (Expr → Bool) → (List Expr → Outcome (Unit {0})) → Type 0
  Checks test check =
      (es : List Expr) → if single_passes test es then check es ≡ ok tt else IsRejection (check es)

  check_select-Checks : Checks sg.is_select (check_select sg)
  unfolding check_select
  check_select-Checks [] = tt
  check_select-Checks (e ∷ []) = elim (Bool-cases (sg.is_select e)) [
    | inl passed ↦ rw passed refl
    | inr failed ↦ rw failed tt
  ]
  check_select-Checks (e ∷ f ∷ es) = tt

  check_create_index-Checks : Checks (creates_index sg) (check_create_index sg)
  unfolding check_create_index
  check_create_index-Checks [] = tt
  check_create_index-Checks (e ∷ []) = elim (Bool-cases (creates_index sg e)) [
    | inl passed ↦ rw passed refl
    | inr failed ↦ rw failed tt
  ]
  check_create_index-Checks (e ∷ f ∷ es) = tt

  IsSingle-single_passes :
      (test : Expr → Bool) (text : String) (parsed : List (Option Expr))
      → sg.parse text ≡ ok parsed
      → IsSingle test text
      → single_passes test (somes parsed) ≡ true
  IsSingle-single_passes test text parsed e s =
      let same : s.parsed ≡ parsed = cc (e, s.parses) in
      rw (← same) (statement-single_passes test (somes s.parsed) s.statement s.alone s.passes)

  -- The frame behind the parse.
  parsed-Verdict :
      (test : Expr → Bool) (text : String) (parsed : List (Option Expr)) (passes : Bool)
      (checked : Outcome (Unit {0}))
      → truthy (strip text) ≡ true
      → sg.parse text ≡ ok parsed
      → single_passes test (somes parsed) ≡ passes
      → if passes then checked ≡ ok tt else IsRejection checked
      → Verdict test text (checked >> ok text)
  parsed-Verdict test text parsed true checked solid e p h =
      let (statement, alone, passes) = single_passes-statement test (somes parsed) p in
      accepted
        (record {
          solid = solid;
          parsed = parsed;
          parses = e;
          statement = statement;
          alone = alone;
          passes = passes;
        })
        (rw h refl)
  parsed-Verdict test text parsed false (err (query_validation_error m)) solid e p h =
      rejected m (λ s. cc (p, IsSingle-single_passes test text parsed e s)) refl
  parsed-Verdict test text parsed false _ solid e p h = absurd h

  answer-Verdict :
      (test : Expr → Bool) (context : String) (check : List Expr → Outcome (Unit {0}))
      → Checks test check
      → (text : String) (answer : Outcome (List (Option Expr))) → truthy (strip text) ≡ true
      → sg.parse text ≡ answer
      → Verdict test text (or_rejected context answer >>= λ parsed. check (somes parsed) >> ok text)
  answer-Verdict test context check checks text (ok parsed) solid e =
      parsed-Verdict test text parsed _ (check (somes parsed)) solid e refl (checks (somes parsed))
  answer-Verdict test context check checks text (err (parse_error m)) solid e =
      rejected (context <> m) (λ s. cc (e, s.parses)) refl
  answer-Verdict test context check checks text (err x) solid e =
      let_through x e (λ m p. cc) solid refl

  gate-Verdict :
      (test : Expr → Bool) (empty context : String) (check : List Expr → Outcome (Unit {0}))
      → Checks test check
      → (text : String) → Verdict test text (gate sg empty context check text)
  unfolding gate
  gate-Verdict test empty context check checks text = elim (Bool-cases (truthy (strip text))) [
    | inl solid ↦
        rw solid (answer-Verdict test context check checks text (sg.parse text) solid refl)
    | inr blank ↦ rw blank (rejected empty (λ s. cc (blank, s.solid)) refl)
  ]

  -- For every text `validate_select_only` has one of the outcomes of `Verdict`, for the test that
  -- the statement is a SELECT.
  pub validate_select_only-Verdict :
      (text : String) → Verdict sg.is_select text (validate_select_only sg text)
  unfolding validate_select_only
  validate_select_only-Verdict = gate-Verdict sg.is_select _ _ (check_select sg) check_select-Checks

  -- For every text `validate_create_index_only` has one of the outcomes of `Verdict`, for the test
  -- that the statement creates an index.
  pub validate_create_index_only-Verdict :
      (text : String) → Verdict (creates_index sg) text (validate_create_index_only sg text)
  unfolding validate_create_index_only
  validate_create_index_only-Verdict =
      gate-Verdict (creates_index sg) _ _ (check_create_index sg) check_create_index-Checks

  Verdict-ok :
      (test : Expr → Bool) (text r : String) (o : Outcome String)
      → Verdict test text o
      → o ≡ ok r
      → (r ≡ text) × IsSingle test text
  Verdict-ok test text r o (accepted s e) h = (cc, s)
  Verdict-ok test text r o (rejected m s e) h = cc
  Verdict-ok test text r o (let_through x e n solid k) h = cc

  pub validate_select_only-ok :
      (text r : String)
      → validate_select_only sg text ≡ ok r
      → (r ≡ text) × IsSingle sg.is_select text
  validate_select_only-ok text r h =
      Verdict-ok sg.is_select text r _ (validate_select_only-Verdict text) h

  pub validate_create_index_only-ok :
      (text r : String)
      → validate_create_index_only sg text ≡ ok r
      → (r ≡ text) × IsSingle (creates_index sg) text
  validate_create_index_only-ok text r h =
      Verdict-ok (creates_index sg) text r _ (validate_create_index_only-Verdict text) h

  -- A text that sqlglot cannot split into tokens is not rejected with `QueryValidationError`: the
  -- `TokenError` itself reaches the caller.
  pub validate_select_only-token_error :
      (text message : String)
      → truthy (strip text) ≡ true
      → sg.parse text ≡ err (token_error message)
      → validate_select_only sg text ≡ err (token_error message)
  unfolding validate_select_only gate
  validate_select_only-token_error text message solid e = rw (solid, e) refl
