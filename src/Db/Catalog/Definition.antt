-- ===== src/Db/Catalog/Definition.antt =====
-- What `_extract_select_body` makes of a definition.
use query_smith.Prelude.{
  String, List, [], ◌∷◌, Option, none, some, somes, true, ◌≡◌, ◌≢◌, refl, sym, ◌↔◌, inl, inr,
  Bool-cases,
}
use mathlib.Core.Option.{some-injective}
use query_smith.Prelude.Outcome.{Exn, Outcome, ok, err, parse_error}
use query_smith.Text.{truthy}
use query_smith.Db.QuerySafety.{Sqlglot}
use query_smith.Db.Catalog.{extract_select_body, view_body, select_sql}

module _ (sg : Sqlglot) where
  open sg use {Expr}

  -- The definition is a single CREATE of a SELECT, which prints as the text.
  pub record Defines (definition : Option String) (body : String) : Type 0 where
    pub text : String
    pub is_text : definition ≡ some text
    pub solid : truthy text ≡ true
    pub parsed : List (Option Expr)
    pub parses : sg.parse text ≡ ok parsed
    pub statement : Expr
    pub alone : somes parsed ≡ statement ∷ []
    pub creates : sg.is_create statement ≡ true
    pub query : Expr
    pub is_query : sg.expression statement ≡ some query
    pub selects : sg.is_select query ≡ true
    pub prints : sg.sql query ≡ body

  select_sql_sound :
      (o : Option Expr) (b : String)
      → select_sql sg o ≡ some b
      → (query : Expr) × (o ≡ some query) × (sg.is_select query ≡ true) × (sg.sql query ≡ b)
  select_sql_sound none b h = cc
  select_sql_sound (some e) b h = elim (Bool-cases (sg.is_select e)) [
    | inl selects ↦ (e, refl, selects, some-injective _ _ (rw selects at h))
    | inr other ↦ cc
  ]

  parsed_Defines :
      (text : String) (parsed : List (Option Expr)) (es : List Expr) (b : String)
      → truthy text ≡ true
      → sg.parse text ≡ ok parsed
      → somes parsed ≡ es
      → view_body sg es ≡ some b
      → Defines (some text) b
  parsed_Defines text parsed [] b solid e p h = cc
  parsed_Defines text parsed (s ∷ t ∷ es) b solid e p h = cc
  parsed_Defines text parsed (s ∷ []) b solid e p h = elim (Bool-cases (sg.is_create s)) [
    | inl creates ↦
        (let (query, is_query, selects, prints) =
            select_sql_sound (sg.expression s) b (rw creates at h) in
          record {
            text = text;
            is_text = refl;
            solid = solid;
            parsed = parsed;
            parses = e;
            statement = s;
            alone = p;
            creates = creates;
            query = query;
            is_query = is_query;
            selects = selects;
            prints = prints;
          })
    | inr other ↦ cc
  ]

  Defines-view_body :
      (text : String) (parsed : List (Option Expr)) (b : String)
      → sg.parse text ≡ ok parsed
      → Defines (some text) b
      → view_body sg (somes parsed) ≡ some b
  Defines-view_body text parsed b e d =
      let same : d.text ≡ text = some-injective _ _ (sym d.is_text) in
      let found : d.parsed ≡ parsed = cc (d.parses, e, same) in
      rw (← found, d.alone, d.creates, d.is_query, d.selects, d.prints) refl

  -- The reading of a definition: a body or none, or what sqlglot raises that is not its `ParseError`.
  pub data Read (definition : Option String) : Type 0 where
    read :
        (body : Option String)
        → extract_select_body sg definition ≡ ok body
        → ((b : String) → (body ≡ some b) ↔ Defines definition b)
        → Read definition
    unread :
        (text : String) (e : Exn)
        → definition ≡ some text
        → sg.parse text ≡ err e
        → ((m : String) → e ≢ parse_error m)
        → extract_select_body sg definition ≡ err e
        → Read definition

  Read-parsed :
      (text : String) (r : Outcome (List (Option Expr)))
      → truthy text ≡ true
      → sg.parse text ≡ r
      → Read (some text)
  unfolding extract_select_body
  Read-parsed text (ok parsed) solid e =
      read (view_body sg (somes parsed)) (rw (solid, e) refl) λ b. (
        parsed_Defines text parsed (somes parsed) b solid e refl,
        Defines-view_body text parsed b e,
      )
  Read-parsed text (err (parse_error m)) solid e = read none (rw (solid, e) refl) λ b. (
    (λ h. cc),
    λ d. let same : d.text ≡ text = some-injective _ _ (sym d.is_text) in cc (d.parses, e, same),
  )
  Read-parsed text (err other) solid e = unread text other refl e (λ m h. cc) (rw (solid, e) refl)

  pub Read-definition : (definition : Option String) → Read definition
  unfolding extract_select_body
  Read-definition none = read none refl (λ b. ((λ h. cc), λ d. cc (d.is_text)))
  Read-definition (some text) = elim (Bool-cases (truthy text)) [
    | inl solid ↦ Read-parsed text (sg.parse text) solid refl
    | inr blank ↦ read none (rw blank refl) λ b. (
      (λ h. cc),
      λ d.
          let same : d.text ≡ text = some-injective _ _ (sym d.is_text) in
          cc (d.solid, blank, same),
    )
  ]
