-- ===== src/Db/QuerySafety.antt =====
-- db/query_safety.py. sqlglot is a parameter: its parser, and what the code asks of an expression.
pub mod Laws
use query_smith.Prelude.{
  ℕ, zero, suc, String, ◌<>◌, Bool, true, false, not, List, [], ◌∷◌, Option, none, some, somes,
  length, if◌then◌else◌,
}
use query_smith.Prelude.Outcome.{Outcome, ok, err, ◌>>=◌, ◌>>◌, query_validation_error, parse_error}
use query_smith.Text.{truthy, strip, upper, contains}
use query_smith.Text.Numerals.{show_ℕ}

pub record Sqlglot : Type 1 where
  pub Expr : Type 0
  -- `sqlglot.parse(text, read="tsql", error_level=RAISE)`; an empty statement is `None`
  pub parse : String → Outcome (List (Option Expr))
  -- `isinstance(e, exp.Select)` and `isinstance(e, exp.Create)`
  pub is_select : Expr → Bool
  pub is_create : Expr → Bool
  -- `e.args.get("kind", "")` and `e.args.get("expression")`
  pub kind : Expr → Option String
  pub expression : Expr → Option Expr
  -- `e.sql(dialect="tsql", pretty=True)` and `type(e).__name__`
  pub sql : Expr → String
  pub type_name : Expr → String

-- `except ParseError as exc: raise QueryValidationError(…)`
abbrev pub or_rejected {ℓ} : {A : Type ℓ} → String → Outcome A → Outcome A
or_rejected context (err (parse_error message)) = err (query_validation_error (context <> message))
or_rejected context r = r

module _ (sg : Sqlglot) where
  open sg use {Expr}

  -- The frame of both validators: the text itself comes back, never SQL made from the AST.
  unfoldable pub gate : String → String → (List Expr → Outcome (Unit {0})) → String → Outcome String
  gate empty context check text =
      if not (truthy (strip text))
      then err (query_validation_error empty)
      else do parsed ← or_rejected context (sg.parse text); check (somes parsed); ok text

  check_select : List Expr → Outcome (Unit {0})
  check_select [] = err (query_validation_error "Query text contains no statements.")
  check_select (statement ∷ []) =
      if sg.is_select statement
      then ok tt
      else err (
          query_validation_error (
            "Only SELECT statements are permitted; parsed statement type was "
            <> sg.type_name statement
            <> "."))
  check_select (s ∷ t ∷ rest) = err (
      query_validation_error (
        "Query text must contain exactly one statement; found "
        <> show_ℕ (length (s ∷ t ∷ rest))
        <> " (stacked/multi-statement input is rejected)."))

  unfoldable pub validate_select_only : String → Outcome String
  unfolding gate check_select
  validate_select_only = gate "Query text is empty." "Query failed to parse: " check_select

  abbrev kind_text : Option String → String
  kind_text none = ""
  kind_text (some s) = s

  -- `isinstance(statement, exp.Create) and "INDEX" in (kind or "").upper()`
  pub creates_index : Expr → Bool
  unfolding upper contains
  creates_index statement =
      if sg.is_create statement
      then contains "INDEX" (upper (kind_text (sg.kind statement)))
      else false

  kind_suffix : Expr → String
  kind_suffix statement =
      let kind = if sg.is_create statement then kind_text (sg.kind statement) else "" in
      if truthy kind then " (" <> kind <> ")" else ""

  check_create_index : List Expr → Outcome (Unit {0})
  unfolding creates_index kind_suffix
  check_create_index [] = err (query_validation_error "Index script contains no statements.")
  check_create_index (statement ∷ []) =
      if creates_index statement
      then ok tt
      else err (
          query_validation_error (
            "Only CREATE INDEX statements are permitted; parsed statement type was "
            <> sg.type_name statement
            <> kind_suffix statement
            <> "."))
  check_create_index (s ∷ t ∷ rest) = err (
      query_validation_error (
        "Index script must contain exactly one statement; found "
        <> show_ℕ (length (s ∷ t ∷ rest))
        <> " (stacked/multi-statement input is rejected)."))

  unfoldable pub validate_create_index_only : String → Outcome String
  unfolding gate check_create_index
  validate_create_index_only =
      gate "Index script text is empty." "Index script failed to parse: " check_create_index
