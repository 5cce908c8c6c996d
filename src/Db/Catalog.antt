-- ===== src/Db/Catalog.antt =====
-- db/catalog.py: `list_views`.
mod Definition
pub mod Listed
use query_smith.Prelude.{String, ◌<>◌, List, [], ◌∷◌, Option, none, some, somes, if◌then◌else◌}
use query_smith.Prelude.Outcome
use query_smith.Prelude.Outcome.{Exn, Outcome, ok, err, parse_error, other_error}
use query_smith.Text.{truthy}
use query_smith.Db.Connection.{ConnectionParams}
use query_smith.Db.QuerySafety.{Sqlglot}
use query_smith.Db.Driver.{
  Driver, Cell, Rows, ResultSets, str, null, end, broken, row, last, lost, more, opened, Traced,
  continue, ◌>>=◌, or_captured, closing, execute,
}

abbrev pub list_views_sql : String
list_views_sql =
    "SELECT s.name AS schema_name, v.name AS view_name, m.definition AS view_definition FROM sys.views v JOIN sys.schemas s ON v.schema_id = s.schema_id JOIN sys.sql_modules m ON m.object_id = v.object_id ORDER BY s.name, v.name;"

pub record ViewRef : Type 0 where
  pub schema_name : String
  pub view_name : String
  pub select_body : Option String

unfoldable pub qualified_name : ViewRef → String
qualified_name v = v.schema_name <> "." <> v.view_name

module _ (sg : Sqlglot) where
  open sg use {Expr}

  abbrev select_sql : Option Expr → Option String
  select_sql none = none
  select_sql (some e) = if sg.is_select e then some (sg.sql e) else none

  abbrev view_body : List Expr → Option String
  view_body (e ∷ []) = if sg.is_create e then select_sql (sg.expression e) else none
  view_body _ = none

  abbrev body_of : Outcome (List (Option Expr)) → Outcome (Option String)
  body_of (ok parsed) = ok (view_body (somes parsed))
  body_of (err (parse_error message)) = ok none
  body_of (err e) = err e

  -- `_extract_select_body`
  unfoldable pub extract_select_body : Option String → Outcome (Option String)
  extract_select_body none = ok none
  extract_select_body (some definition) =
      if truthy definition then body_of (sg.parse definition) else ok none

  -- A row of the template's three columns: two names, which are never NULL in the catalog, and a text
  -- or NULL. On another row, which the template does not give, the model stops with an exception.
  view_of : List Cell → Outcome ViewRef
  view_of (str s ∷ str v ∷ str definition ∷ rest) =
      Outcome.◌>>=◌ (extract_select_body (some definition))
        λ body. ok (record { schema_name = s; view_name = v; select_body = body })
  view_of (str s ∷ str v ∷ null ∷ rest) =
      Outcome.◌>>=◌ (extract_select_body none)
        λ body. ok (record { schema_name = s; view_name = v; select_body = body })
  view_of _ = err (other_error "unexpected row shape")

  -- the loop over `cursor.fetchone()`
  unfoldable pub fetch_views : Rows → Outcome (List ViewRef)
  unfolding view_of
  fetch_views end = ok []
  fetch_views (broken e) = err e
  fetch_views (row cells rows) =
      Outcome.◌>>=◌ (view_of cells) λ v. Outcome.◌>>=◌ (fetch_views rows) λ vs. ok (v ∷ vs)

  abbrev first_rows : ResultSets → Rows
  first_rows (last described rows) = rows
  first_rows (lost described rows e) = rows
  first_rows (more described rows sets) = rows

  module _ (d : Driver) where
    open d use {Connection}

    abbrev guarded : Traced ResultSets → Traced (List ViewRef)
    guarded (events, r) = (
      events,
      or_captured "Failed to list views: " (Outcome.◌>>=◌ r λ sets. fetch_views (first_rows sets)),
    )

    module _ {F : Type 0} where
      unfoldable pub list_views :
          (ConnectionParams F → Outcome Connection) → ConnectionParams F → Traced (List ViewRef)
      unfolding closing execute
      list_views connect_fn p = do
        connection ← (opened ∷ [], connect_fn p)
        closing d connection
            (continue [] (d.cursor connection) (λ _. guarded (execute d connection list_views_sql)))
