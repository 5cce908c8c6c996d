-- ===== src/Db/Catalog/Listed.antt =====
-- What `list_views` makes of the catalog's rows.
use query_smith.Prelude.{
  String, List, [], ◌∷◌, Option, none, some, true, ◌≡◌, ◌≢◌, refl, ◌↔◌, inl, inr,
}
use query_smith.Prelude.Pairs.{Pairs, Pairs-shift}
use query_smith.Prelude.Outcome.{Exn, Outcome, ok, err, ◌>>=◌, parse_error}
use query_smith.Db.QuerySafety.{Sqlglot}
use query_smith.Prelude.Collect.{In}
use query_smith.Db.Connection.{ConnectionParams}
use query_smith.Db.Driver.{
  Driver, Cell, Rows, str, null, end, row, last, opened, executed, closed, closing, execute,
  or_captured,
}
use query_smith.Db.Catalog.{
  ViewRef, extract_select_body, fetch_views, view_of, list_views, list_views_sql,
}
use query_smith.Db.Catalog.Definition.{Defines, Read, read, unread, Read-definition}

-- A row of the catalog: the schema, the name and the definition, which may be NULL.
pub record Entry : Type 0 where
  pub schema_name : String
  pub view_name : String
  pub definition : Option String

abbrev definition_cell : Option String → Cell
definition_cell none = null
definition_cell (some text) = str text

abbrev pub rows_of : List Entry → Rows
rows_of [] = end
rows_of (e ∷ entries) =
    row (str e.schema_name ∷ str e.view_name ∷ definition_cell e.definition ∷ []) (rows_of entries)

module _ (sg : Sqlglot) where
  -- The reference repeats the row, and it has a body exactly if the definition is a single CREATE
  -- of a SELECT, and then the SELECT's text.
  pub record Refers (e : Entry) (v : ViewRef) : Type 0 where
    pub schema_name : v.schema_name ≡ e.schema_name
    pub view_name : v.view_name ≡ e.view_name
    pub body : (b : String) → (v.select_body ≡ some b) ↔ Defines sg e.definition b

  view_of_row :
      (s v : String) (definition : Option String)
      → view_of sg (str s ∷ str v ∷ definition_cell definition ∷ []) ≡ (
          extract_select_body sg definition >>= λ body.
          ok (record { schema_name = s; view_name = v; select_body = body }))
  unfolding view_of
  view_of_row s v none = refl
  view_of_row s v (some text) = refl

  -- The rows' references, or what sqlglot raises on the definition of one of them.
  pub data Lists (entries : List Entry) (r : Outcome (List ViewRef)) : Type 0 where
    listed :
        (views : List ViewRef)
        → r ≡ ok views
        → Pairs (λ i. Refers) 0 entries views
        → Lists entries r
    unreadable :
        (entry : Entry) (text : String) (e : Exn)
        → In entry entries
        → entry.definition ≡ some text
        → sg.parse text ≡ err e
        → ((m : String) → e ≢ parse_error m)
        → r ≡ err e
        → Lists entries r

  row-Lists :
      (e : Entry) (entries : List Entry) (body : Option String)
      → extract_select_body sg e.definition ≡ ok body
      → ((b : String) → (body ≡ some b) ↔ Defines sg e.definition b)
      → Lists entries (fetch_views sg (rows_of entries))
      → Lists (e ∷ entries) (fetch_views sg (rows_of (e ∷ entries)))
  unfolding fetch_views
  row-Lists e entries body done defines (listed views fetched pairs) =
      listed
        (record { schema_name = e.schema_name; view_name = e.view_name; select_body = body }
          ∷ views)
        (rw (view_of_row e.schema_name e.view_name e.definition, done, fetched) refl)
        (
          record { schema_name = refl; view_name = refl; body = defines },
          Pairs-shift Refers 0 1 entries views pairs,
        )
  row-Lists e entries body done defines (unreadable later text x m is h unlike raised) =
      unreadable later text x (inr m) is h unlike
        (rw (view_of_row e.schema_name e.view_name e.definition, done, raised) refl)

  fetch_views-Lists : (entries : List Entry) → Lists entries (fetch_views sg (rows_of entries))
  unfolding fetch_views
  fetch_views-Lists [] = listed [] refl tt
  fetch_views-Lists (e ∷ entries) = at (fetch_views-Lists entries) (Read-definition sg e.definition)
    where
      at :
          Lists entries (fetch_views sg (rows_of entries))
          → Read sg e.definition
          → Lists (e ∷ entries) (fetch_views sg (rows_of (e ∷ entries)))
      at rest (read body done defines) = row-Lists e entries body done defines rest
      at rest (unread text x is h unlike raised) =
          unreadable e text x (inl refl) is h unlike
            (rw (view_of_row e.schema_name e.view_name e.definition, raised) refl)

  -- If the connection, its cursor and the catalog's query succeed and closing does not fail, then
  -- `list_views` makes the calls of one session. It returns one reference for each row, in order,
  -- with the row's names; and it has a body exactly if the definition is a single CREATE of a SELECT,
  -- and then the SELECT's text. Or else sqlglot raises something other than `ParseError` on a row's
  -- definition, and that is what `list_views` raises, by way of the clause for the driver's errors.
  pub list_views-Lists :
      {F : Type 0} (d : Driver) (connect_fn : ConnectionParams F → Outcome d.Connection)
      (p : ConnectionParams F) (connection : d.Connection) (entries : List Entry)
      → connect_fn p ≡ ok connection
      → d.cursor connection ≡ ok tt
      → d.execute connection list_views_sql ≡ ok (last true (rows_of entries))
      → d.close connection ≡ ok tt
      → (fetched : Outcome (List ViewRef)) × Lists entries fetched
        × (list_views sg d connect_fn p ≡ (
          opened ∷ executed list_views_sql ∷ closed ∷ [],
          or_captured "Failed to list views: " fetched,
        ))
  unfolding list_views closing execute
  list_views-Lists d connect_fn p connection entries connected cursor executes closes = (
    fetch_views sg (rows_of entries),
    fetch_views-Lists entries,
    rw (connected, cursor, executes, closes) refl,
  )
