-- ===== src/Db/Capture.antt =====
-- db/capture.py: `capture_plan_xml`. `connect_fn` is an argument, as in the code.
pub mod Trace
pub mod Result
use text.Mathlib.Text.{starts_with}
use query_smith.Prelude.{
  String, ◌<>◌, Bool, true, false, List, [], ◌∷◌, Option, none, some, if◌then◌else◌,
}
use query_smith.Prelude.Outcome
use query_smith.Prelude.Outcome.{Exn, Outcome, ok, err, db_capture_error}
use query_smith.Text.{strip, lstrip, ends_with_char}
use query_smith.Db.Connection.{ConnectionParams}
use query_smith.Db.QuerySafety.{Sqlglot, validate_select_only}
use query_smith.Db.Driver.{
  Driver, Cell, Rows, ResultSets, str, end, broken, row, last, lost, more, Event, opened, Traced,
  continue, ◌>>=◌, lift, or_captured, closing, execute,
}

-- `_STATEMENT_TEMPLATE.format(query=…)` of the stripped query, with a semicolon if it has none
unfoldable pub statement_of : String → String
unfolding strip ends_with_char
statement_of query =
    let query_text = strip query in
    let terminated = if ends_with_char ";" query_text then query_text else query_text <> ";" in
    "SET STATISTICS XML ON; " <> terminated <> " SET STATISTICS XML OFF;"

-- `row[0].lstrip().startswith("<ShowPlanXML")`
unfoldable pub is_showplan : String → Bool
unfolding lstrip
is_showplan s = starts_with (lstrip s) "<ShowPlanXML"

abbrev showplan_cells : List Cell → Option String
showplan_cells (str s ∷ []) = if is_showplan s then some s else none
showplan_cells _ = none

-- What the first `fetchone` of a result set shows: the plan, if it is one.
abbrev pub showplan_row : Bool → Rows → Outcome (Option String)
showplan_row false rows = ok none
showplan_row true end = ok none
showplan_row true (broken e) = err e
showplan_row true (row cells rows) = ok (showplan_cells cells)

abbrev found_or : Outcome (Option String) → Outcome (Option String) → Outcome (Option String)
found_or (ok none) next = next
found_or (ok (some xml)) next = ok (some xml)
found_or (err e) next = err e

-- The loop of `_find_showplan_xml`.
unfoldable pub find_showplan_xml : ResultSets → Outcome (Option String)
find_showplan_xml (last described rows) = found_or (showplan_row described rows) (ok none)
find_showplan_xml (lost described rows e) = found_or (showplan_row described rows) (err e)
find_showplan_xml (more described rows sets) =
    found_or (showplan_row described rows) (find_showplan_xml sets)

abbrev pub no_showplan : String
no_showplan =
    "No <ShowPlanXML> result set found in query output -- STATISTICS XML may not have been captured for this statement."

abbrev pub required : Option String → Outcome String
required none = err (db_capture_error no_showplan)
required (some xml) = ok xml

module _ (d : Driver) (sg : Sqlglot) where
  open d use {Connection}

  -- `except pyodbc.Error` around the execution and the search
  abbrev guarded : Traced ResultSets → Traced (Option String)
  guarded (events, r) =
      (events, or_captured "Query execution failed: " (Outcome.◌>>=◌ r find_showplan_xml))

  pub search : Connection → String → Traced (Option String)
  unfolding closing execute
  search connection statement =
      closing d connection
        (continue [] (d.cursor connection) (λ _. guarded (execute d connection statement)))

  module _ {F : Type 0} where
    unfoldable pub capture_plan_xml :
        (ConnectionParams F → Outcome Connection) → ConnectionParams F → String → Traced String
    unfolding search
    capture_plan_xml connect_fn p query = do
      validated ← lift (validate_select_only sg query)
      connection ← (opened ∷ [], connect_fn p)
      xml ← search connection (statement_of validated)
      lift (required xml)
