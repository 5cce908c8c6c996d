-- ===== src/Db/Tests.antt =====
-- The session, the validators and the escaping at concrete inputs.
use query_smith.Prelude.{String, true, ◌<>◌, List, [], ◌∷◌, none, some, ◌≡◌, refl, ◌↔◌}
use query_smith.Prelude.Outcome.{Outcome, ok}
use query_smith.Float.Sample.{cents_float}
use query_smith.Db.QuerySafety.{validate_select_only}
use query_smith.Db.QuerySafety.Laws.{Verdict, validate_select_only-Verdict}
use query_smith.Db.Connection.{odbc_escape}
use query_smith.Db.Connection.Escape.{read_braced, read-odbc_escape}
use query_smith.Db.Driver.{connect, opened, executed, closed}
use query_smith.Db.Capture.{capture_plan_xml, find_showplan_xml, is_showplan, statement_of}
use query_smith.Db.Driver.{Driver, last, or_captured}
use query_smith.Db.QuerySafety.{Sqlglot}
use query_smith.Db.Catalog.{ViewRef, list_views, list_views_sql, fetch_views, extract_select_body}
use query_smith.Db.Catalog.Listed.{Entry, rows_of, Lists, list_views-Lists}
use query_smith.Db.Sample.{Statement}
use query_smith.Text.{strip}
use query_smith.Db.Capture.Trace.{Session, capture_plan_xml-Session}
use query_smith.Db.Capture.Result.{First, find_showplan_xml_iff}
use query_smith.Db.Sample.{sqlglot, is_select, showplan, result_sets, driver, params}

capture_test : capture_plan_xml driver sqlglot (connect driver) params "SELECT 1" ≡ (
  opened ∷ executed "SET STATISTICS XML ON; SELECT 1; SET STATISTICS XML OFF;" ∷ closed ∷ [],
  ok showplan,
)
unfolding capture_plan_xml validate_select_only strip connect find_showplan_xml is_showplan
    statement_of
capture_test = refl

capture_plan_xml-Session_example :
    Session driver sqlglot
      (connect driver)
      params
      "SELECT 1"
      (capture_plan_xml driver sqlglot (connect driver) params "SELECT 1")
capture_plan_xml-Session_example =
    capture_plan_xml-Session driver sqlglot (connect driver) params "SELECT 1"

find_showplan_xml_iff_example :
    (find_showplan_xml result_sets ≡ ok (some showplan)) ↔ First showplan result_sets
find_showplan_xml_iff_example = find_showplan_xml_iff result_sets showplan

validate_select_only-Verdict_example :
    Verdict sqlglot is_select "SELECT 1" (validate_select_only sqlglot "SELECT 1")
validate_select_only-Verdict_example = validate_select_only-Verdict sqlglot "SELECT 1"

read-odbc_escape_example :
    (body : String) × (odbc_escape "p}w" <> ";" ≡ "{" <> body)
    × (read_braced body ≡ some ("p}w", ";"))
read-odbc_escape_example = read-odbc_escape "p}w" ";" refl

abbrev entries : List Entry
entries =
    record { schema_name = "dbo"; view_name = "a"; definition = some "CREATE INDEX j" }
    ∷ record { schema_name = "dbo"; view_name = "b"; definition = none }
    ∷ record { schema_name = "dbo"; view_name = "c"; definition = some "not SQL" }
    ∷ []

-- each CREATE has a SELECT inside
abbrev views_sqlglot : Sqlglot
views_sqlglot = record sqlglot { expression = λ e. some Statement.select; sql = λ e. "SELECT 1" }

abbrev catalog_driver : Driver
catalog_driver = record driver { execute = λ c statement. ok (last true (rows_of entries)) }

list_views_test :
    (list_views views_sqlglot catalog_driver (connect catalog_driver) params).1
    ≡ ok (
        record { schema_name = "dbo"; view_name = "a"; select_body = some "SELECT 1" }
        ∷ record { schema_name = "dbo"; view_name = "b"; select_body = none }
        ∷ record { schema_name = "dbo"; view_name = "c"; select_body = none }
        ∷ [])
unfolding list_views connect fetch_views extract_select_body
list_views_test = refl

list_views-Lists_example :
    (fetched : Outcome (List ViewRef)) × Lists views_sqlglot entries fetched
    × (list_views views_sqlglot catalog_driver (λ p. ok 7) params ≡ (
      opened ∷ executed list_views_sql ∷ closed ∷ [],
      or_captured "Failed to list views: " fetched,
    ))
list_views-Lists_example =
    list_views-Lists views_sqlglot catalog_driver (λ p. ok 7) params 7 entries refl refl refl refl
