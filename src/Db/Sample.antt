-- ===== src/Db/Sample.antt =====
-- A parser and a driver for the tests: they know one text of each kind.
use query_smith.Prelude.{
  ℕ, String, Bool, true, false, List, [], ◌∷◌, Option, none, some, str_eq, if◌then◌else◌,
}
use query_smith.Prelude.Outcome.{Outcome, ok, err, parse_error, token_error}
use query_smith.Float.Sample.{Cents, cents}
use query_smith.Db.QuerySafety.{Sqlglot}
use query_smith.Db.Connection.{ConnectionParams, default_odbc_driver}
use query_smith.Db.Driver.{Driver, ResultSets, last, more, end, row, str, other}

pub data Statement : Type 0 where
  select create_index drop : Statement

abbrev pub is_select : Statement → Bool
is_select Statement.select = true
is_select _ = false

abbrev pub is_create : Statement → Bool
is_create Statement.create_index = true
is_create _ = false

abbrev pub parse : String → Outcome (List (Option Statement))
parse text =
    if str_eq text "SELECT 1"
    then ok (some Statement.select ∷ none ∷ [])
    else if str_eq text "CREATE INDEX j"
    then ok (some Statement.create_index ∷ [])
    else if str_eq text "DROP TABLE Orders"
    then ok (some Statement.drop ∷ [])
    else err (parse_error "unknown")

abbrev pub sqlglot : Sqlglot
sqlglot = record {
  Expr = Statement;
  parse = parse;
  is_select = is_select;
  is_create = is_create;
  kind = λ e. some "INDEX";
  expression = λ e. none;
  sql = λ e. "";
  type_name = λ e. "Statement";
}

-- one that cannot split any text into tokens
abbrev pub tokenless : Sqlglot
tokenless = record sqlglot { parse = λ text. err (token_error "Missing quote") }

abbrev pub showplan : String
showplan = " <ShowPlanXML/>"

abbrev pub result_sets : ResultSets
result_sets = more true (row (other ∷ []) end) (last true (row (str showplan ∷ []) end))

abbrev pub driver : Driver
driver = record {
  Connection = ℕ;
  connect = λ text timeout. ok 7;
  set_timeout = λ c timeout. ok c;
  cursor = λ c. ok tt;
  execute = λ c statement. ok result_sets;
  close = λ c. ok tt;
}

abbrev pub params : ConnectionParams Cents
params = record {
  server = "localhost";
  database = "Sales";
  user = "u";
  password = "p}w";
  driver = default_odbc_driver;
  trust_server_certificate = false;
  timeout_s = cents 500;
}
