-- ===== src/Db/Connection.antt =====
-- db/connection.py. The connection string is built from structured parameters.
pub mod Escape
use Prim.Native.Char.{code}
use query_smith.Prelude.{String, ◌<>◌, Bool, ◌==◌, if◌then◌else◌}

-- web/session.py's `ConnectionParams`; its fields are also the keyword arguments of `connect`,
-- `capture_plan_xml` and `list_views`.
pub record ConnectionParams (F : Type 0) : Type 0 where
  pub server : String
  pub database : String
  pub user : String
  pub password : String
  pub driver : String
  pub trust_server_certificate : Bool
  pub timeout_s : F

abbrev pub default_odbc_driver : String
default_odbc_driver = "ODBC Driver 18 for SQL Server"

-- `value.replace("}", "}}")`
unfoldable pub double_braces : String → String
double_braces String.[] = String.[]
double_braces (String.◌∷◌ c s) =
    let rest = double_braces s in
    if code c == 125 then String.◌∷◌ c (String.◌∷◌ c rest) else String.◌∷◌ c rest

unfoldable pub odbc_escape : String → String
unfolding double_braces
odbc_escape value = "{" <> (double_braces value <> "}")

-- `SERVER` and `DATABASE` go in as they are.
unfoldable pub build_connection_string : {F : Type 0} → ConnectionParams F → String
unfolding odbc_escape
build_connection_string p =
    "DRIVER={"
    <> p.driver
    <> "};SERVER="
    <> p.server
    <> ";DATABASE="
    <> p.database
    <> ";"
    <> "UID="
    <> odbc_escape p.user
    <> ";PWD="
    <> odbc_escape p.password
    <> ";"
    <> "TrustServerCertificate="
    <> (if p.trust_server_certificate then "yes" else "no")
    <> ";"
