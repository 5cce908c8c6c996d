-- ===== src/Cli/Main.antt =====
-- cli.py: `_build_parser` and `main`.
pub mod Laws
pub mod Success
use query_smith.Prelude.{ℕ, String, ◌<>◌, Bool, true, false, List, [], ◌∷◌, Option, none, some, ◌≡◌}
use query_smith.Prelude.Outcome.{Outcome, ok, err, ◌>>=◌}
use query_smith.Text.Repr.{repr_text}
use query_smith.Float.{Float}
use query_smith.Narration.Models.{GenerateFn}
use query_smith.Narration.OllamaClient.{Http, generate_json}
use query_smith.Db.QuerySafety.{Sqlglot}
use query_smith.Db.Connection.{ConnectionParams, default_odbc_driver}
use query_smith.Db.Driver.{Driver, connect}
use query_smith.Db.Capture.{capture_plan_xml}
use query_smith.Adapter.Xml.{Lxml, lookup}
use query_smith.Argparse.{
  as_text, as_float, boolean_optional, Setting, text, number, switch, Argument, Parser, Namespace,
  exits, namespace, Argparse, text_of, number_of, switch_of,
}
use query_smith.Cli.Run.{Args, Execution, run}

-- `DEFAULT_MODEL`
abbrev pub default_model : String
default_model = "llama3.2:3b"

module _ {F : Type 0} where
  abbrev required_option : String → String → Argument F
  required_option option help = record {
    option = option;
    reads = as_text;
    required = true;
    default = none;
    help = help;
  }

  abbrev text_option : String → String → String → Argument F
  text_option option default help = record {
    option = option;
    reads = as_text;
    required = false;
    default = some (text default);
    help = help;
  }

  abbrev number_option : String → F → String → Argument F
  number_option option default help = record {
    option = option;
    reads = as_float;
    required = false;
    default = some (number default);
    help = help;
  }

  abbrev switch_option : String → String → Argument F
  switch_option option help = record {
    option = option;
    reads = boolean_optional;
    required = false;
    default = some (switch true);
    help = help;
  }

module _ {F : Type 0} ⦃fl : Float F⦄ where
  -- `_build_parser`
  unfoldable pub build_parser : Parser F
  unfolding repr_text
  build_parser = record {
    prog = "querysmith";
    description = "Connect to SQL Server, capture an execution plan, and analyze it.";
    arguments =
        required_option "--server" "SQL Server hostname, optionally host,port (e.g. localhost,1433)"
        ∷ required_option "--database" "Target database name"
        ∷ required_option "--user"
            "SQL Server login username (SQL authentication only -- Windows/integrated auth is not supported)"
        ∷ required_option "--query"
            "Ad-hoc SELECT query to capture a plan for (e.g. \"SELECT * FROM dbo.MyView\"). Must parse as a single read-only SELECT statement -- rejected otherwise."
        ∷ text_option "--driver" default_odbc_driver (
            "ODBC driver name as registered in odbcinst.ini (default: "
            <> repr_text default_odbc_driver
            <> ")")
        ∷ switch_option "--trust-server-certificate"
            "Trust the server's TLS certificate without validation (needed for self-signed certs on local/dev instances)"
        ∷ number_option "--timeout" (fl.ratio 60 1)
            "Login and query timeout in seconds for the SQL Server connection (default: 60)"
        ∷ switch_option "--narrate"
            "Run Tier 1 local-model narration (default: on). Disable for fast Tier 0-only output."
        ∷ text_option "--model" default_model
            ("Ollama model name for Tier 1 narration (default: " <> repr_text default_model <> ")")
        ∷ number_option "--ollama-timeout" (fl.ratio 600 1)
            "Timeout in seconds for each Ollama narration request. Local CPU-only inference can take minutes -- the library's own default (30s) is too short for real use. (default: 600)"
        ∷ [];
  }

module _ {F : Type 0} where
  -- the namespace as the arguments of `run`
  unfoldable pub args_of : Namespace F → Outcome (Args F)
  unfolding text_of number_of switch_of
  args_of ns = do
    server ← text_of "server" (lookup "server" ns)
    database ← text_of "database" (lookup "database" ns)
    user ← text_of "user" (lookup "user" ns)
    query ← text_of "query" (lookup "query" ns)
    driver ← text_of "driver" (lookup "driver" ns)
    trust ← switch_of "trust_server_certificate" (lookup "trust_server_certificate" ns)
    timeout ← number_of "timeout" (lookup "timeout" ns)
    narrate ← switch_of "narrate" (lookup "narrate" ns)
    model ← text_of "model" (lookup "model" ns)
    ollama_timeout ← number_of "ollama_timeout" (lookup "ollama_timeout" ns)
    ok (record {
      server = server;
      database = database;
      user = user;
      query = query;
      driver = driver;
      trust_server_certificate = trust;
      timeout = timeout;
      narrate = narrate;
      model = model;
      ollama_timeout = ollama_timeout;
    })

-- The parser ends the program, or `main` returns what `run` does.
pub data Ended : Type 0 where
  parser_exit : ℕ → Ended
  returned : Execution → Ended

-- the functions that `run` takes by default
module _ {F : Type 0} ⦃fl : Float F⦄ where
  abbrev pub capture_fn : Driver → Sqlglot → ConnectionParams F → String → Outcome String
  capture_fn d sg p query = (capture_plan_xml d sg (connect d) p query).1

module _ {F : Type 0} where
  abbrev pub generate_fn : (F → Http) → F → GenerateFn
  generate_fn http timeout_s = generate_json (http timeout_s)

module _ (d : Driver) (sg : Sqlglot) (lx : Lxml) {F : Type 0} ⦃fl : Float F⦄ (http : F → Http)
    (now : ℕ) (environment : Option String) where
  abbrev pub run_args : Outcome (Args F) → Ended
  unfolding run
  run_args (ok args) =
      returned (run lx (generate_fn http) now environment args (capture_fn d sg) none)
  run_args (err e) = returned ([], err e)

  unfoldable pub main : Argparse F → List String → Ended
  unfolding build_parser args_of run capture_plan_xml generate_json
  main parse_args argv = elim (parse_args build_parser argv) [
    | exits code ↦ parser_exit code
    | namespace ns ↦ run_args (args_of ns)
  ]
