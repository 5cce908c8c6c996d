-- ===== src/Web/Server.antt =====
-- web/server.py: the start of the server. `uvicorn.run` is a parameter.
use query_smith.Prelude.{ℕ, String, ◌<>◌, Bool, true, false, List, [], ◌∷◌, some}
use query_smith.Prelude.Int.{ℤ, pos}
use query_smith.Prelude.Outcome.{Outcome, ok, ◌>>=◌, ◌>>◌}
use query_smith.Text.Repr.{repr_text}
use query_smith.Text.Numerals.{show_ℕ}
use query_smith.Adapter.Xml.{lookup}
use query_smith.Argparse.{
  as_text, as_int, store_true, text, whole, switch, Parser, Namespace, exits, namespace, Argparse,
  text_of, whole_of, switch_of,
}

abbrev default_host : String
default_host = "127.0.0.1"

abbrev default_port : ℕ
default_port = 8420

-- The arguments of `uvicorn.run`.
pub record Launch : Type 0 where
  pub app : String
  pub factory : Bool
  pub host : String
  pub port : ℤ
  pub reload : Bool

pub data Ended : Type 0 where
  parser_exit : ℕ → Ended
  returned : Outcome ℕ → Ended

-- `argparse.ArgumentParser(…)` and its three options
unfoldable pub server_parser : {F : Type 0} → Parser F
unfolding repr_text show_ℕ
server_parser = record {
  prog = "querysmith-web";
  description = "Run the QuerySmith local web UI.";
  arguments =
      record {
        option = "--host";
        reads = as_text;
        required = false;
        default = some (text default_host);
        help = "Host to bind (default: " <> repr_text default_host <> ")";
      }
      ∷ record {
        option = "--port";
        reads = as_int;
        required = false;
        default = some (whole (pos default_port));
        help = "Port to bind (default: " <> show_ℕ default_port <> ")";
      }
      ∷ record {
        option = "--reload";
        reads = store_true;
        required = false;
        default = some (switch false);
        help = "Enable auto-reload for local development";
      }
      ∷ [];
}

unfoldable pub launch_of : {F : Type 0} → Namespace F → Outcome Launch
unfolding text_of whole_of switch_of
launch_of ns = do
  host ← text_of "host" (lookup "host" ns)
  port ← whole_of "port" (lookup "port" ns)
  reload ← switch_of "reload" (lookup "reload" ns)
  ok (record {
    app = "querysmith.web.app:create_app";
    factory = true;
    host = host;
    port = port;
    reload = reload;
  })

-- `main`
unfoldable pub main :
    {F : Type 0} → (Launch → Outcome (Unit {0})) → Argparse F → List String → Ended
unfolding server_parser launch_of
main uvicorn_run parse_args argv = elim (parse_args server_parser argv) [
  | exits code ↦ parser_exit code
  | namespace ns ↦ returned (launch_of ns >>= λ launch. uvicorn_run launch >> ok 0)
]
