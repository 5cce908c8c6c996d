-- ===== src/Cli/Main/Laws.antt =====
-- The whole command: from its arguments to its exit.
use query_smith.Prelude.{ℕ, String, List, Option, none, some, ◌≡◌, refl}
use query_smith.Prelude.Outcome.{ok}
use query_smith.Float.{Float}
use query_smith.Narration.OllamaClient.{Http}
use query_smith.Db.QuerySafety.{Sqlglot}
use query_smith.Db.Driver.{Driver}
use query_smith.Adapter.Xml.{Lxml, lookup}
use query_smith.Argparse.{
  text, number, switch, Namespace, Parsing, exits, namespace, Argparse, IsComplete,
}
use query_smith.Argparse.Laws.{text_of-Fits, number_of-Fits, switch_of-Fits}
use query_smith.Cli.Run.{Args, Execution}
use query_smith.Cli.Laws.{Exits, run-Exits}
use query_smith.Cli.Main.{
  build_parser, args_of, Ended, parser_exit, returned, capture_fn, generate_fn, run_args, main,
}

module _ {F : Type 0} where
  -- The arguments are the values of the namespace, each under its option's name.
  pub record Names (ns : Namespace F) (args : Args F) : Type 0 where
    pub server : lookup "server" ns ≡ some (text args.server)
    pub database : lookup "database" ns ≡ some (text args.database)
    pub user : lookup "user" ns ≡ some (text args.user)
    pub query : lookup "query" ns ≡ some (text args.query)
    pub driver : lookup "driver" ns ≡ some (text args.driver)
    pub trust_server_certificate :
        lookup "trust_server_certificate" ns ≡ some (switch args.trust_server_certificate)
    pub timeout : lookup "timeout" ns ≡ some (number args.timeout)
    pub narrate : lookup "narrate" ns ≡ some (switch args.narrate)
    pub model : lookup "model" ns ≡ some (text args.model)
    pub ollama_timeout : lookup "ollama_timeout" ns ≡ some (number args.ollama_timeout)

module _ {F : Type 0} ⦃fl : Float F⦄ where
  args_of-Names :
      (ns : Namespace F)
      → IsComplete (build_parser {F = F}).arguments ns
      → (args : Args F) × (args_of ns ≡ ok args) × Names ns args
  unfolding args_of build_parser
  args_of-Names ns
        (
          server,
          (
            database,
            (user, (query, (driver, (trust, (timeout, (narrate, (model, (ollama, rest)))))))),
          ),
        ) =
      let (a, ea, ra) = text_of-Fits "server" (lookup "server" ns) server in
      let (b, eb, rb) = text_of-Fits "database" (lookup "database" ns) database in
      let (c, ec, rc) = text_of-Fits "user" (lookup "user" ns) user in
      let (q, eq, rq) = text_of-Fits "query" (lookup "query" ns) query in
      let (dr, ed, rd) = text_of-Fits "driver" (lookup "driver" ns) driver in
      let (t, et, rt) =
        switch_of-Fits "trust_server_certificate" (lookup "trust_server_certificate" ns) trust in
      let (w, ew, rw') = number_of-Fits "timeout" (lookup "timeout" ns) timeout in
      let (n, en, rn) = switch_of-Fits "narrate" (lookup "narrate" ns) narrate in
      let (m, em, rm) = text_of-Fits "model" (lookup "model" ns) model in
      let (o, eo, ro) = number_of-Fits "ollama_timeout" (lookup "ollama_timeout" ns) ollama in
      (
        record {
          server = a;
          database = b;
          user = c;
          query = q;
          driver = dr;
          trust_server_certificate = t;
          timeout = w;
          narrate = n;
          model = m;
          ollama_timeout = o;
        },
        rw (ra, rb, rc, rq, rd, rt, rw', rn, rm, ro) refl,
        record {
          server = ea;
          database = eb;
          user = ec;
          query = eq;
          driver = ed;
          trust_server_certificate = et;
          timeout = ew;
          narrate = en;
          model = em;
          ollama_timeout = eo;
        },
      )

module _ (d : Driver) (sg : Sqlglot) (lx : Lxml) {F : Type 0} ⦃fl : Float F⦄ (http : F → Http)
    (now : ℕ) (environment : Option String) (parse_args : Argparse F) (argv : List String) where
  -- The parser ends the program, with its own code, or the command runs on the values that the
  -- parser has given, and ends in one of the ways of a run.
  pub data Ends : Ended → Type 0 where
    by_parser : (code : ℕ) → parse_args build_parser argv ≡ exits code → Ends (parser_exit code)
    by_run :
        (ns : Namespace F) (args : Args F) (execution : Execution)
        → parse_args build_parser argv ≡ namespace ns
        → Names ns args
        → Exits lx (generate_fn http) now args (capture_fn d sg) none environment execution
        → Ends (returned execution)

  -- If argparse gives each declared option a value of its type, under the option's name, then the
  -- command ends by argparse's own exit, or else it has run on exactly these values, with the
  -- program's own capture and client, and ends in one of the ways of `Exits`, with its exit code.
  pub main-Ends :
      ((ns : Namespace F)
        → parse_args build_parser argv ≡ namespace ns
        → IsComplete (build_parser {F = F}).arguments ns)
      → Ends (main d sg lx http now environment parse_args argv)
  unfolding main
  main-Ends complete = at (parse_args build_parser argv) refl
    where
      at :
          (r : Parsing F)
          → parse_args build_parser argv ≡ r
          → Ends (elim r [
            | exits code ↦ parser_exit code
            | namespace ns ↦ run_args d sg lx http now environment (args_of ns)
          ])
      at (exits code) e = by_parser code e
      at (namespace ns) e =
          let (args, read, names) = args_of-Names ns (complete ns e) in
          rw read (by_run ns args _ e names (run-Exits lx _ now args _ none environment))
