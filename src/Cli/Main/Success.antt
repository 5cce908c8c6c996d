-- ===== src/Cli/Main/Success.antt =====
-- What it means that the command exits with 0.
use query_smith.Prelude.{
  ℕ, String, true, List, [], ◌∷◌, ◌++◌, Option, none, some, ◌≡◌, refl, arith, All,
}
use mathlib.Core.Path.{subst}
use query_smith.Prelude.Outcome.{ok, ok-injective}
use query_smith.Text.{truthy}
use query_smith.Float.{Float}
use query_smith.Ir.{IrPlan}
use query_smith.Rules.Finding.{Finding}
use query_smith.Rules.Coverage.Sound.{IsDue, evaluate-IsDue}
use query_smith.Narration.Models.{Narration}
use query_smith.Narration.PlanSummary.{summarize_plan}
use query_smith.Narration.OllamaClient.{Http}
use query_smith.Db.QuerySafety.{Sqlglot}
use query_smith.Db.QuerySafety.Laws.{IsSingle}
use query_smith.Db.Driver.{Driver, connect}
use query_smith.Db.Capture.{capture_plan_xml}
use query_smith.Db.Capture.Trace.{capture_plan_xml-IsSingle}
use query_smith.Adapter.Xml.{Lxml}
use query_smith.Adapter.Build.{parse_plan_xml}
use query_smith.Argparse.{Namespace, namespace, Argparse, IsComplete}
use query_smith.Cli.Report.{format_report}
use query_smith.Cli.Run.{Args, stdout, Execution, exit_ok, reminder, params_for, capture_options}
use query_smith.Cli.Laws
use query_smith.Cli.Laws.{Exits, unset, uncaptured, unparsed, failed, unexplained, reports}
use query_smith.Cli.Main.{build_parser, Ended, returned, capture_fn, generate_fn, main}
use query_smith.Cli.Main.Laws.{Names, Ends, by_parser, by_run, main-Ends}

module _ (d : Driver) (sg : Sqlglot) (lx : Lxml) {F : Type 0} ⦃fl : Float F⦄ (http : F → Http)
    (now : ℕ) (environment : Option String) (parse_args : Argparse F) (argv : List String) where
  -- There was a password, the query is a single SELECT, the text captured for it is a plan, the
  -- findings are called for by the plan, and what was printed ends with the report on them.
  pub record Success (execution : Execution) : Type 0 where
    pub ns : Namespace F
    pub args : Args F
    pub parsed : parse_args build_parser argv ≡ namespace ns
    pub names : Names ns args
    pub password : String
    pub is_set : environment ≡ some password
    pub solid : truthy password ≡ true
    pub single : IsSingle sg sg.is_select args.query
    pub xml : String
    pub captured :
        (capture_plan_xml d sg (connect d) (params_for args password) args.query).1 ≡ ok xml
    pub plan : IrPlan F
    pub is_plan : parse_plan_xml lx (capture_options args now) xml ≡ ok plan
    pub findings : List Finding
    pub due : All (IsDue plan) findings
    pub narration : Option Narration
    pub printed :
        execution.0
        ≡ reminder args.user ++ stdout (format_report (summarize_plan plan) findings narration) ∷ []

  Exits-Success :
      (ns : Namespace F) (args : Args F) (env : Option String) (x : Execution)
      → parse_args build_parser argv ≡ namespace ns
      → Names ns args
      → environment ≡ env
      → Exits lx (generate_fn http) now args (capture_fn d sg) none env x
      → x.1 ≡ ok exit_ok
      → Success x
  Exits-Success ns args env x parsed names is_set (unset o empty) h =
      absurd (omega (arith, ok-injective h))
  Exits-Success ns args env x parsed names is_set (Laws.refused password m solid e) h =
      absurd (omega (arith, ok-injective h))
  Exits-Success ns args env x parsed names is_set (uncaptured password m solid e) h =
      absurd (omega (arith, ok-injective h))
  Exits-Success ns args env x parsed names is_set (unparsed password m solid e) h =
      absurd (omega (arith, ok-injective h))
  Exits-Success ns args env x parsed names is_set (failed password e solid u) h = cc
  Exits-Success ns args env x parsed names is_set (unexplained password plan fs e solid f n) h = cc
  Exits-Success ns args env x parsed names is_set (reports password plan fs narration solid f n) h =
      record {
        ns = ns;
        args = args;
        parsed = parsed;
        names = names;
        password = password;
        is_set = is_set;
        solid = solid;
        single =
            capture_plan_xml-IsSingle d sg (connect d) (params_for args password) args.query f.xml
              f.is_captured;
        xml = f.xml;
        captured = f.is_captured;
        plan = plan;
        is_plan = f.is_parsed;
        findings = fs;
        due = evaluate-IsDue plan fs f.is_evaluated;
        narration = narration;
        printed = refl;
      }

  -- If argparse gives each declared option a value of its type and the command returns 0, then it
  -- had a password and a query that is a single SELECT, the text captured for the query is a plan,
  -- and what it printed ends with a report, on stdout, all of whose findings the plan calls for.
  pub main-Success :
      ((ns : Namespace F)
        → parse_args build_parser argv ≡ namespace ns
        → IsComplete (build_parser {F = F}).arguments ns)
      → (execution : Execution)
      → main d sg lx http now environment parse_args argv ≡ returned execution
      → execution.1 ≡ ok exit_ok
      → Success execution
  main-Success complete execution e h =
      at (main d sg lx http now environment parse_args argv)
        (main-Ends d sg lx http now environment parse_args argv complete) e
    where
      at :
          (x : Ended)
          → Ends d sg lx http now environment parse_args argv x
          → x ≡ returned execution
          → Success execution
      at x (by_parser code p) same = cc
      at x (by_run ns args ex p names exits') same =
          let alike : ex ≡ execution = cc in
          Exits-Success ns args environment execution p names refl
            (subst (Exits lx (generate_fn http) now args (capture_fn d sg) none environment) alike
              exits')
            h
