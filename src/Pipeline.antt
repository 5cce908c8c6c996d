-- ===== src/Pipeline.antt =====
-- From a captured plan text to the findings: the steps that web/app.py and cli.py both take, as what
-- a run of them has done.
pub mod Placed
pub mod Reported
pub mod Asked
pub mod Named
mod Tests
use query_smith.Prelude.{String, List, ◌≡◌, ◌≢◌}
use query_smith.Prelude.Outcome.{
  Exn, Outcome, ok, err, query_validation_error, db_capture_error, value_error,
}
use query_smith.Float.{Float}
use query_smith.Ir.{IrPlan}
use query_smith.Rules.Finding.{Finding}
use query_smith.Rules.Engine.{evaluate}
use query_smith.Adapter.Xml.{Lxml}
use query_smith.Adapter.Build.{ParseOptions, parse_plan_xml}

module _ (lx : Lxml) (F : Type 0) ⦃fl : Float F⦄ (captured : Outcome String)
    (options : ParseOptions) where
  -- One of the steps raised an exception that its callers do not name.
  pub data Unhandled (e : Exn) : Type 0 where
    at_capture :
        captured ≡ err e
        → ((m : String) → e ≢ query_validation_error m)
        → ((m : String) → e ≢ db_capture_error m)
        → Unhandled e
    at_parse :
        (xml : String)
        → captured ≡ ok xml
        → parse_plan_xml lx {F = F} options xml ≡ err e
        → ((m : String) → e ≢ value_error m)
        → Unhandled e
    at_rules :
        (xml : String) (plan : IrPlan F)
        → captured ≡ ok xml
        → parse_plan_xml lx options xml ≡ ok plan
        → evaluate plan ≡ err e
        → Unhandled e

  -- The captured text is no plan.
  abbrev pub Unparsed : String → Type 0
  Unparsed message =
      (xml : String) × (captured ≡ ok xml)
      × (parse_plan_xml lx {F = F} options xml ≡ err (value_error message))

  -- The findings of the captured plan.
  pub record Found (plan : IrPlan F) (findings : List Finding) : Type 0 where
    pub xml : String
    pub is_captured : captured ≡ ok xml
    pub is_parsed : parse_plan_xml lx options xml ≡ ok plan
    pub is_evaluated : evaluate plan ≡ ok findings
