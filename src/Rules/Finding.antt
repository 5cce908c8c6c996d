-- ===== src/Rules/Finding.antt =====
-- rules/models.py, and the order of severities of rules/engine.py.
use query_smith.Prelude.{ℕ, String, Bool, Option, ltb}
use query_smith.Ir.{Severity}

pub record Finding : Type 0 where
  pub rule_id : String
  pub severity : Severity
  pub operator_id : Option String
  pub summary : String
  pub detail : String
  pub suggested_fix : Option String

-- `_SEVERITY_ORDER`
abbrev pub severity_order : Severity → ℕ
severity_order Severity.critical = 0
severity_order Severity.warning = 1
severity_order Severity.info = 2

-- the comparison of two findings by the sort key
abbrev pub more_severe : Finding → Finding → Bool
more_severe f g = ltb (severity_order f.severity) (severity_order g.severity)
