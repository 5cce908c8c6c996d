-- ===== src/Rules/Coverage/Total.antt =====
-- Raising in `evaluate` of rules/engine.py: `int(rows)` is the one call that can raise.
use query_smith.Prelude.{String, List, Option, none, some, ◌≡◌, refl, arith}
use query_smith.Prelude.Int.{ℤ}
use query_smith.Prelude.Outcome.{ok, Returns, Returns-ok}
use query_smith.Prelude.Collect.{traverse_total, In-All_from}
use query_smith.Float.{Float}
use query_smith.Ir.{OperatorInfo, IrPlan}
use query_smith.Rules.Finding.{Finding}
use query_smith.Rules.Checks.{
  walk, or_else, scan_value, scan_finding, check_large_scan, check_large_scans,
}
use query_smith.Rules.Engine.{collect, evaluate}
use query_smith.Rules.Due.{Within, HasRows}
use query_smith.Rules.Coverage.Walk.{In-walk-Within}
use query_smith.Rules.Coverage.Sound.{or_else-cases}

module _ {F : Type 0} ⦃fl : Float F⦄ where
  scan_finding_total :
      (op : OperatorInfo F) (v : Option String) (rows : Option F)
      → ((x : F) → rows ≡ some x → (n : ℤ) × (fl.to_int x ≡ ok n))
      → Returns (scan_finding op v rows)
  unfolding scan_finding
  scan_finding_total op none rows finite = tt
  scan_finding_total op (some v) none finite = tt
  scan_finding_total op (some v) (some x) finite = let (n, e) = finite x refl in ground arith

  -- If the row count of every operator converts to an `int`, `evaluate` returns.
  pub evaluate_total :
      (plan : IrPlan F)
      → ((op : OperatorInfo F) (rows : F)
          → Within op plan.root_operator
          → HasRows op rows
          → (n : ℤ) × (fl.to_int rows ≡ ok n))
      → (fs : List Finding) × (evaluate plan ≡ ok fs)
  unfolding evaluate collect check_large_scans check_large_scan
  evaluate_total plan finite =
      let (os, done) = traverse_total check_large_scan (walk plan.root_operator) (
        In-All_from _ (walk plan.root_operator) (λ op m. Returns-ok _ (
          scan_finding_total op (scan_value op.access_type)
            (or_else op.actual_rows op.estimated_rows)
            (λ x e. finite op x (In-walk-Within op m) (or_else-cases _ _ x e))))) in
      Returns-ok (evaluate plan) (rw done tt)
