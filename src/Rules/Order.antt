-- ===== src/Rules/Order.antt =====
-- The order of the findings of `evaluate`.
use mathlib.Core.List.{Perm}
use query_smith.Prelude.{Bool, true, false, List, ◌≡◌, arith, select, ◌==◌}
use query_smith.Prelude.Outcome.{ok, >>=-eq-ok}
use query_smith.Prelude.Sorting.{sort_by, IsSorted, sort_by-IsSorted, select-sort_by, sort_by-perm}
use query_smith.Float.{Float}
use query_smith.Ir.{Severity, IrPlan}
use query_smith.Rules.Finding.{Finding, severity_order, more_severe}
use query_smith.Rules.Engine.{collect, evaluate}

more_severe_asym : (f g : Finding) → more_severe f g ≡ true → more_severe g f ≡ false
more_severe_asym f g h = ground arith

more_severe_trans :
    (f g h : Finding) → more_severe f g ≡ false → more_severe g h ≡ false → more_severe f h ≡ false
more_severe_trans f g h p q = ground arith

abbrev pub has_severity : Severity → Finding → Bool
has_severity s f = severity_order f.severity == severity_order s

has_severity_same :
    (s : Severity) (f g : Finding)
    → has_severity s f ≡ true
    → has_severity s g ≡ true
    → more_severe f g ≡ false
has_severity_same s f g p q = ground arith

-- `fs` is `raw` in order of severity, each severity in the order of `raw`.
pub record IsStableOrder (raw fs : List Finding) : Type 0 where
  pub sorted : IsSorted more_severe fs
  pub stable : (s : Severity) → select (has_severity s) fs ≡ select (has_severity s) raw
  pub same_items : Perm fs raw

-- When `evaluate` returns, the rules have returned a list of findings, and the result is that list
-- sorted by severity, most severe first, with the order of the rules kept within a severity.
pub evaluate-IsStableOrder :
    {F : Type 0} ⦃fl : Float F⦄ (plan : IrPlan F) (fs : List Finding)
    → evaluate plan ≡ ok fs
    → (raw : List Finding) × (collect plan ≡ ok raw) × IsStableOrder raw fs
unfolding evaluate
evaluate-IsStableOrder plan fs e =
    let (raw, collected, same) = >>=-eq-ok (collect plan) (λ raw. ok (sort_by more_severe raw)) e in
    let sorted : sort_by more_severe raw ≡ fs = cc same in
    (
      raw,
      collected,
      rw (← sorted) (record {
        sorted = sort_by-IsSorted more_severe more_severe_asym more_severe_trans raw;
        stable = λ s. select-sort_by more_severe (has_severity s) (has_severity_same s) raw;
        same_items = sort_by-perm more_severe raw;
      }),
    )
