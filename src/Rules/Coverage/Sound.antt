-- ===== src/Rules/Coverage/Sound.antt =====
-- `evaluate` of rules/engine.py: from the findings to what is due.
use query_smith.Prelude.{
  String, List, ◌++◌, Option, none, some, ◌≡◌, refl, inl, inr, arith, All, All-append, somes,
  Option-cases, Bool-cases, ◌⊎◌,
}
use query_smith.Prelude.Outcome.{ok, traverse, >>=-eq-ok}
use query_smith.Prelude.Sorting.{sort_by, All-sort_by}
use query_smith.Prelude.Collect.{In, All-In, All-map, All-somes, All-traverse}
use query_smith.Float.{Float}
use query_smith.Ir.{AccessType, WarningType, OperatorInfo, operator_info, IrPlan}
use query_smith.Rules.Finding.{Finding, more_severe}
use query_smith.Rules.Checks.{
  walk, scan_value, or_else, scan_finding, check_large_scan, check_large_scans, check_skew,
  check_cardinality_skew, promote_adapter_warning, promote_adapter_warnings,
  promoted_warning_severity,
}
use query_smith.Rules.Engine.{
  collect, evaluate, check_lookup, check_bookmark_lookups, impact_severity, check_missing_index,
  check_missing_indexes, check_parallelism,
}
use query_smith.Rules.Due.{
  Within, warning_rank, HasImpact, Due, unknown, high, medium, low, warned, huge_scan, large_scan,
  skewed, looked_up, index_missing, ran_parallel,
}
use query_smith.Rules.Coverage.Walk.{In-walk-Within}

pub severity-warning_rank : (t : WarningType) → promoted_warning_severity t ≡ warning_rank t
severity-warning_rank WarningType.implicit_conversion = refl
severity-warning_rank _ = refl

scan_value-Scans :
    (a : Option AccessType) (v : String)
    → scan_value a ≡ some v
    → (a ≡ some AccessType.scan) ⊎ (a ≡ some AccessType.full_scan)
scan_value-Scans (some AccessType.scan) v e = inl refl
scan_value-Scans (some AccessType.full_scan) v e = inr refl
scan_value-Scans a v e = cc

pub or_else-cases {ℓ} :
    {A : Type ℓ} (a b : Option A) (x : A)
    → or_else a b ≡ some x
    → (a ≡ some x) ⊎ ((a ≡ none) × (b ≡ some x))
or_else-cases none b x e = inr (refl, e)
or_else-cases (some a) b x e = inl e

module _ {F : Type 0} ⦃fl : Float F⦄ (plan : IrPlan F) where
  abbrev pub IsDue : Finding → Type 0
  IsDue f = Due plan f.rule_id f.severity f.operator_id

  abbrev Here : OperatorInfo F → Type 0
  Here op = In op (walk plan.root_operator)

  All-Here : All Here (walk plan.root_operator)
  All-Here = All-In (walk plan.root_operator)

  scan_finding-IsDue :
      (op : OperatorInfo F) (v : Option String) (rows : Option F) (f : Finding)
      → Within op plan.root_operator
      → scan_value op.access_type ≡ v
      → or_else op.actual_rows op.estimated_rows ≡ rows
      → scan_finding op v rows ≡ ok (some f)
      → IsDue f
  unfolding scan_finding
  scan_finding-IsDue op none rows f w e₁ e₂ h = cc
  scan_finding-IsDue op (some v) none f w e₁ e₂ h = cc
  scan_finding-IsDue op (some v) (some rows) f w e₁ e₂ h =
      let scans = scan_value-Scans op.access_type v e₁ in
      let counted = or_else-cases op.actual_rows op.estimated_rows rows e₂ in
      elim (Bool-cases (fl.le (fl.ratio 100000 1) rows)) [
        | inl huge ↦
            huge_scan op rows w scans counted huge (ground arith) (ground arith) (ground arith)
        | inr less ↦ elim (Bool-cases (fl.le (fl.ratio 10000 1) rows)) [
          | inl large ↦
              large_scan op rows w scans counted less large (ground arith) (ground arith)
                (ground arith)
          | inr small ↦ ground arith
        ]
      ]

  scans-IsDue : (fs : List Finding) → check_large_scans plan.root_operator ≡ ok fs → All IsDue fs
  unfolding check_large_scans check_large_scan
  scans-IsDue fs h =
      let (os, done, same) =
        >>=-eq-ok (traverse check_large_scan (walk plan.root_operator)) (λ os. ok (somes os)) h in
      let found : All IsDue (somes os) =
        All-traverse IsDue Here check_large_scan
          (λ op f m e.
            scan_finding-IsDue op (scan_value op.access_type)
              (or_else op.actual_rows op.estimated_rows) f (In-walk-Within op m) refl refl e)
          (walk plan.root_operator) os All-Here done in
      let e : somes os ≡ fs = cc same in rw (← e) found

  skew-IsDue : (op : OperatorInfo F) (f : Finding) → Here op → check_skew op ≡ some f → IsDue f
  unfolding check_skew
  skew-IsDue op f m h = elim (Option-cases op.row_estimate_ratio) [
    | inl e ↦ ground arith
    | inr (ratio, e) ↦ elim (Bool-cases (fl.le (fl.ratio 10 1) ratio)) [
      | inl up ↦
          skewed op ratio (In-walk-Within op m) e (inl up) (ground arith) (ground arith)
            (ground arith)
      | inr other ↦ elim (Bool-cases (fl.le ratio (fl.ratio 1 10))) [
        | inl down ↦
            skewed op ratio (In-walk-Within op m) e (inr down) (ground arith) (ground arith)
              (ground arith)
        | inr inside ↦ ground arith
      ]
    ]
  ]

  lookup-IsDue : (op : OperatorInfo F) (f : Finding) → Here op → check_lookup op ≡ some f → IsDue f
  unfolding check_lookup
  lookup-IsDue op f m h =
      looked_up op (In-walk-Within op m) (ground arith) (ground arith) (ground arith) (ground arith)

  pub impact_severity-HasImpact : (impact : Option F) → HasImpact impact (impact_severity impact)
  unfolding impact_severity
  impact_severity-HasImpact none = unknown refl refl
  impact_severity-HasImpact (some x) = elim (Bool-cases (fl.le (fl.ratio 80 1) x)) [
    | inl up ↦ rw up (high x refl up refl)
    | inr less ↦ elim (Bool-cases (fl.le (fl.ratio 50 1) x)) [
      | inl mid ↦ rw (less, mid) (medium x refl less mid refl)
      | inr down ↦ rw (less, down) (low x refl less down refl)
    ]
  ]

  warnings-IsDue : All IsDue (promote_adapter_warnings plan)
  unfolding promote_adapter_warnings
  warnings-IsDue =
      All-map IsDue (λ w. In w plan.warnings) promote_adapter_warning
        (λ w m. warned w m refl (severity-warning_rank w.type) refl) plan.warnings
        (All-In plan.warnings)

  indexes-IsDue : All IsDue (check_missing_indexes plan)
  unfolding check_missing_indexes check_missing_index
  indexes-IsDue =
      All-map IsDue (λ mi. In mi plan.missing_indexes) check_missing_index
        (λ mi m. index_missing mi m (impact_severity-HasImpact mi.estimated_impact) refl refl)
        plan.missing_indexes (All-In plan.missing_indexes)

  parallelism-IsDue : All IsDue (check_parallelism plan.root_operator)
  unfolding check_parallelism
  parallelism-IsDue = elim (Bool-cases (operator_info plan.root_operator).parallel) [
    | inl on ↦ rw on (ran_parallel on refl refl refl, tt)
    | inr off ↦ rw off tt
  ]

  collect-IsDue : (raw : List Finding) → collect plan ≡ ok raw → All IsDue raw
  unfolding collect check_cardinality_skew check_bookmark_lookups
  collect-IsDue raw h =
      let root = plan.root_operator in
      let tail = λ (scans : List Finding).
        promote_adapter_warnings plan
        ++ (scans
            ++ (check_cardinality_skew root
                ++ (check_bookmark_lookups root
                    ++ (check_missing_indexes plan ++ check_parallelism root)))) in
      let (scans, done, same) = >>=-eq-ok (check_large_scans root) (λ s. ok (tail s)) h in
      let e : tail scans ≡ raw = cc same in
      rw (← e) (
        All-append IsDue _ _ warnings-IsDue (
          All-append IsDue _ _ (scans-IsDue scans done) (
            All-append IsDue _ _ (All-somes IsDue Here check_skew skew-IsDue (walk root) All-Here) (
              All-append IsDue _ _
                (All-somes IsDue Here check_lookup lookup-IsDue (walk root) All-Here)
                (All-append IsDue _ _ indexes-IsDue parallelism-IsDue)))))

  -- When `evaluate` returns, each finding is due: its rule, severity and operator are those of a
  -- warning, an operator at or below the root, a missing index or the parallel root of the plan
  -- that calls for it.
  pub evaluate-IsDue : (fs : List Finding) → evaluate plan ≡ ok fs → All IsDue fs
  unfolding evaluate
  evaluate-IsDue fs h =
      let (raw, collected, same) =
        >>=-eq-ok (collect plan) (λ raw. ok (sort_by more_severe raw)) h in
      let e : sort_by more_severe raw ≡ fs = cc same in
      rw (← e) (All-sort_by more_severe IsDue raw (collect-IsDue raw collected))
