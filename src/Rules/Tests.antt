-- ===== src/Rules/Tests.antt =====
-- The rules on the plan of Ir/Sample.
use query_smith.Prelude.{
  String, List, [], ◌∷◌, map, some, ◌≡◌, refl, ap, ◌∙◌, inl, inr, select, str_eq, All, Any,
}
use mathlib.Core.Option.{some-injective}
use query_smith.Prelude.Int.{ℤ, pos}
use query_smith.Prelude.Outcome.{ok, err}
use query_smith.Prelude.Collect.{In}
use query_smith.Rules.Checks
use query_smith.Rules.Engine
use query_smith.Rules.Checks.{walk}
use query_smith.Prelude.Sorting.{sort_by}
use query_smith.Text.Numerals.{show_grouped}
use query_smith.Rules.Coverage.Walk.{Within-In-walk}
use query_smith.Float.Sample.{Cents, cents, cents_float}
use query_smith.Ir.{Severity, OperatorInfo}
use query_smith.Ir.Sample.{scan, plan}
use query_smith.Rules.Finding.{Finding}
use query_smith.Rules.Engine.{
  collect, evaluate, check_missing_indexes, check_bookmark_lookups, check_parallelism,
}
use query_smith.Rules.Due.{HasRows, Due, huge_scan, at_root, below, in_first}
use query_smith.Rules.Order.{IsStableOrder, evaluate-IsStableOrder}
use query_smith.Rules.Coverage.Sound.{IsDue, evaluate-IsDue}
use query_smith.Rules.Coverage.Complete.{evaluate-Any-Due}
use query_smith.Rules.Coverage.Found.{Matches}
use query_smith.Rules.Coverage.Total.{evaluate_total}

abbrev rule_ids : List Finding → List String
rule_ids = map (λ f. f.rule_id)

abbrev findings : List Finding
unfolding evaluate Checks.check_large_scans Checks.check_large_scan sort_by
    Checks.promote_adapter_warnings Checks.check_cardinality_skew Checks.check_skew
    Engine.check_bookmark_lookups Engine.check_lookup Engine.check_missing_indexes
    Engine.check_parallelism Engine.check_missing_index show_grouped
findings = elim (evaluate plan) [ ok fs ↦ fs | err e ↦ [] ]

evaluate_runs : evaluate plan ≡ ok findings
unfolding findings
evaluate_runs = refl

findings_test :
    rule_ids findings
    ≡ "large_table_scan" ∷ "missing_index_available" ∷ "adapter_warning.implicit_conversion"
      ∷ "cardinality_skew" ∷ "non_covering_key_lookup" ∷ "parallelism_used" ∷ []
unfolding findings
findings_test = refl

scan_detail_test :
    map (λ f. f.summary) (select (λ f. str_eq f.rule_id "large_table_scan") findings)
    ≡ "table_scan reads ~123,456 rows from Orders" ∷ []
unfolding findings
scan_detail_test = refl

evaluate-IsStableOrder_example :
    (raw : List Finding) × (collect plan ≡ ok raw) × IsStableOrder raw findings
evaluate-IsStableOrder_example = evaluate-IsStableOrder plan findings evaluate_runs

evaluate-IsDue_example : All (IsDue plan) findings
evaluate-IsDue_example = evaluate-IsDue plan findings evaluate_runs

scan_is_Due : Due plan "large_table_scan" Severity.critical (some "1")
scan_is_Due =
    huge_scan scan (cents 12345600) (below (in_first (at_root refl))) (inr refl) (inl refl) refl
      refl refl refl

evaluate-Any-Due_example : Any (Matches "large_table_scan" Severity.critical (some "1")) findings
evaluate-Any-Due_example = evaluate-Any-Due plan findings scan_is_Due evaluate_runs

finite_rows :
    (op : OperatorInfo Cents) (rows : Cents)
    → In op (walk plan.root_operator)
    → HasRows op rows
    → (n : ℤ) × (cents_float.to_int rows ≡ ok n)
unfolding walk
finite_rows op rows (inl e) (inl h) = absurd (cc (ap (λ (o : OperatorInfo Cents). o.actual_rows) e))
finite_rows op rows (inl e) (inr (_, h)) =
    absurd (cc (ap (λ (o : OperatorInfo Cents). o.estimated_rows) e))
finite_rows op rows (inr (inl e)) (inl h) =
    let same : cents 12345600 ≡ rows =
      some-injective _ _ (ap (λ (o : OperatorInfo Cents). o.actual_rows) e ∙ h) in
    rw (← same) (pos 123456, refl)
finite_rows op rows (inr (inl e)) (inr (h, _)) =
    absurd (cc (ap (λ (o : OperatorInfo Cents). o.actual_rows) e))
finite_rows op rows (inr (inr (inl e))) (inl h) =
    absurd (cc (ap (λ (o : OperatorInfo Cents). o.actual_rows) e))
finite_rows op rows (inr (inr (inl e))) (inr (_, h)) =
    absurd (cc (ap (λ (o : OperatorInfo Cents). o.estimated_rows) e))
finite_rows op rows (inr (inr (inr m))) h = absurd m

evaluate_total_example : (fs : List Finding) × (evaluate plan ≡ ok fs)
evaluate_total_example =
    evaluate_total plan (λ op rows w h. finite_rows op rows (Within-In-walk op w) h)
