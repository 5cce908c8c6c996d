-- ===== src/Rules/Coverage/Complete.antt =====
-- `evaluate` of rules/engine.py: from what is due to the findings.
use query_smith.Prelude.{
  ◌∙◌, String, List, ◌++◌, Option, some, somes, ◌≡◌, refl, sym, inl, inr, Any,
}
use mathlib.Core.Path.{subst}
use query_smith.Prelude.Outcome.{Outcome, ok, ◌>>=◌, traverse, >>=-eq-ok}
use query_smith.Prelude.Sorting.{sort_by, Any-sort_by}
use query_smith.Prelude.Collect.{In, Any-map-In, Any-somes, Any-traverse}
use query_smith.Float.{Float}
use query_smith.Ir.{Severity, OperatorInfo, MissingIndex, IrPlan}
use query_smith.Rules.Finding.{Finding, more_severe}
use query_smith.Rules.Checks.{
  walk, check_large_scan, check_large_scans, check_skew, check_cardinality_skew,
  promote_adapter_warning, promote_adapter_warnings,
}
use query_smith.Rules.Engine.{
  collect, evaluate, check_lookup, check_bookmark_lookups, check_missing_index,
  check_missing_indexes, check_parallelism,
}
use query_smith.Rules.Due.{
  Within, Due, warned, huge_scan, large_scan, skewed, looked_up, index_missing, ran_parallel,
}
use query_smith.Rules.Coverage.Walk.{Within-In-walk}
use query_smith.Rules.Coverage.Sound.{severity-warning_rank}
use query_smith.Rules.Coverage.Found.{
  Matches, Holds-some, large_scan_found, skew_found, lookup_found, HasImpact-impact_severity,
  joined_1, joined_2, joined_3, joined_4, joined_5, joined_6,
}

module _ {F : Type 0} ⦃fl : Float F⦄ (plan : IrPlan F) (P : Finding → Type 0) where
  abbrev collected : List Finding → List Finding
  collected scans =
      promote_adapter_warnings plan
      ++ (scans
          ++ (check_cardinality_skew plan.root_operator
              ++ (check_bookmark_lookups plan.root_operator
                  ++ (check_missing_indexes plan ++ check_parallelism plan.root_operator))))

  module _ (scans : List Finding) where
    from_warnings : Any P (promote_adapter_warnings plan) → Any P (collected scans)
    from_warnings =
        joined_1 P (promote_adapter_warnings plan) scans (check_cardinality_skew plan.root_operator)
          (check_bookmark_lookups plan.root_operator) (check_missing_indexes plan)
          (check_parallelism plan.root_operator)

    from_scans : Any P scans → Any P (collected scans)
    from_scans =
        joined_2 P (promote_adapter_warnings plan) scans (check_cardinality_skew plan.root_operator)
          (check_bookmark_lookups plan.root_operator) (check_missing_indexes plan)
          (check_parallelism plan.root_operator)

    from_skew : Any P (check_cardinality_skew plan.root_operator) → Any P (collected scans)
    from_skew =
        joined_3 P (promote_adapter_warnings plan) scans (check_cardinality_skew plan.root_operator)
          (check_bookmark_lookups plan.root_operator) (check_missing_indexes plan)
          (check_parallelism plan.root_operator)

    from_lookups : Any P (check_bookmark_lookups plan.root_operator) → Any P (collected scans)
    from_lookups =
        joined_4 P (promote_adapter_warnings plan) scans (check_cardinality_skew plan.root_operator)
          (check_bookmark_lookups plan.root_operator) (check_missing_indexes plan)
          (check_parallelism plan.root_operator)

    from_indexes : Any P (check_missing_indexes plan) → Any P (collected scans)
    from_indexes =
        joined_5 P (promote_adapter_warnings plan) scans (check_cardinality_skew plan.root_operator)
          (check_bookmark_lookups plan.root_operator) (check_missing_indexes plan)
          (check_parallelism plan.root_operator)

    from_parallelism : Any P (check_parallelism plan.root_operator) → Any P (collected scans)
    from_parallelism =
        joined_6 P (promote_adapter_warnings plan) scans (check_cardinality_skew plan.root_operator)
          (check_bookmark_lookups plan.root_operator) (check_missing_indexes plan)
          (check_parallelism plan.root_operator)

  scans_found :
      (f : OperatorInfo F → Outcome (Option Finding)) (op : OperatorInfo F) (scans : List Finding)
      → Within op plan.root_operator
      → ((o : Option Finding) → f op ≡ ok o → (b : Finding) × (o ≡ some b) × P b)
      → (traverse f (walk plan.root_operator) >>= λ os. ok (somes os)) ≡ ok scans
      → Any P scans
  scans_found f op scans w found h =
      let (os, done, same) =
        >>=-eq-ok (traverse f (walk plan.root_operator)) (λ os. ok (somes os)) h in
      let e : somes os ≡ scans = cc same in
      rw (← e) (Any-traverse P (λ _. Unit) f op found _ os (Within-In-walk op w) done)

  -- What the rules find stays when the findings are sorted.
  evaluate-Any :
      (fs : List Finding)
      → ((scans : List Finding)
          → check_large_scans plan.root_operator ≡ ok scans
          → Any P (collected scans))
      → evaluate plan ≡ ok fs
      → Any P fs
  unfolding evaluate collect
  evaluate-Any fs found h =
      let (raw, ran, same) = >>=-eq-ok (collect plan) (λ raw. ok (sort_by more_severe raw)) h in
      let (scans, done, tail) =
        >>=-eq-ok (check_large_scans plan.root_operator) (λ s'. ok (collected s')) ran in
      let e : sort_by more_severe raw ≡ fs = cc same in
      let e' : collected scans ≡ raw = cc tail in
      rw (← e) (Any-sort_by more_severe P raw (subst (Any P) e' (found scans done)))

module _ {F : Type 0} ⦃fl : Float F⦄ (plan : IrPlan F) {rule : String} {s : Severity}
    {id : Option String} where
  collect-Any :
      (scans : List Finding)
      → check_large_scans plan.root_operator ≡ ok scans
      → Due plan rule s id
      → Any (Matches rule s id) (collected plan (Matches rule s id) scans)
  unfolding promote_adapter_warnings check_large_scans check_cardinality_skew check_bookmark_lookups
      check_missing_indexes check_missing_index check_parallelism
  collect-Any scans h (warned w m e₁ e₂ e₃) = from_warnings plan _ scans (
      Any-map-In (Matches rule s id) promote_adapter_warning w plan.warnings m
        (sym e₁, severity-warning_rank w.type ∙ sym e₂, sym e₃))
  collect-Any scans h (huge_scan op rows w k counted up e₁ e₂ e₃) = from_scans plan _ scans (
      rw (e₁, e₂, e₃)
        (scans_found plan _ check_large_scan op scans w
          (large_scan_found op rows Severity.critical k counted (inl (up, refl))) h))
  collect-Any scans h (large_scan op rows w k counted less up e₁ e₂ e₃) = from_scans plan _ scans (
      rw (e₁, e₂, e₃)
        (scans_found plan _ check_large_scan op scans w
          (large_scan_found op rows Severity.warning k counted (inr (less, up, refl))) h))
  collect-Any scans h (skewed op ratio w e out e₁ e₂ e₃) =
      let (f, found, p) = Holds-some _ _ (skew_found op ratio e out) in
      from_skew plan _ scans
        (rw (e₁, e₂, e₃) (Any-somes _ (λ _. Unit) check_skew op f _ (Within-In-walk op w) found p))
  collect-Any scans h (looked_up op w e e₁ e₂ e₃) =
      let (f, found, p) = Holds-some _ _ (lookup_found op e) in
      from_lookups plan _ scans (
        rw (e₁, e₂, e₃) (Any-somes _ (λ _. Unit) check_lookup op f _ (Within-In-walk op w) found p))
  collect-Any scans h (index_missing mi m impact e₁ e₂) = from_indexes plan _ scans (
      Any-map-In (Matches rule s id) check_missing_index mi plan.missing_indexes m
        (sym e₁, HasImpact-impact_severity _ s impact, sym e₂))
  collect-Any scans h (ran_parallel on e₁ e₂ e₃) =
      from_parallelism plan _ scans (rw on (inl (sym e₁, sym e₂, sym e₃)))

  -- When `evaluate` returns, every finding that is due is among the results, with its rule, severity
  -- and operator.
  pub evaluate-Any-Due :
      (fs : List Finding) → Due plan rule s id → evaluate plan ≡ ok fs → Any (Matches rule s id) fs
  evaluate-Any-Due fs due =
      evaluate-Any plan (Matches rule s id) fs (λ scans done. collect-Any scans done due)

module _ {F : Type 0} ⦃fl : Float F⦄ (plan : IrPlan F) (P : Finding → Type 0) where
  -- The finding of a missing index is among the results.
  pub evaluate-Any-index :
      (mi : MissingIndex F) (fs : List Finding)
      → In mi plan.missing_indexes
      → P (check_missing_index mi)
      → evaluate plan ≡ ok fs
      → Any P fs
  unfolding check_missing_indexes
  evaluate-Any-index mi fs m p = evaluate-Any plan P fs λ scans done.
      from_indexes plan P scans (Any-map-In P check_missing_index mi plan.missing_indexes m p)
