-- ===== src/Rules/Coverage/Found.antt =====
-- What each rule of rules/engine.py makes of an operator or an index for which something is due.
use query_smith.Prelude.{
  String, true, false, List, ◌++◌, Option, none, some, ◌≡◌, refl, inl, inr, arith, Any,
  Any-append_left, Any-append_right, ◌⊎◌,
}
use query_smith.Prelude.Outcome.{ok}
use query_smith.Float.{Float}
use query_smith.Ir.{OperatorType, Severity, OperatorInfo}
use query_smith.Rules.Finding.{Finding}
use query_smith.Rules.Checks.{or_else, scan_value, scan_finding, check_large_scan, check_skew}
use query_smith.Rules.Engine.{check_lookup, impact_severity}
use query_smith.Rules.Due.{Scans, HasRows, HasImpact, unknown, high, medium, low}

abbrev pub Matches : String → Severity → Option String → Finding → Type 0
Matches rule s id f = (f.rule_id ≡ rule) × (f.severity ≡ s) × (f.operator_id ≡ id)

abbrev Holds : (Finding → Type 0) → Option Finding → Type 0
Holds P none = ⊥
Holds P (some f) = P f

pub Holds-some :
    (P : Finding → Type 0) (o : Option Finding) → Holds P o → (f : Finding) × (o ≡ some f) × P f
Holds-some P none h = absurd h
Holds-some P (some f) h = (f, refl, h)

Scans-scan_value :
    {F : Type 0} (op : OperatorInfo F)
    → Scans op
    → (v : String) × (scan_value op.access_type ≡ some v)
Scans-scan_value op (inl e) = ("scan", rw e refl)
Scans-scan_value op (inr e) = ("full_scan", rw e refl)

HasRows-or_else :
    {F : Type 0} (op : OperatorInfo F) (rows : F)
    → HasRows op rows
    → or_else op.actual_rows op.estimated_rows ≡ some rows
HasRows-or_else op rows (inl e) = rw e refl
HasRows-or_else op rows (inr (e, k)) = rw (e, k) refl

module _ {F : Type 0} ⦃fl : Float F⦄ where
  -- The severity that so many rows call for.
  abbrev Graded : F → Severity → Type 0
  Graded rows s =
      ((fl.le (fl.ratio 100000 1) rows ≡ true) × (s ≡ Severity.critical))
      ⊎ ((fl.le (fl.ratio 100000 1) rows ≡ false)
          × (fl.le (fl.ratio 10000 1) rows ≡ true)
          × (s ≡ Severity.warning))

  scan_finding_found :
      (op : OperatorInfo F) (v : String) (rows : F) (s : Severity)
      → Graded rows s
      → (o : Option Finding) → scan_finding op (some v) (some rows) ≡ ok o
      → Holds (Matches "large_table_scan" s (some op.id)) o
  unfolding scan_finding
  scan_finding_found op v rows s graded none h = ground arith
  scan_finding_found op v rows s graded (some f) h = ground arith

  -- what a scan of the operator with so many rows yields, when `int(rows)` returns
  pub large_scan_found :
      (op : OperatorInfo F) (rows : F) (s : Severity)
      → Scans op
      → HasRows op rows
      → Graded rows s
      → (o : Option Finding) → check_large_scan op ≡ ok o
      → (f : Finding) × (o ≡ some f) × Matches "large_table_scan" s (some op.id) f
  unfolding check_large_scan
  large_scan_found op rows s scans counted graded o h =
      let (v, is_scan) = Scans-scan_value op scans in
      Holds-some _ o (
        scan_finding_found op v rows s graded o
          (rw (is_scan, HasRows-or_else op rows counted) at h))

  pub skew_found :
      (op : OperatorInfo F) (ratio : F)
      → op.row_estimate_ratio ≡ some ratio
      → (fl.le (fl.ratio 10 1) ratio ≡ true) ⊎ (fl.le ratio (fl.ratio 1 10) ≡ true)
      → Holds (Matches "cardinality_skew" Severity.warning (some op.id)) (check_skew op)
  unfolding check_skew
  skew_found op ratio e out = rw e (ground arith)

  pub lookup_found :
      (op : OperatorInfo F)
      → op.operator_type ≡ OperatorType.bookmark_lookup
      → Holds (Matches "non_covering_key_lookup" Severity.warning (some op.id)) (check_lookup op)
  unfolding check_lookup
  lookup_found op e = rw e (refl, refl, refl)

  pub HasImpact-impact_severity :
      (impact : Option F) (s : Severity) → HasImpact impact s → impact_severity impact ≡ s
  unfolding impact_severity
  HasImpact-impact_severity impact s (unknown e p) = ground arith
  HasImpact-impact_severity impact s (high x e up p) = ground arith
  HasImpact-impact_severity impact s (medium x e less mid p) = ground arith
  HasImpact-impact_severity impact s (low x e less down p) = ground arith

-- A finding of one of six lists stands in the six joined.
module _ (P : Finding → Type 0) (a b c d e f : List Finding) where
  abbrev joined : List Finding
  joined = a ++ (b ++ (c ++ (d ++ (e ++ f))))

  past_a : Any P (b ++ (c ++ (d ++ (e ++ f)))) → Any P joined
  past_a = Any-append_right P a (b ++ (c ++ (d ++ (e ++ f))))

  past_b : Any P (c ++ (d ++ (e ++ f))) → Any P joined
  past_b h = past_a (Any-append_right P b (c ++ (d ++ (e ++ f))) h)

  past_c : Any P (d ++ (e ++ f)) → Any P joined
  past_c h = past_b (Any-append_right P c (d ++ (e ++ f)) h)

  pub joined_1 : Any P a → Any P joined
  joined_1 = Any-append_left P a (b ++ (c ++ (d ++ (e ++ f))))

  pub joined_2 : Any P b → Any P joined
  joined_2 h = past_a (Any-append_left P b (c ++ (d ++ (e ++ f))) h)

  pub joined_3 : Any P c → Any P joined
  joined_3 h = past_b (Any-append_left P c (d ++ (e ++ f)) h)

  pub joined_4 : Any P d → Any P joined
  joined_4 h = past_c (Any-append_left P d (e ++ f) h)

  pub joined_5 : Any P e → Any P joined
  joined_5 h = past_c (Any-append_right P d (e ++ f) (Any-append_left P e f h))

  pub joined_6 : Any P f → Any P joined
  joined_6 h = past_c (Any-append_right P d (e ++ f) (Any-append_right P e f h))
