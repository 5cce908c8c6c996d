-- ===== src/Adapter/Build/Next.antt =====
-- One element, and the operator that `_build_operator_tree` makes of it.
use query_smith.Prelude.{
  ℕ, String, true, false, List, [], ◌∷◌, ◌++◌, any, Bool, ◌≡◌, ◌≢◌, ◌⊎◌, refl, inl, inr, Option,
  none, some,
}
use mathlib.Core.Path.{subst}
use query_smith.Prelude.Outcome.{ok-injective, ok, >>=-eq-ok}
use query_smith.Prelude.Int.{ℤ}
use query_smith.Float.{Float}
use query_smith.Ir.{PlanSource, WarningType, OperatorInfo, Warning}
use query_smith.Adapter.Xml.{Xml, Lxml, attribute, inside, list_of}
use query_smith.Adapter.Extract.{
  find_detail_wrapper, extract_predicates, extract_warnings, direct_child_rel_ops,
}
use query_smith.Adapter.Extract.Laws.{TextsOf, collect_predicates-TextsOf}
use query_smith.Adapter.Counters.{get_float, sum_actual_rows, max_actual_duration_ms}
use query_smith.Adapter.Counters.Laws.{sum_actual_rows-IsTotal, max_actual_duration_ms-IsOneOf}
use query_smith.Adapter.Node.{BuildState, node_id_of, is_spill, build_node}
use query_smith.Adapter.Build.Shown.{
  Identifies, own, absent, empty, Spills, scalar_operators, runtime_info, Shows,
}

node_id_of-Identifies :
    (given : Option String) (n : ℕ)
    → Identifies given n (node_id_of given n).0 (node_id_of given n).1
node_id_of-Identifies none n = absent refl refl refl
node_id_of-Identifies (some String.[]) n = empty refl refl refl
node_id_of-Identifies (some (String.◌∷◌ c s)) n = own refl refl refl

is_spill_cases :
    (w : Warning)
    → ((is_spill w ≡ true) × (w.type ≡ WarningType.tempdb_spill))
      ⊎ ((is_spill w ≡ false) × (w.type ≢ WarningType.tempdb_spill))
is_spill_cases w = go w.type refl
  where
    go :
        (t : WarningType)
        → w.type ≡ t
        → ((is_spill w ≡ true) × (w.type ≡ WarningType.tempdb_spill))
          ⊎ ((is_spill w ≡ false) × (w.type ≢ WarningType.tempdb_spill))
    go WarningType.tempdb_spill e = inl (rw e refl, e)
    go WarningType.implicit_conversion e = inr (rw e refl, λ h. cc)
    go WarningType.no_join_predicate e = inr (rw e refl, λ h. cc)
    go WarningType.column_with_no_stats e = inr (rw e refl, λ h. cc)
    go WarningType.memory_grant_excessive e = inr (rw e refl, λ h. cc)
    go WarningType.cardinality_skew e = inr (rw e refl, λ h. cc)
    go WarningType.other e = inr (rw e refl, λ h. cc)

Spills-cons :
    (w : Warning) (ws : List Warning) (b : Bool)
    → w.type ≢ WarningType.tempdb_spill
    → Spills ws b
    → Spills (w ∷ ws) b
Spills-cons w ws true ne h = inr h
Spills-cons w ws false ne h = (ne, h)

any-Spills : (warnings : List Warning) → Spills warnings (any is_spill warnings)
any-Spills [] = tt
any-Spills (w ∷ ws) = elim (is_spill_cases w) [
  | inl (yes_spill, e) ↦ rw yes_spill (inl e)
  | inr (no_spill, ne) ↦ rw no_spill (Spills-cons w ws (any is_spill ws) ne (any-Spills ws))
]

extract_predicates-TextsOf :
    (lx : Lxml) (wrapper : Option Xml)
    → TextsOf (scalar_operators lx wrapper) (extract_predicates lx wrapper)
unfolding extract_predicates
extract_predicates-TextsOf lx none = record { distinct = tt; sound = tt; complete = tt }
extract_predicates-TextsOf lx (some wrapper) =
    collect_predicates-TextsOf (lx.findall ".//sp:ScalarOperator" wrapper)

module _ (lx : Lxml) {F : Type 0} ⦃fl : Float F⦄ (total_cost : Option F)
    (plan_source : PlanSource) where
  -- the operator of one element, and the state behind it
  abbrev pub Next : Xml → BuildState → OperatorInfo F × BuildState → Type 0
  Next x s built =
      (next : ℕ) × (warnings : List Warning) × Identifies (attribute "NodeId" x) s.next_id
        built.0.id next
      × Shows lx total_cost plan_source x built.0 warnings
      × (record { next_id = next; warnings = s.warnings ++ warnings } ≡ built.1)

  pub build_node-Next :
      (x : Xml) (s : BuildState) (built : OperatorInfo F × BuildState)
      → build_node lx total_cost plan_source x s ≡ ok built
      → Next x s built
  unfolding build_node
  build_node-Next x s built e =
      let info = runtime_info lx total_cost plan_source x in
      let id = node_id_of (attribute "NodeId" x) s.next_id in
      let (wrapper, found, e) = >>=-eq-ok (find_detail_wrapper (list_of (inside x))) _ e in
      let (rows, estimated, e) = >>=-eq-ok (get_float lx "EstimateRows" x) _ e in
      let (cost, costed, e) = >>=-eq-ok (get_float lx "EstimatedTotalSubtreeCost" x) _ e in
      let (total, summed, e) = >>=-eq-ok (sum_actual_rows lx info) _ e in
      let (best, timed, e) = >>=-eq-ok (max_actual_duration_ms lx info) _ e in
      let (warnings, warned, e) = >>=-eq-ok (extract_warnings lx x id.0) _ e in
      let (children, direct, e) = >>=-eq-ok (direct_child_rel_ops x) _ e in
      let (counts, counted, is_total) = sum_actual_rows-IsTotal lx info total summed in
      let (times, read, is_best) = max_actual_duration_ms-IsOneOf lx info best timed in
      subst (Next x s) (ok-injective e) (
        id.1,
        warnings,
        node_id_of-Identifies (attribute "NodeId" x) s.next_id,
        record {
          wrapper = wrapper;
          is_wrapper = found;
          raw = refl;
          typed = refl;
          accessed = refl;
          joined = refl;
          object = refl;
          estimated = estimated;
          cost = costed;
          share = refl;
          row_counts = counts;
          counted = counted;
          total = is_total;
          ratio = refl;
          durations = times;
          timed = read;
          longest = is_best;
          texts = extract_predicates-TextsOf lx wrapper;
          warned = warned;
          spilled = any-Spills warnings;
        },
        refl,
      )

  pub Shows-granted :
      (x : Xml) (op : OperatorInfo F) (warnings : List Warning) (kb : ℤ)
      → Shows lx total_cost plan_source x op warnings
      → Shows lx total_cost plan_source x (record op { memory_grant_kb = some kb }) warnings
  Shows-granted x op warnings kb shown = record {
    wrapper = shown.wrapper;
    is_wrapper = shown.is_wrapper;
    raw = shown.raw;
    typed = shown.typed;
    accessed = shown.accessed;
    joined = shown.joined;
    object = shown.object;
    estimated = shown.estimated;
    cost = shown.cost;
    share = shown.share;
    row_counts = shown.row_counts;
    counted = shown.counted;
    total = shown.total;
    ratio = shown.ratio;
    durations = shown.durations;
    timed = shown.timed;
    longest = shown.longest;
    texts = shown.texts;
    warned = shown.warned;
    spilled = shown.spilled;
  }
