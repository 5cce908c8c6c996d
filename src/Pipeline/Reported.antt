-- ===== src/Pipeline/Reported.antt =====
-- From the document to the findings: what an element calls for, read off the document itself.
use query_smith.Prelude.{
  String, true, false, List, ◌∷◌, Option, some, ◌≡◌, refl, sym, ap, ◌∙◌, inl, inr, Any,
}
use mathlib.Core.Path.{subst}
use query_smith.Prelude.Outcome.{ok, traverse, ok-injective}
use query_smith.Prelude.Collect.{In}
use query_smith.Text.{truthy}
use query_smith.Float.{Float}
use query_smith.Ir.{PlanSource, Severity, IrPlan}
use query_smith.Rules.Finding.{Finding}
use query_smith.Rules.Checks.{walk}
use query_smith.Rules.Engine.{evaluate}
use query_smith.Rules.Due.{Due, warned, huge_scan, looked_up}
use query_smith.Rules.Coverage.Walk.{In-walk-Within}
use query_smith.Rules.Coverage.Complete.{evaluate-Any-Due}
use query_smith.Rules.Coverage.Found.{Matches}
use query_smith.Adapter.Xml.{Xml, Lxml, attribute, inside, list_of}
use query_smith.Adapter.OperatorMap.{map_operator_type, map_access_type}
use query_smith.Adapter.Extract.{warning_of, warnings_in, extract_warnings}
use query_smith.Adapter.Node.{BuildState, is_lookup_wrapper}
use query_smith.Adapter.Build.{ParseOptions, parse_plan_xml}
use query_smith.Adapter.Build.Shown.{rel_ops_inside, physical_op, logical_op, Along}
use query_smith.Adapter.Build.Order.{start, parse_plan_xml_in_order}
use query_smith.Adapter.Build.Unique.{rel_ops_of, Parsed-rel_ops_of}
use query_smith.Pipeline.Placed.{
  Calls, looks_up, scans, warns, Place, Along-Place, In-traverse, lookup-type, scan-access,
  Readings-unique, IsTotal-some,
}

module _ (lx : Lxml) {F : Type 0} ⦃fl : Float F⦄ where
  Place-Due :
      (total_cost : Option F) (plan : IrPlan F) (x : Xml) (id rule : String) (s : Severity)
      → Calls lx F x rule s
      → Place lx total_cost id x (walk plan.root_operator) plan.warnings
      → Due plan rule s (some id)
  Place-Due total_cost plan x id rule s (looks_up wrapper found flag names r sev) p =
      let same : p.shown.wrapper ≡ some wrapper = ok-injective (sym p.shown.is_wrapper ∙ found) in
      let flagged : is_lookup_wrapper p.shown.wrapper ≡ true = rw (same, flag) refl in
      looked_up p.op (In-walk-Within p.op p.within)
        (p.shown.typed
          ∙ ap (map_operator_type (physical_op x) (logical_op x)) flagged
          ∙ lookup-type (physical_op x) (logical_op x) names)
        r sev (ap some (sym p.owned))
  Place-Due total_cost plan x id rule s
        (scans wrapper counts rows found flag names read total much r sev) p =
      let same : p.shown.wrapper ≡ wrapper = ok-injective (sym p.shown.is_wrapper ∙ found) in
      let flagged : is_lookup_wrapper p.shown.wrapper ≡ false = rw same flag in
      let access : p.op.access_type ≡ map_access_type (physical_op x) false =
        p.shown.accessed ∙ ap (map_access_type (physical_op x)) flagged in
      let counted : p.op.actual_rows ≡ some rows =
        IsTotal-some lx counts p.op.actual_rows rows
          (rw (Readings-unique lx "ActualRows" _ p.shown.row_counts counts p.shown.counted read) at
            p.shown.total)
          total in
      huge_scan p.op rows (In-walk-Within p.op p.within)
        (elim (scan-access (physical_op x) names) [
          | inl e ↦ inl (access ∙ e)
          | inr e ↦ inr (access ∙ e)
        ])
        (inl counted) much r sev (ap some (sym p.owned))
  Place-Due total_cost plan x id rule s
        (warns warnings child tag type found child_in named known r sev) p =
      let read : warnings_in lx p.op.id (lx.find "sp:Warnings" x) ≡ ok p.warnings =
        unfold extract_warnings in p.shown.warned in
      let extracted : traverse (warning_of p.op.id) (list_of (inside warnings)) ≡ ok p.warnings =
        rw found at read in
      let (w, at, typed, owned) =
        In-traverse p.op.id tag type child (list_of (inside warnings)) p.warnings child_in named
          known extracted in
      warned w (p.kept w at) (rw typed r) (rw typed sev) (sym (owned ∙ ap some p.owned))

-- If the document of an actual plan has a `RelOp` with an id of its own, and the element calls for
-- a finding, being a lookup, or a scan whose threads have read 100,000 rows or more, or having a
-- warning of a known kind, then the analysis of the document reports it: once `parse_plan_xml` and
-- `evaluate` return, there is a finding of that rule and severity with the element's id.
pub evaluate-parse_plan_xml :
    (lx : Lxml) {F : Type 0} ⦃fl : Float F⦄ (options : ParseOptions) (xml : String) (xs : List Xml)
    (x : Xml) (id rule : String) (s : Severity) (plan : IrPlan F) (findings : List Finding)
    → options.plan_source ≡ PlanSource.actual
    → rel_ops_of lx xml ≡ ok xs
    → In x xs
    → attribute "NodeId" x ≡ some id
    → truthy id ≡ true
    → Calls lx F x rule s
    → parse_plan_xml lx options xml ≡ ok plan
    → evaluate plan ≡ ok findings
    → Any (Matches rule s (some id)) findings
evaluate-parse_plan_xml lx options xml xs x id rule s plan findings actual all_ops m has full calls
      e f =
    let (parsed, last, along) = parse_plan_xml_in_order lx options xml plan e in
    let cost = parsed.tree.total_cost in
    let same : parsed.rel_op ∷ rel_ops_inside parsed.rel_op ≡ xs =
      ok-injective (sym (Parsed-rel_ops_of lx options xml plan parsed) ∙ all_ops) in
    let end : BuildState = record { next_id = last; warnings = plan.warnings } in
    let along_xs : Along lx cost PlanSource.actual start xs (walk plan.root_operator) end =
      subst (λ source. Along lx cost source start xs (walk plan.root_operator) end) actual
        (subst (λ ys. Along lx cost options.plan_source start ys (walk plan.root_operator) end) same
          along) in
    evaluate-Any-Due plan findings
      (Place-Due lx cost plan x id rule s calls
        (Along-Place lx cost id x start end xs (walk plan.root_operator) along_xs m has full))
      f
