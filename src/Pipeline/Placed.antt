-- ===== src/Pipeline/Placed.antt =====
-- What an element of the document calls for, and the operator that shows it.
use query_smith.Prelude.{
  String, ◌<>◌, true, false, List, [], ◌∷◌, ◌++◌, Option, some, somes, ◌≡◌, refl, sym, ap, ◌∙◌, ◌⊎◌,
  inl, inr, Any-append_left, Any-append_right,
}
use mathlib.Core.Path.{subst}
use mathlib.Core.Option.{some-injective}
use query_smith.Prelude.Outcome.{ok, traverse, >>=-eq-ok, ok-injective}
use query_smith.Prelude.Collect.{In}
use query_smith.Text.{truthy}
use query_smith.Float.{Float}
use query_smith.Ir.{
  PlanSource, OperatorType, AccessType, WarningType, Severity, OperatorInfo, Warning,
}
use query_smith.Ir.Names.{warning_type_value}
use query_smith.Rules.Due.{warning_rank}
use query_smith.Adapter.Xml.{Xml, Lxml, attribute, lookup, value_or, local_name, inside, list_of}
use query_smith.Adapter.OperatorMap.{map_operator_type, map_access_type, warning_tag_map}
use query_smith.Adapter.Extract.{find_detail_wrapper, warning_of}
use query_smith.Adapter.Counters.Laws.{threads, IsTotal, Readings}
use query_smith.Adapter.Node.{BuildState, is_lookup_wrapper}
use query_smith.Adapter.Build.Shown.{physical_op, Shows, Along}
use query_smith.Adapter.Build.Unique.{Identifies-own}

module _ (lx : Lxml) (F : Type 0) ⦃fl : Float F⦄ where
  -- The rule, by its id, and the severity that a `RelOp` of an actual plan calls for.
  pub data Calls (x : Xml) (rule : String) (s : Severity) : Type 0 where
    -- a lookup into the clustered index or the heap
    looks_up :
        (wrapper : Xml)
        → find_detail_wrapper (list_of (inside x)) ≡ ok (some wrapper)
        → attribute "Lookup" wrapper ≡ some "1"
        → In (physical_op x) ("Clustered Index Seek" ∷ "Index Seek" ∷ "RID Lookup" ∷ [])
        → rule ≡ "non_covering_key_lookup"
        → s ≡ Severity.warning
        → Calls x rule s
    -- a scan of 100,000 rows or more, counted over its threads
    scans :
        (wrapper : Option Xml) (counts : List F) (rows : F)
        → find_detail_wrapper (list_of (inside x)) ≡ ok wrapper
        → is_lookup_wrapper wrapper ≡ false
        → In (physical_op x) ("Table Scan" ∷ "Index Scan" ∷ "Clustered Index Scan" ∷ [])
        → Readings lx "ActualRows" (threads lx (lx.find "sp:RunTimeInformation" x)) counts
        → IsTotal counts (some rows)
        → fl.le (fl.ratio 100000 1) rows ≡ true
        → rule ≡ "large_table_scan"
        → s ≡ Severity.critical
        → Calls x rule s
    -- a warning of the server
    warns :
        (warnings child : Xml) (tag : String) (type : WarningType)
        → lx.find "sp:Warnings" x ≡ some warnings
        → In child (list_of (inside warnings))
        → local_name child ≡ ok tag
        → lookup tag warning_tag_map ≡ some type
        → rule ≡ "adapter_warning." <> warning_type_value type
        → s ≡ warning_rank type
        → Calls x rule s

warning_of-known :
    (id tag : String) (type : WarningType) (child : Xml) (w : Warning)
    → local_name child ≡ ok tag
    → lookup tag warning_tag_map ≡ some type
    → warning_of id child ≡ ok w
    → (w.type ≡ type) × (w.operator_id ≡ some id)
warning_of-known id tag type child w named known e =
    let (t, is_tag, made) = >>=-eq-ok (local_name child) _ e in
    let same : t ≡ tag = ok-injective (sym is_tag ∙ named) in
    let typed : value_or WarningType.other (lookup t warning_tag_map) ≡ w.type =
      ap (λ (v : Warning). v.type) (ok-injective made) in
    (
      sym typed
          ∙ ap (λ (k : String). value_or WarningType.other (lookup k warning_tag_map)) same
          ∙ ap (value_or WarningType.other) known,
      ap (λ (v : Warning). v.operator_id) (sym (ok-injective made)),
    )

-- The warning of a child is among those of the element.
pub In-traverse :
    (id tag : String) (type : WarningType) (child : Xml) (xs : List Xml) (ws : List Warning)
    → In child xs
    → local_name child ≡ ok tag
    → lookup tag warning_tag_map ≡ some type
    → traverse (warning_of id) xs ≡ ok ws
    → (w : Warning) × In w ws × (w.type ≡ type) × (w.operator_id ≡ some id)
In-traverse id tag type child [] ws m named known e = absurd m
In-traverse id tag type child (x ∷ xs) ws m named known e =
    let (w, one, e') = >>=-eq-ok (warning_of id x) _ e in
    let (rest, others, e'') = >>=-eq-ok (traverse (warning_of id) xs) _ e' in
    let same : w ∷ rest ≡ ws = ok-injective e'' in
    elim m [
      | inl here ↦
          let (typed, owned) = warning_of-known id tag type child w named known (rw (← here) one) in
          (w, rw (← same) (inl refl), typed, owned)
      | inr later ↦
          let (v, at, typed, owned) =
            In-traverse id tag type child xs rest later named known others in
          (v, rw (← same) (inr at), typed, owned)
    ]

pub lookup-type :
    (p l : String)
    → In p ("Clustered Index Seek" ∷ "Index Seek" ∷ "RID Lookup" ∷ [])
    → map_operator_type p l true ≡ OperatorType.bookmark_lookup
unfolding map_operator_type
lookup-type p l (inl e) = rw (← e) refl
lookup-type p l (inr (inl e)) = rw (← e) refl
lookup-type p l (inr (inr (inl e))) = rw (← e) refl
lookup-type p l (inr (inr (inr m))) = absurd m

pub scan-access :
    (p : String)
    → In p ("Table Scan" ∷ "Index Scan" ∷ "Clustered Index Scan" ∷ [])
    → (map_access_type p false ≡ some AccessType.scan)
      ⊎ (map_access_type p false ≡ some AccessType.full_scan)
unfolding map_access_type
scan-access p (inl e) = inr (rw (← e) refl)
scan-access p (inr (inl e)) = inl (rw (← e) refl)
scan-access p (inr (inr (inl e))) = inl (rw (← e) refl)
scan-access p (inr (inr (inr m))) = absurd m

module _ (lx : Lxml) {F : Type 0} ⦃fl : Float F⦄ where
  pub Readings-unique :
      (key : String) (counters : List Xml) (vs ws : List F)
      → Readings lx key counters vs
      → Readings lx key counters ws
      → vs ≡ ws
  Readings-unique key counters vs ws r q =
      let same : r.read ≡ q.read = ok-injective (sym r.is_read ∙ q.is_read) in
      sym r.are_values ∙ ap somes same ∙ q.are_values

  pub IsTotal-some :
      (values : List F) (total : Option F) (rows : F)
      → IsTotal values total
      → IsTotal values (some rows)
      → total ≡ some rows
  IsTotal-some [] total rows h k = cc
  IsTotal-some (v ∷ values) total rows h k = h ∙ sym k

  module _ (total_cost : Option F) where
    Along-In :
        (s t : BuildState) (w : Warning) (xs : List Xml) (ops : List (OperatorInfo F))
        → Along lx total_cost PlanSource.actual s xs ops t
        → In w s.warnings
        → In w t.warnings
    Along-In s t w [] [] h m = rw (← h) m
    Along-In s t w [] (op ∷ ops) h m = absurd h
    Along-In s t w (x ∷ xs) [] h m = absurd h
    Along-In s t w (x ∷ xs) (op ∷ ops) (next, ws, id, shown, h) m =
        Along-In (record { next_id = next; warnings = s.warnings ++ ws }) t w xs ops h
          (Any-append_left (λ v. v ≡ w) s.warnings ws m)

    -- The operator of an element, with its warnings.
    pub record Place (id : String) (x : Xml) (ops : List (OperatorInfo F)) (all : List Warning)
        : Type 0 where
      pub op : OperatorInfo F
      pub warnings : List Warning
      pub within : In op ops
      pub owned : op.id ≡ id
      pub shown : Shows lx total_cost PlanSource.actual x op warnings
      pub kept : (w : Warning) → In w warnings → In w all

    pub Along-Place :
        (id : String) (x : Xml) (s t : BuildState) (xs : List Xml) (ops : List (OperatorInfo F))
        → Along lx total_cost PlanSource.actual s xs ops t
        → In x xs
        → attribute "NodeId" x ≡ some id
        → truthy id ≡ true
        → Place id x ops t.warnings
    Along-Place id x s t [] ops h m has full = absurd m
    Along-Place id x s t (y ∷ xs) [] h m has full = absurd h
    Along-Place id x s t (y ∷ xs) (op ∷ ops) (next, ws, i, shown, h) m has full = elim m [
      | inl here ↦
          let at : attribute "NodeId" y ≡ some id = rw here has in
          record {
            op = op;
            warnings = ws;
            within = inl refl;
            owned = some-injective _ _ (Identifies-own _ _ _ _ id i at full ∙ at);
            shown = subst (λ z. Shows lx total_cost PlanSource.actual z op ws) here shown;
            kept = λ w n.
                Along-In (record { next_id = next; warnings = s.warnings ++ ws }) t w xs ops h
                  (Any-append_right (λ v. v ≡ w) s.warnings ws n);
          }
      | inr later ↦
          let p = Along-Place id x _ t xs ops h later has full in
          record {
            op = p.op;
            warnings = p.warnings;
            within = inr p.within;
            owned = p.owned;
            shown = p.shown;
            kept = p.kept;
          }
    ]
