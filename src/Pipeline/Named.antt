-- ===== src/Pipeline/Named.antt =====
-- The elements of the document that the findings name.
use query_smith.Prelude.{
  String, List, [], ◌∷◌, map, Option, none, some, ◌≡◌, ◌⊎◌, inl, inr, All, Any,
}
use mathlib.Core.Path.{subst}
use query_smith.Prelude.Outcome.{ok}
use query_smith.Prelude.Collect.{In, All-map_In, Any-of_In}
use query_smith.Float.{Float}
use query_smith.Ir.{Severity, OperatorInfo, Operator, node, operator_info, Warning, IrPlan}
use query_smith.Rules.Finding.{Finding}
use query_smith.Rules.Checks.{walk}
use query_smith.Rules.Engine.{evaluate}
use query_smith.Rules.Due.{
  Due, warned, huge_scan, large_scan, skewed, looked_up, index_missing, ran_parallel, Within,
}
use query_smith.Rules.Coverage.Walk.{Within-In-walk}
use query_smith.Rules.Coverage.Sound.{IsDue, evaluate-IsDue}
use query_smith.Adapter.Xml.{Xml, Lxml, attribute}
use query_smith.Adapter.Build.{ParseOptions, parse_plan_xml}
use query_smith.Adapter.Build.Warnings.{Names, parse_plan_xml-Names}
use query_smith.Adapter.Build.Unique.{rel_ops_of, HasId, parse_plan_xml-ids}

module _ {F : Type 0} ⦃fl : Float F⦄ (plan : IrPlan F) where
  -- The id is that of an operator of the plan.
  abbrev IsOwned : Option String → Type 0
  IsOwned id = Any (λ op. id ≡ some op.id) (walk plan.root_operator)

  Within-IsOwned :
      (op : OperatorInfo F) (id : Option String)
      → Within op plan.root_operator
      → id ≡ some op.id
      → IsOwned id
  Within-IsOwned op id within e =
      Any-of_In (λ o. id ≡ some o.id) op (walk plan.root_operator) (Within-In-walk op within) e

  root-IsOwned :
      (root : Operator F) (id : Option String)
      → id ≡ some (operator_info root).id
      → Any (λ op. id ≡ some op.id) (walk root)
  unfolding walk
  root-IsOwned (node info children) id e = inl e

  warned-IsOwned :
      (w : Warning) (ws : List Warning)
      → In w ws
      → All (Names plan.root_operator) ws
      → IsOwned w.operator_id
  warned-IsOwned w [] m h = absurd m
  warned-IsOwned w (v ∷ ws) (inl e) h = subst (λ (u : Warning). IsOwned u.operator_id) e h.0
  warned-IsOwned w (v ∷ ws) (inr m) h = warned-IsOwned w ws m h.1

  Due-IsOwned :
      (rule : String) (s : Severity) (id : Option String)
      → All (Names plan.root_operator) plan.warnings
      → Due plan rule s id
      → (id ≡ none) ⊎ IsOwned id
  Due-IsOwned rule s id named (warned w m r sev e) =
      inr (rw e (warned-IsOwned w plan.warnings m named))
  Due-IsOwned rule s id named (huge_scan op rows w scans counted up r sev e) =
      inr (Within-IsOwned op id w e)
  Due-IsOwned rule s id named (large_scan op rows w scans counted less up r sev e) =
      inr (Within-IsOwned op id w e)
  Due-IsOwned rule s id named (skewed op ratio w estimated out r sev e) =
      inr (Within-IsOwned op id w e)
  Due-IsOwned rule s id named (looked_up op w typed r sev e) = inr (Within-IsOwned op id w e)
  Due-IsOwned rule s id named (index_missing mi m impact r e) = inl e
  Due-IsOwned rule s id named (ran_parallel on r sev e) = inr (root-IsOwned plan.root_operator id e)

Any-map :
    {A B : Type 0} (P : B → Type 0) (f : A → B) (xs : List A)
    → Any (λ x. P (f x)) xs
    → Any P (map f xs)
Any-map P f [] m = absurd m
Any-map P f (x ∷ xs) (inl h) = inl h
Any-map P f (x ∷ xs) (inr m) = inr (Any-map P f xs m)

Any-unmap :
    {A B : Type 0} (P : B → Type 0) (f : A → B) (xs : List A)
    → Any P (map f xs)
    → Any (λ x. P (f x)) xs
Any-unmap P f [] m = absurd m
Any-unmap P f (x ∷ xs) (inl h) = inl h
Any-unmap P f (x ∷ xs) (inr m) = inr (Any-unmap P f xs m)

-- The finding is about the query as a whole, or about one of the elements.
abbrev pub IsAbout : List Xml → Finding → Type 0
IsAbout xs f = (f.operator_id ≡ none) ⊎ Any (λ x. f.operator_id ≡ attribute "NodeId" x) xs

module _ (lx : Lxml) {F : Type 0} ⦃fl : Float F⦄ (options : ParseOptions) (xml : String)
    (plan : IrPlan F) (xs : List Xml) where
  owned-IsAbout :
      map (λ op. some op.id) (walk plan.root_operator) ≡ map (attribute "NodeId") xs
      → (id : Option String) → (id ≡ none) ⊎ IsOwned plan id
      → (id ≡ none) ⊎ Any (λ x. id ≡ attribute "NodeId" x) xs
  owned-IsAbout ids id (inl e) = inl e
  owned-IsAbout ids id (inr m) = inr (
      Any-unmap (λ o. id ≡ o) (attribute "NodeId") xs
        (rw (← ids) (
          Any-map (λ o. id ≡ o) (λ (op : OperatorInfo F). some op.id) (walk plan.root_operator) m)))

  -- If the `RelOp`s of a document all have ids of their own, and `parse_plan_xml` and `evaluate`
  -- return, then each finding names one of these elements by its id, or no operator at all.
  pub evaluate-IsAbout :
      (findings : List Finding)
      → rel_ops_of lx xml ≡ ok xs
      → All HasId xs
      → parse_plan_xml lx options xml ≡ ok plan
      → evaluate plan ≡ ok findings
      → All (IsAbout xs) findings
  evaluate-IsAbout findings all_ops own_ids e f =
      let named = parse_plan_xml-Names lx options xml plan e in
      let ids = parse_plan_xml-ids lx options xml plan xs all_ops own_ids e in
      All-map_In (IsDue plan) (IsAbout xs) findings
        (λ finding due.
          owned-IsAbout ids finding.operator_id
            (Due-IsOwned plan finding.rule_id finding.severity finding.operator_id named due))
        (evaluate-IsDue plan findings f)
