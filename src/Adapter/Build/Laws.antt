-- ===== src/Adapter/Build/Laws.antt =====
-- `_build_operator_tree` of plan_xml_to_ir.py against the recursion as the code writes it.
use query_smith.Prelude.{
  List, [], ◌∷◌, ◌++◌, Option, none, str_eq, ◌≡◌, refl, inl, inr, Bool-cases, if◌then◌else◌,
}
use query_smith.Prelude.Outcome.{Outcome, ok, ◌>>=◌, >>=-eq-ok, Outcome-cases}
use query_smith.Float.{Float}
use query_smith.Ir.{PlanSource, OperatorInfo, Operators, node}
use query_smith.Adapter.Xml.{Xml, element, comment, Nodes, Lxml, attribute, inside, list_of}
use query_smith.Adapter.Extract.{
  find_detail_wrapper, extract_warnings, direct_child_rel_ops, direct_rel_ops,
}
use query_smith.Adapter.Counters.{get_float, sum_actual_rows, max_actual_duration_ms}
use query_smith.Adapter.Build.{
  enter, build_inside, build_nodes, build_operator_tree, append_operators, attach, entered,
}
use query_smith.Adapter.Node.{is_actual, node_id_of, BuildState, build_node}

module _ (lx : Lxml) {F : Type 0} ⦃fl : Float F⦄ (total_cost : Option F)
    (plan_source : PlanSource) where
  -- The list comprehension of `_build_operator_tree`: each element in turn, with the state that the
  -- one before has left.
  pub build_each : List Xml → BuildState → Outcome (Operators F × BuildState)
  build_each [] s = ok (Operators.nil, s)
  build_each (x ∷ xs) s = do
    here ← build_operator_tree lx total_cost plan_source x s
    later ← build_each xs here.1
    ok (Operators.cons here.0 later.0, later.1)

  build_each-append :
      (xs ys : List Xml) (s : BuildState)
      → build_each (xs ++ ys) s ≡ (
          build_each xs s >>= λ here.
          build_each ys here.1 >>= λ later. ok (append_operators here.0 later.0, later.1))
  unfolding build_each
  build_each-append [] ys s = elim (Outcome-cases (build_each ys s)) [
    | inl (later, e) ↦ rw e refl
    | inr (x, e) ↦ rw e refl
  ]
  build_each-append (x ∷ xs) ys s =
      elim (Outcome-cases (build_operator_tree lx total_cost plan_source x s)) [
        | inr (x, e) ↦ rw e refl
        | inl (here, e) ↦ elim (Outcome-cases (build_each xs here.1)) [
          | inr (x, f) ↦ rw (e, build_each-append xs ys here.1, f) refl
          | inl (mid, f) ↦ elim (Outcome-cases (build_each ys mid.1)) [
            | inr (x, g) ↦ rw (e, build_each-append xs ys here.1, f, g) refl
            | inl (later, g) ↦ rw (e, build_each-append xs ys here.1, f, g) refl
          ]
        ]
      ]

  built-eq :
      (x : Xml) (xs : Nodes) (rs : List Xml) (s : BuildState)
      → ((t : BuildState) → build_nodes lx total_cost plan_source xs t ≡ build_each rs t)
      → (build_node lx total_cost plan_source x s >>= (λ built. ok (entered built)) >>= λ here.
          build_inside lx total_cost plan_source x here.1 >>= λ beneath.
          build_nodes lx total_cost plan_source xs beneath.1 >>= λ later.
          ok (attach here.0 beneath.0 later.0, later.1))
        ≡ build_each (x ∷ rs) s
  unfolding build_each build_operator_tree
  built-eq x xs rs s same = elim (Outcome-cases (build_node lx total_cost plan_source x s)) [
    | inr (x', e) ↦ rw e refl
    | inl (built, e) ↦ elim (Outcome-cases (build_inside lx total_cost plan_source x built.1)) [
      | inr (x', f) ↦ rw (e, f) refl
      | inl (beneath, f) ↦ rw (e, f, same beneath.1) refl
    ]
  ]

  mutual
    unfolding direct_child_rel_ops direct_rel_ops build_inside build_nodes enter build_each

    inside-each :
        (x : Xml) (ds : List Xml) (s : BuildState)
        → direct_child_rel_ops x ≡ ok ds
        → build_inside lx total_cost plan_source x s ≡ build_each ds s
    inside-each (element namespace name attrs nodes) ds s h = nodes-each nodes ds s h
    inside-each comment ds s h = let same : [] ≡ ds = cc h in rw (← same) refl

    nodes-each :
        (xs : Nodes) (ds : List Xml) (s : BuildState)
        → direct_rel_ops xs ≡ ok ds
        → build_nodes lx total_cost plan_source xs s ≡ build_each ds s
    nodes-each Nodes.nil ds s h = let same : [] ≡ ds = cc h in rw (← same) refl
    nodes-each (Nodes.cons comment xs) ds s h = cc
    nodes-each (Nodes.cons (element namespace name attrs nodes) xs) ds s h =
        let (here, found, h') =
          >>=-eq-ok
            (if str_eq name "RelOp"
              then ok (element namespace name attrs nodes ∷ [])
              else direct_rel_ops nodes)
            _ h in
        let (rs, rest, h'') = >>=-eq-ok (direct_rel_ops xs) _ h' in
        let same : here ++ rs ≡ ds = cc h'' in
        elim (Bool-cases (str_eq name "RelOp")) [
          | inl e ↦
              let one : element namespace name attrs nodes ∷ [] ≡ here = cc (rw e at found) in
              rw (e, ← same, ← one)
                (built-eq (element namespace name attrs nodes) xs rs s
                  (λ t. nodes-each xs rs t rest))
          | inr e ↦
              let inner = nodes-each nodes here s (rw e at found) in
              rw (e, ← same, build_each-append here rs s, ← inner)
                (elim (Outcome-cases (build_nodes lx total_cost plan_source nodes s)) [
                  | inr (x, f) ↦ rw f refl
                  | inl (beneath, f) ↦ rw (f, nodes-each xs rs beneath.1 rest) refl
                ])
        ]

  build_node-children :
      (x : Xml) (s : BuildState) (built : OperatorInfo F × BuildState)
      → build_node lx total_cost plan_source x s ≡ ok built
      → (ds : List Xml) × (direct_child_rel_ops x ≡ ok ds)
  unfolding build_node
  build_node-children x s built e =
      let (a, ea, e) = >>=-eq-ok (find_detail_wrapper (list_of (inside x))) _ e in
      let (b, eb, e) = >>=-eq-ok (get_float lx "EstimateRows" x) _ e in
      let (c, ec, e) = >>=-eq-ok (get_float lx "EstimatedTotalSubtreeCost" x) _ e in
      let (d, ed, e) =
        >>=-eq-ok
          (sum_actual_rows lx
            (if is_actual plan_source then lx.find "sp:RunTimeInformation" x else none))
          _ e in
      let (f, ef, e) =
        >>=-eq-ok
          (max_actual_duration_ms lx
            (if is_actual plan_source then lx.find "sp:RunTimeInformation" x else none))
          _ e in
      let (g, eg, e) =
        >>=-eq-ok (extract_warnings lx x (node_id_of (attribute "NodeId" x) s.next_id).0) _ e in
      let (ds, found, e) = >>=-eq-ok (direct_child_rel_ops x) _ e in (ds, found)

  -- For every element and state, `build_operator_tree` is what the code's recursion says: the
  -- operator's own fields, then the trees of its direct `RelOp`s, built one after the other with
  -- the counter and the warnings passed along.
  pub build_operator_tree_lem :
      (x : Xml) (s : BuildState)
      → build_operator_tree lx total_cost plan_source x s ≡ (
          build_node lx total_cost plan_source x s >>= λ built.
          direct_child_rel_ops x >>= λ children.
          build_each children built.1 >>= λ ops. ok (node built.0 ops.0, ops.1))
  unfolding build_operator_tree
  build_operator_tree_lem x s = elim (Outcome-cases (build_node lx total_cost plan_source x s)) [
    | inr (x', e) ↦ rw e refl
    | inl (built, e) ↦
        let (ds, found) = build_node-children x s built e in
        rw (e, found, ← inside-each x ds built.1 found) refl
  ]
