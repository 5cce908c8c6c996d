-- ===== src/Rules/Coverage/Walk.antt =====
-- `_walk` of rules/engine.py against the relation of standing in a tree.
use query_smith.Prelude.{
  List, [], ◌∷◌, ◌++◌, inl, inr, Any-append_left, Any-append_right, ◌≡◌, ◌⊎◌, Any,
}
use query_smith.Prelude.Collect.{In}
use query_smith.Ir.{OperatorInfo, Operator, Operators, node, nil, cons}
use query_smith.Rules.Due.{Within, WithinAny, at_root, below, in_first, in_later}
use query_smith.Rules.Checks.{walk, walk_all}

Any-append_cases :
    {A : Type 0} (P : A → Type 0) (xs ys : List A) → Any P (xs ++ ys) → Any P xs ⊎ Any P ys
Any-append_cases P [] ys h = inr h
Any-append_cases P (x ∷ xs) ys (inl h) = inl (inl h)
Any-append_cases P (x ∷ xs) ys (inr h) = elim (Any-append_cases P xs ys h) [
  | inl k ↦ inl (inr k)
  | inr k ↦ inr k
]

module _ {F : Type 0} (op : OperatorInfo F) where
  mutual
    unfolding walk

    In-walk : (tree : Operator F) → Within op tree → In op (walk tree)
    In-walk (node info children) (at_root e) = inl e
    In-walk (node info children) (below w) = inr (In-walk_all children w)

    In-walk_all : (trees : Operators F) → WithinAny op trees → In op (walk_all trees)
    In-walk_all nil w = elim w [ ]
    In-walk_all (cons tree trees) (in_first w) =
        Any-append_left (λ x. x ≡ op) (walk tree) (walk_all trees) (In-walk tree w)
    In-walk_all (cons tree trees) (in_later w) =
        Any-append_right (λ x. x ≡ op) (walk tree) (walk_all trees) (In-walk_all trees w)

  mutual
    unfolding walk

    Within-walk : (tree : Operator F) → In op (walk tree) → Within op tree
    Within-walk (node info children) (inl e) = at_root e
    Within-walk (node info children) (inr m) = below (Within-walk_all children m)

    Within-walk_all : (trees : Operators F) → In op (walk_all trees) → WithinAny op trees
    Within-walk_all nil m = absurd m
    Within-walk_all (cons tree trees) m =
        elim (Any-append_cases (λ x. x ≡ op) (walk tree) (walk_all trees) m) [
          | inl k ↦ in_first (Within-walk tree k)
          | inr k ↦ in_later (Within-walk_all trees k)
        ]

  pub Within-In-walk : {tree : Operator F} → Within op tree → In op (walk tree)
  Within-In-walk {tree} w = In-walk tree w

  pub In-walk-Within : {tree : Operator F} → In op (walk tree) → Within op tree
  In-walk-Within {tree} m = Within-walk tree m
