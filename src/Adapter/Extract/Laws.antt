-- ===== src/Adapter/Extract/Laws.antt =====
-- What `_extract_predicates` collects: a set in the order of the texts' first occurrences.
use query_smith.Prelude.{
  String, true, false, List, [], ◌∷◌, ◌++◌, Option, none, some, ◌≡◌, ◌≢◌, ◌⊎◌, refl, sym, inl, inr,
  eq_iff, str_eq, Bool-cases, All, All-append, Any, Any-append_left, Any-append_right,
}
use mathlib.Core.List.{append-nil, append_assoc}
use query_smith.Prelude.Collect.{In, Distinct, All-map_In}
use query_smith.Text.{truthy, member}
use query_smith.Adapter.Xml.{Xml, attribute}
use query_smith.Adapter.Extract.{extend_unique, collect_predicates}

pub In-of_member : (s : String) (ts : List String) → member s ts ≡ true → In s ts
unfolding member
In-of_member s [] h = cc
In-of_member s (t ∷ ts) h = elim (Bool-cases (str_eq s t)) [
  | inl e ↦ inl (sym ((eq_iff s t).0 e))
  | inr d ↦ inr (In-of_member s ts (rw d at h))
]

All-ne : (s : String) (ts : List String) → member s ts ≡ false → All (λ t. s ≢ t) ts
unfolding member
All-ne s [] h = tt
All-ne s (t ∷ ts) h = elim (Bool-cases (str_eq s t)) [
  | inl e ↦ cc (rw e at h)
  | inr d ↦ ((λ same. cc ((eq_iff s t).1 same)), All-ne s ts (rw d at h))
]

Distinct-append :
    (s : String) (ts : List String) → Distinct ts → All (λ t. s ≢ t) ts → Distinct (ts ++ s ∷ [])
Distinct-append s [] d new = (tt, tt)
Distinct-append s (t ∷ ts) d new =
    (All-append (λ r. r ≢ t) ts (s ∷ []) d.0 (new.0, tt), Distinct-append s ts d.1 new.1)

abbrev Tells : List Xml → String → Type 0
Tells scalar_ops p = (truthy p ≡ true) × Any (λ x. attribute "ScalarString" x ≡ some p) scalar_ops

abbrev Kept : List String → Option String → Type 0
Kept predicates text =
    (text ≡ none) ⊎ ((p : String) × (text ≡ some p) × ((truthy p ≡ false) ⊎ In p predicates))

-- The elements' texts that are not empty, each once.
pub record TextsOf (scalar_ops : List Xml) (predicates : List String) : Type 0 where
  pub distinct : Distinct predicates
  pub sound : All (Tells scalar_ops) predicates
  pub complete : All (λ x. Kept predicates (attribute "ScalarString" x)) scalar_ops

Kept-append :
    (predicates : List String) (p : String) (text : Option String)
    → Kept predicates text
    → Kept (predicates ++ p ∷ []) text
Kept-append predicates p text (inl e) = inl e
Kept-append predicates p text (inr (q, e, inl empty)) = inr (q, e, inl empty)
Kept-append predicates p text (inr (q, e, inr m)) =
    inr (q, e, inr (Any-append_left (λ x. x ≡ q) predicates (p ∷ []) m))

-- One more element that adds nothing.
TextsOf-same :
    (scalar_ops : List Xml) (x : Xml) (predicates : List String)
    → TextsOf scalar_ops predicates
    → Kept predicates (attribute "ScalarString" x)
    → TextsOf (scalar_ops ++ x ∷ []) predicates
TextsOf-same scalar_ops x predicates t kept = record {
  distinct = t.distinct;
  sound =
      All-map_In (Tells scalar_ops) (Tells (scalar_ops ++ x ∷ [])) predicates
        (λ p h.
          (h.0, Any-append_left (λ y. attribute "ScalarString" y ≡ some p) scalar_ops (x ∷ []) h.1))
        t.sound;
  complete =
      All-append (λ y. Kept predicates (attribute "ScalarString" y)) scalar_ops (x ∷ []) t.complete
        (kept, tt);
}

-- One more element with a new text.
TextsOf-new :
    (scalar_ops : List Xml) (x : Xml) (predicates : List String) (p : String)
    → TextsOf scalar_ops predicates
    → attribute "ScalarString" x ≡ some p
    → truthy p ≡ true
    → member p predicates ≡ false
    → TextsOf (scalar_ops ++ x ∷ []) (predicates ++ p ∷ [])
TextsOf-new scalar_ops x predicates p t e full new = record {
  distinct = Distinct-append p predicates t.distinct (All-ne p predicates new);
  sound =
      All-append (Tells (scalar_ops ++ x ∷ [])) predicates (p ∷ [])
        (All-map_In (Tells scalar_ops) (Tells (scalar_ops ++ x ∷ [])) predicates
          (λ q h. (
            h.0,
            Any-append_left (λ y. attribute "ScalarString" y ≡ some q) scalar_ops (x ∷ []) h.1,
          ))
          t.sound)
        (
          (
            full,
            Any-append_right (λ y. attribute "ScalarString" y ≡ some p) scalar_ops (x ∷ []) (inl e),
          ),
          tt,
        );
  complete =
      All-append (λ y. Kept (predicates ++ p ∷ []) (attribute "ScalarString" y)) scalar_ops (x ∷ [])
        (All-map_In (λ y. Kept predicates (attribute "ScalarString" y))
          (λ y. Kept (predicates ++ p ∷ []) (attribute "ScalarString" y)) scalar_ops
          (λ y. Kept-append predicates p (attribute "ScalarString" y)) t.complete)
        (inr (p, e, inr (Any-append_right (λ q. q ≡ p) predicates (p ∷ []) (inl refl))), tt);
}

extend_unique-TextsOf :
    (scalar_ops : List Xml) (x : Xml) (predicates : List String) (text : Option String)
    → attribute "ScalarString" x ≡ text
    → TextsOf scalar_ops predicates
    → TextsOf (scalar_ops ++ x ∷ []) (extend_unique predicates text)
extend_unique-TextsOf scalar_ops x predicates none e t =
    TextsOf-same scalar_ops x predicates t (inl e)
extend_unique-TextsOf scalar_ops x predicates (some p) e t = elim (Bool-cases (truthy p)) [
  | inr empty ↦ rw empty (TextsOf-same scalar_ops x predicates t (inr (p, e, inl empty)))
  | inl full ↦ rw full (elim (Bool-cases (member p predicates)) [
    | inl old ↦
        rw old
          (TextsOf-same scalar_ops x predicates t (inr (p, e, inr (In-of_member p predicates old))))
    | inr new ↦ rw new (TextsOf-new scalar_ops x predicates p t e full new)
  ])
]

collect_predicates-from :
    (before later : List Xml) (predicates : List String)
    → TextsOf before predicates
    → TextsOf (before ++ later) (collect_predicates predicates later)
unfolding collect_predicates
collect_predicates-from before [] predicates t = rw append-nil t
collect_predicates-from before (x ∷ later) predicates t =
    let text = attribute "ScalarString" x in
    rw (← append_assoc before (x ∷ []) later) (
      collect_predicates-from (before ++ x ∷ []) later (extend_unique predicates text)
        (extend_unique-TextsOf before x predicates text refl t))

pub collect_predicates-TextsOf :
    (scalar_ops : List Xml) → TextsOf scalar_ops (collect_predicates [] scalar_ops)
collect_predicates-TextsOf scalar_ops =
    collect_predicates-from [] scalar_ops [] (record { distinct = tt; sound = tt; complete = tt })
