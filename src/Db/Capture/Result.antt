-- ===== src/Db/Capture/Result.antt =====
-- Which result set `capture_plan_xml` returns.
use query_smith.Prelude.{
  String, Bool, true, false, [], ◌∷◌, Option, none, some, ◌≡◌, refl, ◌↔◌, ◌⊎◌, inl, inr, arith,
}
use query_smith.Prelude.Outcome.{Exn, Outcome, ok, err}
use query_smith.Db.Driver.{Rows, ResultSets, str, null, other, end, broken, row, last, lost, more}
use query_smith.Db.Capture.{is_showplan, showplan_row, found_or, find_showplan_xml}

-- The set has a description, and its first row is one text that is a showplan.
pub record Shows (described : Bool) (rows : Rows) (xml : String) : Type 0 where
  pub has_description : described ≡ true
  pub rest : Rows
  pub first : rows ≡ row (str xml ∷ []) rest
  pub plan : is_showplan xml ≡ true

-- The set has no description, or its first row is missing or shows no plan.
abbrev pub Silent : Bool → Rows → Type 0
Silent false rows = Unit
Silent true end = Unit
Silent true (broken e) = ⊥
Silent true (row (str xml ∷ []) rest) = is_showplan xml ≡ false
Silent true (row _ rest) = Unit

-- The plan stands in the first set that shows one.
pub data First (xml : String) : ResultSets → Type 0 where
  in_last :
      {described : Bool} {rows : Rows} → Shows described rows xml → First xml (last described rows)
  in_lost :
      {described : Bool} {rows : Rows} {e : Exn}
      → Shows described rows xml
      → First xml (lost described rows e)
  in_this :
      {described : Bool} {rows : Rows} {sets : ResultSets}
      → Shows described rows xml
      → First xml (more described rows sets)
  in_later :
      {described : Bool} {rows : Rows} {sets : ResultSets}
      → Silent described rows
      → First xml sets
      → First xml (more described rows sets)

showplan_row-Shows :
    (described : Bool) (rows : Rows) (xml : String)
    → showplan_row described rows ≡ ok (some xml)
    → Shows described rows xml
showplan_row-Shows true (row (str s ∷ []) rest) xml h =
    let plan : is_showplan s ≡ true = ground arith in
    let same : s ≡ xml = ground arith in
    record { has_description = refl; rest = rest; first = rw same refl; plan = rw (← same) plan }
showplan_row-Shows true (row _ rest) xml h = cc
showplan_row-Shows true _ xml h = cc
showplan_row-Shows false rows xml h = cc

showplan_row-Silent :
    (described : Bool) (rows : Rows) → showplan_row described rows ≡ ok none → Silent described rows
showplan_row-Silent true (row (str s ∷ []) rest) h = ground arith
showplan_row-Silent true (row _ rest) h = tt
showplan_row-Silent true end h = tt
showplan_row-Silent true (broken e) h = cc
showplan_row-Silent false rows h = tt

Shows-showplan_row :
    (described : Bool) (rows : Rows) (xml : String)
    → Shows described rows xml
    → showplan_row described rows ≡ ok (some xml)
Shows-showplan_row described rows xml s = rw (s.has_description, s.first, s.plan) refl

Silent-showplan_row :
    (described : Bool) (rows : Rows) → Silent described rows → showplan_row described rows ≡ ok none
Silent-showplan_row true (row (str s ∷ []) rest) h = rw h refl
Silent-showplan_row true (row [] rest) h = refl
Silent-showplan_row true (row (str s ∷ c ∷ cs) rest) h = refl
Silent-showplan_row true (row (null ∷ cs) rest) h = refl
Silent-showplan_row true (row (other ∷ cs) rest) h = refl
Silent-showplan_row true end h = refl
Silent-showplan_row true (broken e) h = absurd h
Silent-showplan_row false rows h = refl

found_or-some :
    (r next : Outcome (Option String)) (xml : String)
    → found_or r next ≡ ok (some xml)
    → (r ≡ ok (some xml)) ⊎ ((r ≡ ok none) × (next ≡ ok (some xml)))
found_or-some (ok none) next xml h = inr (refl, h)
found_or-some (ok (some x)) next xml h = inl h
found_or-some (err e) next xml h = cc

find-First :
    (sets : ResultSets) (xml : String) → find_showplan_xml sets ≡ ok (some xml) → First xml sets
unfolding find_showplan_xml
find-First (last described rows) xml h =
    elim (found_or-some (showplan_row described rows) (ok none) xml h) [
      | inl shown ↦ in_last (showplan_row-Shows described rows xml shown)
      | inr (_, e) ↦ cc
    ]
find-First (lost described rows e) xml h =
    elim (found_or-some (showplan_row described rows) (err e) xml h) [
      | inl shown ↦ in_lost (showplan_row-Shows described rows xml shown)
      | inr (_, e') ↦ cc
    ]
find-First (more described rows sets) xml h =
    let later = find-First sets xml in
    elim (found_or-some (showplan_row described rows) (find_showplan_xml sets) xml h) [
      | inl shown ↦ in_this (showplan_row-Shows described rows xml shown)
      | inr (silent, rest) ↦ in_later (showplan_row-Silent described rows silent) (later rest)
    ]

First-find :
    {xml : String} {sets : ResultSets} → First xml sets → find_showplan_xml sets ≡ ok (some xml)
unfolding find_showplan_xml
First-find (in_last s) = rw (Shows-showplan_row _ _ _ s) refl
First-find (in_lost s) = rw (Shows-showplan_row _ _ _ s) refl
First-find (in_this s) = rw (Shows-showplan_row _ _ _ s) refl
First-find (in_later silent f) = rw (Silent-showplan_row _ _ silent) (First-find f)

-- The search returns a plan exactly when that plan is the single text of the first row of the first
-- result set that shows one, and no set before it breaks off.
pub find_showplan_xml_iff :
    (sets : ResultSets) (xml : String) → (find_showplan_xml sets ≡ ok (some xml)) ↔ First xml sets
find_showplan_xml_iff sets xml = (find-First sets xml, λ f. First-find f)
