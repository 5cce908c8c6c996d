-- ===== src/Narration/PlanSummary/Ranking.antt =====
-- Which operators a summary shows.
use mathlib.Core.List.{Perm}
use query_smith.Prelude.{
  ℕ, String, Bool, true, false, not, List, ◌++◌, ◌≡◌, ◌∙◌, ◌≤◌, refl, arith, Option, none, some,
  take, All, take-drop, drop, ltb, ◌==◌, if◌then◌else◌,
}
use query_smith.Prelude.Sorting.{
  sort_by, IsSorted, sort_by-IsSorted, sort_by-perm, IsSorted-take, All-take-drop,
}
use query_smith.Prelude.Collect.{All-map_In}
use query_smith.Float.{Float}
use query_smith.Float.Ranked.{IsRanked}
use query_smith.Ir.{OperatorInfo}
use query_smith.Narration.PlanSummary.{text_lt, key_lt, negated, select_notable_operators}

text_lt_asym : (s t : String) → text_lt s t ≡ true → text_lt t s ≡ false
unfolding text_lt
text_lt_asym String.[] String.[] h = refl
text_lt_asym String.[] (String.◌∷◌ d t) h = refl
text_lt_asym (String.◌∷◌ c s) String.[] h = cc
text_lt_asym (String.◌∷◌ c s) (String.◌∷◌ d t) h = ground (arith, text_lt_asym s t)

text_lt_trans : (s t u : String) → text_lt s t ≡ false → text_lt t u ≡ false → text_lt s u ≡ false
unfolding text_lt
text_lt_trans s t String.[] h k = refl
text_lt_trans String.[] String.[] (String.◌∷◌ e u) h k = cc
text_lt_trans String.[] (String.◌∷◌ d t) (String.◌∷◌ e u) h k = cc
text_lt_trans (String.◌∷◌ c s) String.[] (String.◌∷◌ e u) h k = cc
text_lt_trans (String.◌∷◌ c s) (String.◌∷◌ d t) (String.◌∷◌ e u) h k =
    ground (arith, text_lt_trans s t u)

==-sym : (a b : ℕ) → (a == b) ≡ (b == a)
==-sym a b = ground arith

-- a tuple of two numbers and a text against another
abbrev lex : ℕ → ℕ → ℕ → ℕ → Bool → Bool
lex a a' b b' below = if not (a == a') then ltb a a' else if not (b == b') then ltb b b' else below

lex_asym :
    (a a' b b' : ℕ) (below above : Bool)
    → (below ≡ true → above ≡ false)
    → lex a a' b b' below ≡ true
    → lex a' a b' b above ≡ false
lex_asym a a' b b' below above h e = ground arith

lex_trans :
    (a a' a'' b b' b'' : ℕ) (p q r : Bool)
    → (p ≡ false → q ≡ false → r ≡ false)
    → lex a a' b b' p ≡ false
    → lex a' a'' b' b'' q ≡ false
    → lex a a'' b b'' r ≡ false
lex_trans a a' a'' b b' b'' p q r h e f = ground arith

module _ {F : Type 0} ⦃fl : Float F⦄ (ranked : IsRanked fl) where
  open ranked use {rank, eq_rank, lt_rank, neg_eq, neg_lt}

  -- The value, or -1.0 where there is none, as a number.
  abbrev weight : Option F → ℕ
  weight none = rank (fl.neg (fl.ratio 1 1))
  weight (some x) = rank x

  -- The first operator costs more; or as much, and takes longer; or as long, and its id is first.
  abbrev pub weighs_more : OperatorInfo F → OperatorInfo F → Bool
  weighs_more a b =
      lex (weight b.estimated_cost_pct_of_total) (weight a.estimated_cost_pct_of_total)
        (weight b.actual_duration_ms) (weight a.actual_duration_ms) (text_lt a.id b.id)

  -- An operator costs no more than another.
  abbrev pub CostsAtMost : OperatorInfo F → OperatorInfo F → Type 0
  CostsAtMost a b = weight a.estimated_cost_pct_of_total ≤ weight b.estimated_cost_pct_of_total

  eq-negated : (a b : Option F) → fl.eq (negated a) (negated b) ≡ (weight b == weight a)
  unfolding negated
  eq-negated none none = neg_eq _ _ ∙ eq_rank _ _ ∙ ==-sym _ _
  eq-negated none (some b) = neg_eq _ _ ∙ eq_rank _ _ ∙ ==-sym _ _
  eq-negated (some a) none = neg_eq _ _ ∙ eq_rank _ _ ∙ ==-sym _ _
  eq-negated (some a) (some b) = neg_eq _ _ ∙ eq_rank _ _ ∙ ==-sym _ _

  lt-negated : (a b : Option F) → fl.lt (negated a) (negated b) ≡ ltb (weight b) (weight a)
  unfolding negated
  lt-negated none none = neg_lt _ _ ∙ lt_rank _ _
  lt-negated none (some b) = neg_lt _ _ ∙ lt_rank _ _
  lt-negated (some a) none = neg_lt _ _ ∙ lt_rank _ _
  lt-negated (some a) (some b) = neg_lt _ _ ∙ lt_rank _ _

  key_lt-weighs_more : (a b : OperatorInfo F) → key_lt a b ≡ weighs_more a b
  unfolding key_lt
  key_lt-weighs_more a b =
      rw
        (
          eq-negated a.estimated_cost_pct_of_total b.estimated_cost_pct_of_total,
          lt-negated a.estimated_cost_pct_of_total b.estimated_cost_pct_of_total,
          eq-negated a.actual_duration_ms b.actual_duration_ms,
          lt-negated a.actual_duration_ms b.actual_duration_ms,
        )
        refl

  weighs_more_asym : (a b : OperatorInfo F) → weighs_more a b ≡ true → weighs_more b a ≡ false
  weighs_more_asym a b h =
      lex_asym (weight b.estimated_cost_pct_of_total) (weight a.estimated_cost_pct_of_total)
        (weight b.actual_duration_ms) (weight a.actual_duration_ms) (text_lt a.id b.id)
        (text_lt b.id a.id) (text_lt_asym a.id b.id) h

  weighs_more_trans :
      (a b c : OperatorInfo F)
      → weighs_more a b ≡ false
      → weighs_more b c ≡ false
      → weighs_more a c ≡ false
  weighs_more_trans a b c h k =
      lex_trans (weight c.estimated_cost_pct_of_total) (weight b.estimated_cost_pct_of_total)
        (weight a.estimated_cost_pct_of_total) (weight c.actual_duration_ms)
        (weight b.actual_duration_ms) (weight a.actual_duration_ms) (text_lt b.id c.id)
        (text_lt a.id b.id) (text_lt a.id c.id) (λ q p. text_lt_trans a.id b.id c.id p q) k h

  lex_first : (a a' b b' : ℕ) (below : Bool) → lex a a' b b' below ≡ false → a' ≤ a
  lex_first a a' b b' below h = ground arith

  above-costliest :
      (x : OperatorInfo F) (ys : List (OperatorInfo F))
      → All (λ y. weighs_more y x ≡ false) ys
      → All (λ y. CostsAtMost y x) ys
  above-costliest x ys = All-map_In _ _ ys λ y h.
      lex_first _ _ (weight x.actual_duration_ms) (weight y.actual_duration_ms) (text_lt y.id x.id)
        h

module _ {F : Type 0} ⦃fl : Float F⦄ (ranked : IsRanked fl) where
  -- The operators that are shown stand in the order of cost, duration and id; with those left out
  -- they are all the operators; and none left out weighs more, or costs more, than one shown.
  pub record Ranks (operators shown : List (OperatorInfo F)) : Type 0 where
    pub left_out : List (OperatorInfo F)
    pub complete : Perm (shown ++ left_out) operators
    pub in_order : IsSorted (weighs_more ranked) shown
    pub above : All (λ x. All (λ y. weighs_more ranked y x ≡ false) left_out) shown
    pub costliest : All (λ x. All (λ y. CostsAtMost ranked y x) left_out) shown

  -- If floats compare as the numbers of a finite list do and negation turns their order round, then
  -- what `select_notable_operators` shows stands in the order of cost, highest first, then duration,
  -- then id, where a missing number counts as -1; with the operators that it leaves out it is all of
  -- them, each once; and none left out comes before one shown, or costs more.
  pub select_notable_operators-Ranks :
      (operators : List (OperatorInfo F)) (limit : ℕ)
      → Ranks operators (select_notable_operators operators limit)
  unfolding select_notable_operators
  select_notable_operators-Ranks operators limit =
      let more = weighs_more ranked in
      let same : key_lt ≡ more = λ i a b. key_lt-weighs_more ranked a b i in
      let sorted = sort_by more operators in
      let in_order =
        sort_by-IsSorted more (weighs_more_asym ranked) (weighs_more_trans ranked) operators in
      let above = All-take-drop more limit sorted in_order in
      rw same (record {
        left_out = drop limit sorted;
        complete = rw (take-drop limit sorted) (sort_by-perm more operators);
        in_order = IsSorted-take more limit sorted in_order;
        above = above;
        costliest =
            All-map_In _ _ (take limit sorted)
              (λ x h. above-costliest ranked x (drop limit sorted) h) above;
      })
