-- ===== src/Adapter/Counters/Laws.antt =====
-- The totals over an operator's threads beside the readings that they are taken from.
use query_smith.Prelude.{
  String, false, List, [], ◌∷◌, Option, none, some, somes, ◌≡◌, refl, sym, inl, inr, arith,
  Bool-cases, All, ◌≤◌,
}
use query_smith.Prelude.Outcome.{ok, traverse, >>=-eq-ok}
use query_smith.Prelude.Collect.{In}
use query_smith.Float.{Float}
use query_smith.Float.Ranked.{IsRanked}
use query_smith.Adapter.Xml.{Xml, Lxml}
use query_smith.Adapter.Counters.{
  get_float, add_rows, sum_rows, sum_actual_rows, greater, max_durations, max_actual_duration_ms,
}

-- The threads of a `RunTimeInformation`, if there is one.
abbrev pub threads : Lxml → Option Xml → List Xml
threads lx none = []
threads lx (some info) = lx.findall "sp:RunTimeCountersPerThread" info

abbrev fold : {A : Type 0} → (A → A → A) → A → List A → A
fold step acc [] = acc
fold step acc (x ∷ xs) = fold step (step acc x) xs

module _ {F : Type 0} ⦃fl : Float F⦄ where
  -- The sum from 0.0 on, or nothing without a value.
  abbrev pub IsTotal : List F → Option F → Type 0
  IsTotal [] total = total ≡ none
  IsTotal (v ∷ values) total = total ≡ some (fold fl.add (fl.ratio 0 1) (v ∷ values))

  -- One of the values, or nothing without a value.
  abbrev pub IsOneOf : List F → Option F → Type 0
  IsOneOf [] best = best ≡ none
  IsOneOf (v ∷ values) best = (m : F) × (best ≡ some m) × In m (v ∷ values)

  -- No value is greater.
  abbrev pub IsBound : List F → Option F → Type 0
  IsBound values best = All (λ v. (m : F) × (best ≡ some m) × (fl.lt m v ≡ false)) values

  -- The readings of the elements that have the attribute.
  pub record Readings (lx : Lxml) (key : String) (counters : List Xml) (values : List F)
      : Type 0 where
    pub read : List (Option F)
    pub is_read : traverse (get_float lx key) counters ≡ ok read
    pub are_values : somes read ≡ values

module _ (lx : Lxml) {F : Type 0} ⦃fl : Float F⦄ where
  fold-add-some :
      (t : F) (os : List (Option F))
      → fold (add_rows lx) (some t) os ≡ some (fold fl.add t (somes os))
  fold-add-some t [] = refl
  fold-add-some t (none ∷ os) = fold-add-some t os
  fold-add-some t (some v ∷ os) = fold-add-some (fl.add t v) os

  fold-add_rows : (os : List (Option F)) → IsTotal (somes os) (fold (add_rows lx) none os)
  fold-add_rows [] = refl
  fold-add_rows (none ∷ os) = fold-add_rows os
  fold-add_rows (some v ∷ os) = fold-add-some (fl.add (fl.ratio 0 1) v) os

  fold-greater-some :
      (b : F) (os : List (Option F))
      → (m : F) × (fold (greater lx) (some b) os ≡ some m) × In m (b ∷ somes os)
  fold-greater-some b [] = (b, refl, inl refl)
  fold-greater-some b (none ∷ os) = fold-greater-some b os
  fold-greater-some b (some v ∷ os) = elim (Bool-cases (fl.lt b v)) [
    | inl more ↦ let (m, e, at) = fold-greater-some v os in (m, rw more e, inr at)
    | inr less ↦
        let (m, e, at) = fold-greater-some b os in
        (m, rw less e, elim at [ inl same ↦ inl same | inr later ↦ inr (inr later) ])
  ]

  fold-greater : (os : List (Option F)) → IsOneOf (somes os) (fold (greater lx) none os)
  fold-greater [] = refl
  fold-greater (none ∷ os) = fold-greater os
  fold-greater (some v ∷ os) = fold-greater-some v os

  module _ (ranked : IsRanked fl) where
    open ranked use {rank, lt_rank}

    fold-greater_above :
        (b : F) (os : List (Option F))
        → (m : F) × (fold (greater lx) (some b) os ≡ some m)
          × (rank b ≤ rank m)
          × All (λ v. rank v ≤ rank m) (somes os)
    fold-greater_above b [] = (b, refl, omega arith, tt)
    fold-greater_above b (none ∷ os) = fold-greater_above b os
    fold-greater_above b (some v ∷ os) = elim (Bool-cases (fl.lt b v)) [
      | inl more ↦
          let (m, e, above, all) = fold-greater_above v os in
          (m, rw more e, ground (arith, lt_rank b v), (above, all))
      | inr less ↦
          let (m, e, above, all) = fold-greater_above b os in
          (m, rw less e, above, (ground (arith, lt_rank b v), all))
    ]

    bounded :
        (r : Option F) (m : F)
        → r ≡ some m
        → (values : List F) → All (λ v. rank v ≤ rank m) values
        → IsBound values r
    bounded r m e [] h = tt
    bounded r m e (v ∷ values) h =
        ((m, e, ground (arith, lt_rank m v, h.0)), bounded r m e values h.1)

    fold-greater-IsBound : (os : List (Option F)) → IsBound (somes os) (fold (greater lx) none os)
    fold-greater-IsBound [] = tt
    fold-greater-IsBound (none ∷ os) = fold-greater-IsBound os
    fold-greater-IsBound (some v ∷ os) =
        let (m, e, above, all) = fold-greater_above v os in
        bounded (fold (greater lx) (some v) os) m e (v ∷ somes os) (above, all)

  sum_rows-fold :
      (total : Option F) (counters : List Xml) (r : Option F)
      → sum_rows lx total counters ≡ ok r
      → (os : List (Option F)) × (traverse (get_float lx "ActualRows") counters ≡ ok os)
        × (fold (add_rows lx) total os ≡ r)
  unfolding sum_rows
  sum_rows-fold total [] r e = ([], refl, cc e)
  sum_rows-fold total (c ∷ counters) r e =
      let (v, one, e') = >>=-eq-ok (get_float lx "ActualRows" c) _ e in
      let (os, read, same) = sum_rows-fold (add_rows lx total v) counters r e' in
      (v ∷ os, rw (one, read) refl, same)

  max_durations-fold :
      (best : Option F) (counters : List Xml) (r : Option F)
      → max_durations lx best counters ≡ ok r
      → (os : List (Option F)) × (traverse (get_float lx "ActualElapsedms") counters ≡ ok os)
        × (fold (greater lx) best os ≡ r)
  unfolding max_durations
  max_durations-fold best [] r e = ([], refl, cc e)
  max_durations-fold best (c ∷ counters) r e =
      let (v, one, e') = >>=-eq-ok (get_float lx "ActualElapsedms" c) _ e in
      let (os, read, same) = max_durations-fold (greater lx best v) counters r e' in
      (v ∷ os, rw (one, read) refl, same)

  -- `_sum_actual_rows` gives the total of the threads' row counts.
  pub sum_actual_rows-IsTotal :
      (info : Option Xml) (total : Option F)
      → sum_actual_rows lx info ≡ ok total
      → (values : List F) × Readings lx "ActualRows" (threads lx info) values × IsTotal values total
  unfolding sum_actual_rows
  sum_actual_rows-IsTotal none total e =
      ([], record { read = []; is_read = refl; are_values = refl }, sym (cc e))
  sum_actual_rows-IsTotal (some info) total e =
      let (os, read, same) = sum_rows-fold none (threads lx (some info)) total e in
      (
        somes os,
        record { read = os; is_read = read; are_values = refl },
        rw (← same) (fold-add_rows os),
      )

  max_durations_lem :
      (info : Option Xml) (best : Option F)
      → max_actual_duration_ms lx info ≡ ok best
      → (os : List (Option F)) × (traverse (get_float lx "ActualElapsedms") (threads lx info)
          ≡ ok os)
        × (fold (greater lx) none os ≡ best)
  unfolding max_actual_duration_ms
  max_durations_lem none best e = ([], refl, cc e)
  max_durations_lem (some info) best e = max_durations-fold none (threads lx (some info)) best e

  -- `_max_actual_duration_ms` gives one of the threads' durations.
  pub max_actual_duration_ms-IsOneOf :
      (info : Option Xml) (best : Option F)
      → max_actual_duration_ms lx info ≡ ok best
      → (values : List F) × Readings lx "ActualElapsedms" (threads lx info) values
        × IsOneOf values best
  max_actual_duration_ms-IsOneOf info best e =
      let (os, read, same) = max_durations_lem info best e in
      (
        somes os,
        record { read = os; is_read = read; are_values = refl },
        rw (← same) (fold-greater os),
      )

  -- If floats compare as natural numbers do and `_max_actual_duration_ms` returns, it has read the
  -- durations of all threads that have one, and it gives one of them that no other exceeds, or
  -- nothing if there are none.
  pub max_actual_duration_ms-IsBound :
      IsRanked fl
      → (info : Option Xml) (best : Option F) → max_actual_duration_ms lx info ≡ ok best
      → (values : List F) × Readings lx "ActualElapsedms" (threads lx info) values
        × IsOneOf values best
        × IsBound values best
  max_actual_duration_ms-IsBound ranked info best e =
      let (os, read, same) = max_durations_lem info best e in
      (
        somes os,
        record { read = os; is_read = read; are_values = refl },
        rw (← same) (fold-greater os),
        rw (← same) (fold-greater-IsBound ranked os),
      )
