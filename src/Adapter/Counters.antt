-- ===== src/Adapter/Counters.antt =====
-- plan_xml_to_ir.py: the numbers of an element, and those of its threads' counters.
pub mod Laws
use query_smith.Prelude.{String, ◌<>◌, List, [], ◌∷◌, Option, none, some, if◌then◌else◌}
use query_smith.Prelude.Outcome.{Outcome, ok, err, ◌>>=◌, value_error}
use query_smith.Float.{Float}
use query_smith.Adapter.Xml.{Xml, Lxml, attribute}

module _ (lx : Lxml) where
  module _ {F : Type 0} ⦃fl : Float F⦄ where
    -- `float(s)`
    abbrev pub float_of : String → Outcome F
    float_of s = elim (fl.of_text s) [
      | none ↦ err (value_error ("could not convert string to float: " <> s))
      | some x ↦ ok x
    ]

    abbrev pub float_of? : Option String → Outcome (Option F)
    float_of? none = ok none
    float_of? (some s) = float_of s >>= λ x. ok (some x)

    -- `_get_float`
    abbrev pub get_float : String → Xml → Outcome (Option F)
    get_float key x = float_of? (attribute key x)

    -- one round of the loop of `_sum_actual_rows`, with the total if a count was found
    abbrev add_rows : Option F → Option F → Option F
    add_rows total none = total
    add_rows none (some rows) = some (fl.add (fl.ratio 0 1) rows)
    add_rows (some total) (some rows) = some (fl.add total rows)

    sum_rows : Option F → List Xml → Outcome (Option F)
    sum_rows total [] = ok total
    sum_rows total (counters ∷ rest) = do
      rows ← get_float "ActualRows" counters
      sum_rows (add_rows total rows) rest

    -- `_sum_actual_rows`
    unfoldable pub sum_actual_rows : Option Xml → Outcome (Option F)
    unfolding sum_rows
    sum_actual_rows none = ok none
    sum_actual_rows (some info) = sum_rows none (lx.findall "sp:RunTimeCountersPerThread" info)

    -- `max`: a later value replaces the first if it is greater
    abbrev greater : Option F → Option F → Option F
    greater best none = best
    greater none (some x) = some x
    greater (some best) (some x) = if fl.lt best x then some x else some best

    max_durations : Option F → List Xml → Outcome (Option F)
    max_durations best [] = ok best
    max_durations best (counters ∷ rest) = do
      v ← get_float "ActualElapsedms" counters
      max_durations (greater best v) rest

    -- `_max_actual_duration_ms`
    unfoldable pub max_actual_duration_ms : Option Xml → Outcome (Option F)
    unfolding max_durations
    max_actual_duration_ms none = ok none
    max_actual_duration_ms (some info) =
        max_durations none (lx.findall "sp:RunTimeCountersPerThread" info)

module _ {F : Type 0} ⦃fl : Float F⦄ where
  -- `_compute_row_estimate_ratio(estimated, actual)` is `quotient actual estimated`, and
  -- `_compute_cost_pct(node_cost, total_cost)` is `quotient node_cost total_cost`.
  abbrev pub quotient : Option F → Option F → Option F
  quotient none divisor = none
  quotient (some x) none = none
  quotient (some x) (some y) = if fl.eq y (fl.ratio 0 1) then none else some (fl.div x y)
