-- ===== src/Web/LastResult.antt =====
-- web/last_result.py: the slot for the result of the last query. Every method holds the lock for
-- its whole body, so each of these functions is one step.
use query_smith.Prelude.{String, List, Option, none, some}
use query_smith.Prelude.Outcome.{Outcome, ok, err, no_result_available_error}
use query_smith.Rules.Finding.{Finding}
use query_smith.Narration.Models.{PlanSummary}

pub record LastResult (F : Type 0) : Type 0 where
  pub plan_summary : PlanSummary F
  pub findings : List Finding

pub record LastResultStore (F : Type 0) : Type 0 where
  pub result : Option (LastResult F)

abbrev pub no_result : String
no_result = "No query has been run yet. POST /api/query first."

module _ {F : Type 0} where
  abbrev pub new : LastResultStore F
  new = record { result = none }

  abbrev pub set : LastResult F → LastResultStore F → LastResultStore F
  set r store = record { result = some r }

  abbrev pub or_no_result : Option (LastResult F) → Outcome (LastResult F)
  or_no_result none = err (no_result_available_error no_result)
  or_no_result (some r) = ok r

  abbrev pub get : LastResultStore F → Outcome (LastResult F)
  get store = or_no_result store.result

  abbrev pub clear : LastResultStore F → LastResultStore F
  clear store = record { result = none }
