-- ===== src/Web/Session.antt =====
-- web/session.py: the slot for the active connection. Every method holds the lock for its whole
-- body, so each of these functions is one step.
use query_smith.Prelude.{String, ◌<>◌, Bool, Option, none, some, is_some}
use query_smith.Prelude.Outcome.{Outcome, ok, err, not_connected_error}
use query_smith.Text.Repr.{repr_text}
use query_smith.Db.Connection.{ConnectionParams}

module _ {F : Type 0} where
  -- `ConnectionParams.__repr__`
  unfoldable pub show_params : ConnectionParams F → String
  unfolding repr_text
  show_params p =
      "ConnectionParams(server="
      <> repr_text p.server
      <> ", database="
      <> repr_text p.database
      <> ", user="
      <> repr_text p.user
      <> ", driver="
      <> repr_text p.driver
      <> ")"

pub record SessionStore (F : Type 0) : Type 0 where
  pub params : Option (ConnectionParams F)

abbrev pub not_connected : String
not_connected = "No active connection. POST /api/connection first."

module _ {F : Type 0} where
  abbrev pub new : SessionStore F
  new = record { params = none }

  abbrev pub set : ConnectionParams F → SessionStore F → SessionStore F
  set p store = record { params = some p }

  abbrev pub or_not_connected : Option (ConnectionParams F) → Outcome (ConnectionParams F)
  or_not_connected none = err (not_connected_error not_connected)
  or_not_connected (some p) = ok p

  abbrev pub get : SessionStore F → Outcome (ConnectionParams F)
  get store = or_not_connected store.params

  abbrev pub clear : SessionStore F → SessionStore F
  clear store = record { params = none }

  abbrev pub is_connected : SessionStore F → Bool
  is_connected store = is_some store.params
