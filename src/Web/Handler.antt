-- ===== src/Web/Handler.antt =====
-- The handlers of web/app.py as programs: a handler computes, and between its computations it calls
-- a method of one of the two stores. Starlette runs handlers in a thread pool, so the calls of
-- several handlers may alternate; `access` is one call, and `exec` a handler that runs alone.
use query_smith.Prelude.{ℕ, String, Bool}
use query_smith.Prelude.Outcome.{Outcome}
use query_smith.Db.Connection.{ConnectionParams}
use query_smith.Web.Schemas.{
  ConnectionStatusResponse, ViewsResponse, QueryResponse, ProposeFixResponse,
}
use query_smith.Web.Session
use query_smith.Web.Session.{SessionStore}
use query_smith.Web.LastResult
use query_smith.Web.LastResult.{LastResult, LastResultStore}

-- The two stores that FastAPI injects.
pub record Stores (F : Type 0) : Type 0 where
  pub session : SessionStore F
  pub last_result : LastResultStore F

abbrev pub no_stores : {F : Type 0} → Stores F
no_stores = record { session = Session.new; last_result = LastResult.new }

pub data Response (F : Type 0) : Type 0 where
  connection_status : ConnectionStatusResponse → Response F
  no_content : Response F
  view_list : ViewsResponse → Response F
  query_report : QueryResponse F → Response F
  fix_proposal : ProposeFixResponse → Response F

-- What the client gets: a response, an `HTTPException` with its status and detail, or, for any
-- exception that no handler names, the status 500 and the fixed detail of
-- `_unhandled_exception_handler`.
pub data Reply (F : Type 0) : Type 0 where
  reply : Response F → Reply F
  http_exception : ℕ → String → Reply F
  internal_error : Reply F

pub data Handler (F : Type 0) : Type 0 where
  answer : Reply F → Handler F
  is_connected : (Bool → Handler F) → Handler F
  get_session : (Outcome (ConnectionParams F) → Handler F) → Handler F
  set_session : ConnectionParams F → Handler F → Handler F
  clear_session : Handler F → Handler F
  get_result : (Outcome (LastResult F) → Handler F) → Handler F
  set_result : LastResult F → Handler F → Handler F
  clear_result : Handler F → Handler F

module _ {F : Type 0} where
  -- One call of a store's method, and what is left of the handler.
  abbrev pub access : Handler F → Stores F → Stores F × Handler F
  access (answer r) s = (s, answer r)
  access (is_connected k) s = (s, k (Session.is_connected s.session))
  access (get_session k) s = (s, k (Session.get s.session))
  access (set_session p h) s = (record s { session = Session.set p s.session }, h)
  access (clear_session h) s = (record s { session = Session.clear s.session }, h)
  access (get_result k) s = (s, k (LastResult.get s.last_result))
  access (set_result r h) s = (record s { last_result = LastResult.set r s.last_result }, h)
  access (clear_result h) s = (record s { last_result = LastResult.clear s.last_result }, h)

  -- A handler that no other one interrupts.
  abbrev pub exec : Handler F → Stores F → Stores F × Reply F
  exec (answer r) s = (s, r)
  exec (is_connected k) s = exec (k (Session.is_connected s.session)) s
  exec (get_session k) s = exec (k (Session.get s.session)) s
  exec (set_session p h) s = exec h (record s { session = Session.set p s.session })
  exec (clear_session h) s = exec h (record s { session = Session.clear s.session })
  exec (get_result k) s = exec (k (LastResult.get s.last_result)) s
  exec (set_result r h) s = exec h (record s { last_result = LastResult.set r s.last_result })
  exec (clear_result h) s = exec h (record s { last_result = LastResult.clear s.last_result })
