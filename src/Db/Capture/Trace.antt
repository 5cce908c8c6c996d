-- ===== src/Db/Capture/Trace.antt =====
-- What `capture_plan_xml` does to the server, on every path.
use query_smith.Prelude.{String, List, [], ◌∷◌, ◌≡◌, refl, ap, inl, inr}
use mathlib.Core.List.{append-nil}
use query_smith.Prelude.Outcome.{Exn, Outcome, ok, err, Outcome-cases}
use query_smith.Db.Connection.{ConnectionParams}
use query_smith.Db.QuerySafety.{Sqlglot, validate_select_only}
use query_smith.Db.QuerySafety.Laws.{IsSingle, validate_select_only-ok}
use query_smith.Db.Driver.{
  Driver, continue, lift, Event, opened, executed, closed, Traced, closing, execute,
}
use query_smith.Db.Capture.{statement_of, capture_plan_xml, search, required}

-- A last step that makes no call adds none.
events-lift {ℓ κ} :
    {A : Type ℓ} {B : Type κ} (events : List Event) (r : Outcome A) (g : A → Outcome B)
    → (continue events r (λ a. lift (g a))).0 ≡ events
events-lift events (ok a) g = append-nil events
events-lift events (err e) g = refl

module _ (d : Driver) (sg : Sqlglot) where
  open d use {Connection}

  -- The calls of one run for a query. Nothing is sent for a query that does not validate; the only
  -- statement ever executed is the template around a single SELECT; and a connection that was
  -- opened is closed at the end.
  pub data Session {F : Type 0} (connect_fn : ConnectionParams F → Outcome Connection)
      (p : ConnectionParams F) (query : String) (run : Traced String) : Type 0 where
    refused :
        (e : Exn)
        → validate_select_only sg query ≡ err e
        → run ≡ ([], err e)
        → Session connect_fn p query run
    unopened :
        (e : Exn)
        → IsSingle sg sg.is_select query
        → connect_fn p ≡ err e
        → run ≡ (opened ∷ [], err e)
        → Session connect_fn p query run
    unused :
        (c : Connection) (e : Exn)
        → IsSingle sg sg.is_select query
        → connect_fn p ≡ ok c
        → d.cursor c ≡ err e
        → run.0 ≡ opened ∷ closed ∷ []
        → Session connect_fn p query run
    used :
        (c : Connection)
        → IsSingle sg sg.is_select query
        → connect_fn p ≡ ok c
        → run.0 ≡ opened ∷ executed (statement_of query) ∷ closed ∷ []
        → Session connect_fn p query run

  module _ {F : Type 0} (connect_fn : ConnectionParams F → Outcome Connection)
      (p : ConnectionParams F) (query : String) where
    -- Whatever the query, the connection function and the driver do, the calls of
    -- `capture_plan_xml` are those of one of the four kinds of `Session`.
    pub capture_plan_xml-Session :
        Session connect_fn p query (capture_plan_xml d sg connect_fn p query)
    unfolding capture_plan_xml search closing execute
    capture_plan_xml-Session = elim (Outcome-cases (validate_select_only sg query)) [
      | inr (e, invalid) ↦ refused e invalid (rw invalid refl)
      | inl (q, valid) ↦
          let (same, single) = validate_select_only-ok sg query q valid in
          elim (Outcome-cases (connect_fn p)) [
            | inr (e, failed) ↦ unopened e single failed (rw (valid, failed) refl)
            | inl (c, connected) ↦ elim (Outcome-cases (d.cursor c)) [
              | inr (e, broken) ↦ unused c e single connected broken (
                  rw (valid, connected, broken)
                    (ap (λ (t : List Event). opened ∷ t) (events-lift (closed ∷ []) _ required)))
              | inl (u, open') ↦ used c single connected (
                  rw (valid, connected, open', same)
                    (ap (λ (t : List Event). opened ∷ t)
                      (events-lift (executed (statement_of query) ∷ closed ∷ []) _ required)))
            ]
          ]
    ]

    -- A text is only ever captured for a single SELECT.
    pub capture_plan_xml-IsSingle :
        (xml : String)
        → (capture_plan_xml d sg connect_fn p query).1 ≡ ok xml
        → IsSingle sg sg.is_select query
    capture_plan_xml-IsSingle xml = at _ capture_plan_xml-Session
      where
        at :
            (run : Traced String)
            → Session connect_fn p query run
            → run.1 ≡ ok xml
            → IsSingle sg sg.is_select query
        at run (refused e invalid same) h = cc (ap (λ (r : Traced String). r.1) same)
        at run (unopened e single broke same) h = single
        at run (unused c e single on broken events) h = single
        at run (used c single on events) h = single
