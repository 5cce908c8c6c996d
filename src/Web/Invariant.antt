-- ===== src/Web/Invariant.antt =====
-- What holds of the stores, of the handlers at work and of their replies, in every order of steps.
pub mod Handled
pub mod Reached
use query_smith.Prelude.{
  ℕ, String, List, [], ◌∷◌, All, Option, none, some, true, false, ◌≡◌, refl, ◌⊎◌, inl, inr, map,
  ◌==◌, if◌then◌else◌,
}
use query_smith.Prelude.Outcome.{Outcome, ok, err}
use query_smith.Float.{Float}
use query_smith.Ir.{IrPlan}
use query_smith.Rules.Engine.{evaluate}
use query_smith.Narration.Models.{Narration, FixProposal}
use query_smith.Narration.PlanSummary.{summarize_plan}
use query_smith.Narration.FixEngine.{propose_fixes}
use query_smith.Db.QuerySafety.{Sqlglot}
use query_smith.Db.Connection.{ConnectionParams}
use query_smith.Adapter.Xml.{Lxml}
use query_smith.Adapter.Build.{parse_plan_xml}
use query_smith.Web.Schemas.{QueryRequest, ProposeFixRequest, ConnectionStatusResponse}
use query_smith.Db.Catalog.{ViewRef}
use query_smith.Web.Session
use query_smith.Web.LastResult
use query_smith.Web.LastResult.{LastResult}
use query_smith.Web.Handler.{
  connection_status, no_content, view_list, query_report, fix_proposal, Stores, Reply, reply,
  http_exception, internal_error, Handler, answer, is_connected, get_session, set_session,
  clear_session, get_result, set_result, clear_result,
}
use query_smith.Web.Replies.{
  to_query_response, to_propose_fix_response, status_of, not_connected_status, view_item,
}
use query_smith.Web.App.{Services, Request, handle, query_options}
use query_smith.Web.System.{System, Advance, Step, Reach}

-- of the value that is there, or that a call returned
abbrev pub OnSome {ℓ} : {A : Type ℓ} → (A → Type 0) → Option A → Type 0
OnSome P none = Unit
OnSome P (some a) = P a

abbrev pub OnOk {ℓ} : {A : Type ℓ} → (A → Type 0) → Outcome A → Type 0
OnOk P (ok a) = P a
OnOk P (err e) = Unit

module _ (lx : Lxml) (sg : Sqlglot) {F : Type 0} ⦃fl : Float F⦄ (world : ℕ → Services F) where
  -- A connection with these parameters has succeeded.
  abbrev pub Accepted : ConnectionParams F → Type 0
  Accepted p = (n : ℕ) × ((world n).connect_fn p ≡ ok tt)

  -- The summary and the findings are those of the plan captured for a query on such a connection.
  pub record Analysed (r : LastResult F) : Type 0 where
    pub time : ℕ
    pub params : ConnectionParams F
    pub body : QueryRequest F
    pub xml : String
    pub plan : IrPlan F
    pub accepted : Accepted params
    pub captured : (world time).capture_fn params body.query ≡ ok xml
    pub parsed : parse_plan_xml lx (query_options (world time) params body) xml ≡ ok plan
    pub evaluated : evaluate plan ≡ ok r.findings
    pub summarized : r.plan_summary ≡ summarize_plan plan

  -- What a reply tells of the stores as they are: there is a connection with these parameters, or
  -- there is none; the views are those of the connection, the report is on the stored result, and the
  -- fixes are those proposed for it; 409 says that there is no connection or no result, and the reply
  -- without a content that there is no result. Other errors tell nothing.
  abbrev pub Tells : Stores F → Reply F → Type 0
  Tells s (reply (connection_status status)) =
      ((s.session.params ≡ none) × (status ≡ not_connected_status))
      ⊎ ((p : ConnectionParams F) × (s.session.params ≡ some p) × (status ≡ status_of p))
  Tells s (reply no_content) = s.last_result.result ≡ none
  Tells s (reply (view_list response)) =
      (p : ConnectionParams F) × (time : ℕ) × (views : List ViewRef) × (s.session.params ≡ some p)
      × ((world time).list_views_fn p ≡ ok views)
      × (response ≡ record { views = map view_item views })
  Tells s (reply (query_report response)) =
      (r : LastResult F) × (s.last_result.result ≡ some r)
      × (narration : Option Narration) × (response
          ≡ to_query_response r.plan_summary r.findings narration)
  Tells s (reply (fix_proposal response)) =
      (r : LastResult F) × (s.last_result.result ≡ some r)
      × (time : ℕ) × (body : ProposeFixRequest F) × (proposal : FixProposal) × (propose_fixes sg
            r.findings r.plan_summary body.model ((world time).generate_fn body.ollama_timeout_s)
          ≡ ok proposal)
      × (response ≡ to_propose_fix_response proposal)
  Tells s (http_exception status message) =
      if status == 409 then (s.session.params ≡ none) ⊎ (s.last_result.result ≡ none) else Unit
  Tells s internal_error = Unit

  -- A handler that stores only connections that succeeded and analyses, if it is given such values,
  -- and whose reply tells of the stores what its last call has left or found there; `Last` is what
  -- that call has.
  abbrev pub Sound : (Stores F → Type 0) → Handler F → Type 0
  Sound Last (answer r) = (s : Stores F) → Last s → Tells s r
  Sound Last (is_connected k) =
      Sound (λ s. Session.is_connected s.session ≡ true) (k true)
      × Sound (λ s. Session.is_connected s.session ≡ false) (k false)
  Sound Last (get_session k) =
      (got : Outcome (ConnectionParams F))
      → OnOk Accepted got
      → Sound (λ s. Session.get s.session ≡ got) (k got)
  Sound Last (set_session p h) = Accepted p × Sound (λ s. s.session.params ≡ some p) h
  Sound Last (clear_session h) = Sound (λ s. s.session.params ≡ none) h
  Sound Last (get_result k) =
      (got : Outcome (LastResult F))
      → OnOk Analysed got
      → Sound (λ s. LastResult.get s.last_result ≡ got) (k got)
  Sound Last (set_result r h) = Analysed r × Sound (λ s. s.last_result.result ≡ some r) h
  Sound Last (clear_result h) = Sound (λ s. s.last_result.result ≡ none) h

  -- A handler between its steps, when others may have changed the stores.
  abbrev pub Waits : Handler F → Type 0
  Waits = Sound (λ s. ⊥)

  pub Sound-Waits : (Last : Stores F → Type 0) (h : Handler F) → Sound Last h → Waits h
  Sound-Waits Last (answer r) hh = λ s last. absurd last
  Sound-Waits Last (is_connected k) hh = hh
  Sound-Waits Last (get_session k) hh = hh
  Sound-Waits Last (set_session p h) hh = hh
  Sound-Waits Last (clear_session h) hh = hh
  Sound-Waits Last (get_result k) hh = hh
  Sound-Waits Last (set_result r h) hh = hh
  Sound-Waits Last (clear_result h) hh = hh
