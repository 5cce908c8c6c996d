-- ===== src/Web/Schedules.antt =====
-- Runs of the application: a handler that no other one interrupts.
use query_smith.Prelude.{ℕ, List, ◌∷◌}
use query_smith.Float.{Float}
use query_smith.Db.QuerySafety.{Sqlglot}
use query_smith.Adapter.Xml.{Lxml}
use query_smith.Web.Session
use query_smith.Web.LastResult
use query_smith.Web.Handler.{
  Stores, Handler, answer, is_connected, get_session, set_session, clear_session, get_result,
  set_result, clear_result, access, exec,
}
use query_smith.Web.App.{Services, Request, handle}
use query_smith.Web.System.{System, here, arrive, advance, Reach, next}

module _ {F : Type 0} where
  -- the application with one more handler
  abbrev pub beside : List (Handler F) → Stores F × Handler F → System F
  beside others (s, h) = record { stores = s; handlers = h ∷ others }

module _ (lx : Lxml) (sg : Sqlglot) {F : Type 0} ⦃fl : Float F⦄ (world : ℕ → Services F) where
  -- a handler's step
  pub Reach-access :
      (others : List (Handler F)) (h : Handler F) (s : Stores F)
      → Reach lx sg world (beside others (s, h))
      → Reach lx sg world (beside others (access h s))
  Reach-access others h s r = next r (advance here)

  -- a handler's steps, to its end
  Reach-exec :
      (others : List (Handler F)) (h : Handler F) (s : Stores F)
      → Reach lx sg world (beside others (s, h))
      → Reach lx sg world (beside others ((exec h s).0, answer ((exec h s).1)))
  Reach-exec others (answer given) s r = r
  Reach-exec others (is_connected k) s r =
      Reach-exec others (k (Session.is_connected s.session)) s
        (Reach-access others (is_connected k) s r)
  Reach-exec others (get_session k) s r =
      Reach-exec others (k (Session.get s.session)) s (Reach-access others (get_session k) s r)
  Reach-exec others (set_session p h) s r =
      Reach-exec others h _ (Reach-access others (set_session p h) s r)
  Reach-exec others (clear_session h) s r =
      Reach-exec others h _ (Reach-access others (clear_session h) s r)
  Reach-exec others (get_result k) s r =
      Reach-exec others (k (LastResult.get s.last_result)) s
        (Reach-access others (get_result k) s r)
  Reach-exec others (set_result p h) s r =
      Reach-exec others h _ (Reach-access others (set_result p h) s r)
  Reach-exec others (clear_result h) s r =
      Reach-exec others h _ (Reach-access others (clear_result h) s r)

  -- Whatever other handlers are at work, a request that arrives can be served to its end, and the
  -- stores and the reply are then what `exec` gives for its handler alone.
  pub Reach-serve :
      {s : System F}
      → Reach lx sg world s
      → (n : ℕ) (request : Request F)
      → let served = exec (handle lx sg (world n) request) s.stores in
        Reach lx sg world (beside s.handlers (served.0, answer served.1))
  Reach-serve {s} r n request =
      Reach-exec s.handlers (handle lx sg (world n) request) s.stores (next r (arrive n request))
