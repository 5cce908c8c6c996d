-- ===== src/Web/Invariant/Reached.antt =====
-- Every order of steps.
use query_smith.Prelude.{ℕ, Bool, true, false, List, All, Option, none, some, ◌≡◌, refl}
use query_smith.Prelude.Collect.{All-map_In}
use query_smith.Float.{Float}
use query_smith.Db.QuerySafety.{Sqlglot}
use query_smith.Adapter.Xml.{Lxml}
use query_smith.Db.Connection.{ConnectionParams}
use query_smith.Web.Session
use query_smith.Web.Session.{SessionStore}
use query_smith.Web.LastResult
use query_smith.Web.LastResult.{LastResultStore}
use query_smith.Web.Handler.{
  Stores, Handler, answer, is_connected, get_session, set_session, clear_session, get_result,
  set_result, clear_result, access,
}
use query_smith.Web.App.{Services}
use query_smith.Web.System.{System, Advance, here, there, arrive, advance, Reach, start, next}
use query_smith.Web.Invariant.{OnSome, OnOk, Accepted, Analysed, Tells, Sound, Waits, Sound-Waits}
use query_smith.Web.Invariant.Handled.{handle-Sound}

module _ (lx : Lxml) (sg : Sqlglot) {F : Type 0} ⦃fl : Float F⦄ (world : ℕ → Services F) where
  abbrev pub StoresAreSound : Stores F → Type 0
  StoresAreSound s =
      OnSome (Accepted lx sg world) s.session.params
      × OnSome (Analysed lx sg world) s.last_result.result

  -- What a handler's next step shows the client, if it is the last one.
  abbrev Told : Stores F × Handler F → Type 0
  Told (s, answer r) = Tells lx sg world s r
  Told (s, _) = Unit

  abbrev pub Decides : Stores F → Handler F → Type 0
  Decides s (answer r) = Unit
  Decides s h = Told (access h s)

  -- Stored parameters are those of a connection that succeeded, the stored result is the analysis of
  -- a plan captured on such a connection, and each handler at work whose next step decides its reply
  -- tells what is true of the stores then.
  abbrev pub SystemIsSound : System F → Type 0
  SystemIsSound s = StoresAreSound s.stores × All (Decides s.stores) s.handlers

  params-OnOk :
      (o : Option (ConnectionParams F))
      → OnSome (Accepted lx sg world) o
      → OnOk (Accepted lx sg world) (Session.or_not_connected o)
  params-OnOk none h = tt
  params-OnOk (some p) h = h

  result-OnOk :
      (o : Option (LastResult.LastResult F))
      → OnSome (Analysed lx sg world) o
      → OnOk (Analysed lx sg world) (LastResult.or_no_result o)
  result-OnOk none h = tt
  result-OnOk (some r) h = h

  -- A handler behind a call, and what the call has.
  data Resumed : Stores F × Handler F → Type 1 where
    resumed :
        {s : Stores F} {h : Handler F} (Last : Stores F → Type 0)
        → Last s
        → Sound lx sg world Last h
        → Resumed (s, h)

  abbrev Resumes : Stores F → Handler F → Type 1
  Resumes s (answer r) = Unit
  Resumes s h = Resumed (access h s)

  Resumed-branch :
      (k : Bool → Handler F) (s : Stores F) (yes : Bool)
      → Waits lx sg world (is_connected k)
      → Session.is_connected s.session ≡ yes
      → Resumed (s, k yes)
  Resumed-branch k s true h e = resumed (λ t. Session.is_connected t.session ≡ true) e h.0
  Resumed-branch k s false h e = resumed (λ t. Session.is_connected t.session ≡ false) e h.1

  access-Resumes :
      (h : Handler F) (s : Stores F) → StoresAreSound s → Waits lx sg world h → Resumes s h
  access-Resumes (answer r) s hs hh = tt
  access-Resumes (is_connected k) s hs hh =
      Resumed-branch k s (Session.is_connected s.session) hh refl
  access-Resumes (get_session k) s hs hh =
      resumed (λ t. Session.get t.session ≡ Session.get s.session) refl
        (hh (Session.get s.session) (params-OnOk s.session.params hs.0))
  access-Resumes (set_session p h) s hs hh = resumed (λ t. t.session.params ≡ some p) refl hh.1
  access-Resumes (clear_session h) s hs hh = resumed (λ t. t.session.params ≡ none) refl hh
  access-Resumes (get_result k) s hs hh =
      resumed (λ t. LastResult.get t.last_result ≡ LastResult.get s.last_result) refl
        (hh (LastResult.get s.last_result) (result-OnOk s.last_result.result hs.1))
  access-Resumes (set_result r h) s hs hh = resumed (λ t. t.last_result.result ≡ some r) refl hh.1
  access-Resumes (clear_result h) s hs hh = resumed (λ t. t.last_result.result ≡ none) refl hh

  Resumed-Told : (s : Stores F) (h : Handler F) → Resumed (s, h) → Told (s, h)
  Resumed-Told s (answer r) (resumed Last last hh) = hh s last
  Resumed-Told s _ _ = tt

  Resumed-Waits : (s : Stores F) (h : Handler F) → Resumed (s, h) → Waits lx sg world h
  Resumed-Waits s h (resumed Last last hh) = Sound-Waits lx sg world Last h hh

  Resumes-Decides : (s : Stores F) (h : Handler F) → Resumes s h → Decides s h
  Resumes-Decides s (answer r) m = tt
  Resumes-Decides s (is_connected k) m = Resumed-Told _ _ m
  Resumes-Decides s (get_session k) m = Resumed-Told _ _ m
  Resumes-Decides s (set_session p h) m = Resumed-Told _ _ m
  Resumes-Decides s (clear_session h) m = Resumed-Told _ _ m
  Resumes-Decides s (get_result k) m = Resumed-Told _ _ m
  Resumes-Decides s (set_result r h) m = Resumed-Told _ _ m
  Resumes-Decides s (clear_result h) m = Resumed-Told _ _ m

  Resumes-Waits :
      (s : Stores F) (h : Handler F)
      → Waits lx sg world h
      → Resumes s h
      → Waits lx sg world ((access h s).1)
  Resumes-Waits s (answer r) hh m = hh
  Resumes-Waits s (is_connected k) hh m = Resumed-Waits _ _ m
  Resumes-Waits s (get_session k) hh m = Resumed-Waits _ _ m
  Resumes-Waits s (set_session p h) hh m = Resumed-Waits _ _ m
  Resumes-Waits s (clear_session h) hh m = Resumed-Waits _ _ m
  Resumes-Waits s (get_result k) hh m = Resumed-Waits _ _ m
  Resumes-Waits s (set_result r h) hh m = Resumed-Waits _ _ m
  Resumes-Waits s (clear_result h) hh m = Resumed-Waits _ _ m

  stores-Sound :
      (h : Handler F) (s : Stores F)
      → StoresAreSound s
      → Waits lx sg world h
      → StoresAreSound ((access h s).0)
  stores-Sound (answer r) s hs hh = hs
  stores-Sound (is_connected k) s hs hh = hs
  stores-Sound (get_session k) s hs hh = hs
  stores-Sound (set_session p h) s hs hh = (hh.0, hs.1)
  stores-Sound (clear_session h) s hs hh = (tt, hs.1)
  stores-Sound (get_result k) s hs hh = hs
  stores-Sound (set_result r h) s hs hh = (hs.0, hh.0)
  stores-Sound (clear_result h) s hs hh = (hs.0, tt)

  Advance-Sound :
      {s t : Stores F} {hs later : List (Handler F)}
      → Advance s hs t later
      → StoresAreSound s
      → All (Waits lx sg world) hs
      → StoresAreSound t × All (Waits lx sg world) later
  Advance-Sound {s} (here {h}) ss (hh, hhs) =
      (stores-Sound h s ss hh, (Resumes-Waits s h hh (access-Resumes h s ss hh), hhs))
  Advance-Sound (there a) ss (hh, hhs) = let (ts, hl) = Advance-Sound a ss hhs in (ts, (hh, hl))

  pub Reach-Waits :
      {s : System F}
      → Reach lx sg world s
      → StoresAreSound s.stores × All (Waits lx sg world) s.handlers
  Reach-Waits start = ((tt, tt), tt)
  Reach-Waits (next r (arrive n request)) =
      let (ss, hh) = Reach-Waits r in (ss, (handle-Sound lx sg world (λ s. ⊥) n request, hh))
  Reach-Waits (next r (advance a)) = let (ss, hh) = Reach-Waits r in Advance-Sound a ss hh

  -- In every state that the application reaches, in whatever order requests arrive and handlers take
  -- their steps, stored parameters are those of a connection that succeeded, and the stored result is
  -- the analysis of a plan captured on such a connection. Whenever a handler's next step is the one
  -- that decides its reply, the reply tells what is true of the stores then: the connection there
  -- or its absence, the views of the connection, the stored report, or the fixes for it.
  pub Reach-IsSound : {s : System F} → Reach lx sg world s → SystemIsSound s
  Reach-IsSound {s} r =
      let (ss, hh) = Reach-Waits r in
      (
        ss,
        All-map_In (Waits lx sg world) (Decides s.stores) s.handlers
            (λ h w. Resumes-Decides s.stores h (access-Resumes h s.stores ss w)) hh,
      )
