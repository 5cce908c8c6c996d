-- ===== src/Web/System.antt =====
-- The running application: the two stores and the handlers at work. A request arrives at any time;
-- any handler may take the next step, which is one call of a store's method.
use query_smith.Prelude.{ℕ, List, [], ◌∷◌}
use query_smith.Float.{Float}
use query_smith.Db.QuerySafety.{Sqlglot}
use query_smith.Adapter.Xml.{Lxml}
use query_smith.Web.Handler.{Stores, no_stores, Handler, access}
use query_smith.Web.App.{Services, Request, handle}

pub record System (F : Type 0) : Type 0 where
  pub stores : Stores F
  pub handlers : List (Handler F)

abbrev pub start_up : {F : Type 0} → System F
start_up = record { stores = no_stores; handlers = [] }

-- One handler takes a step.
pub data Advance {F : Type 0} (s : Stores F)
    : List (Handler F) → Stores F → List (Handler F) → Type 0 where
  here :
      {h : Handler F} {hs : List (Handler F)}
      → Advance s (h ∷ hs) ((access h s).0) ((access h s).1 ∷ hs)
  there :
      {h : Handler F} {hs later : List (Handler F)} {t : Stores F}
      → Advance s hs t later
      → Advance s (h ∷ hs) t (h ∷ later)

-- `world n` is what the injected functions do for the request of number `n`.
module _ (lx : Lxml) (sg : Sqlglot) {F : Type 0} ⦃fl : Float F⦄ (world : ℕ → Services F) where
  pub data Step (s : System F) : System F → Type 0 where
    arrive :
        (n : ℕ) (request : Request F)
        → Step s
            (record { stores = s.stores; handlers = handle lx sg (world n) request ∷ s.handlers })
    advance :
        {t : Stores F} {later : List (Handler F)}
        → Advance s.stores s.handlers t later
        → Step s (record { stores = t; handlers = later })

  pub data Reach : System F → Type 0 where
    start : Reach start_up
    next : {s t : System F} → Reach s → Step s t → Reach t
