-- ===== src/Web/Refinement.antt =====
-- The two slots of the application as its clients see them.
use query_smith.Prelude.{ℕ, Option, none, some}
use query_smith.Float.{Float}
use query_smith.Db.QuerySafety.{Sqlglot}
use query_smith.Db.Connection.{ConnectionParams}
use query_smith.Adapter.Xml.{Lxml}
use query_smith.Web.LastResult.{LastResult}
use query_smith.Web.Handler.{Stores, Handler}
use query_smith.Web.App.{Services}
use query_smith.Web.System.{System}
use query_smith.Web.Invariant.{Accepted, Analysed}

-- The slots as a client sees them.
pub record Slots (F : Type 0) : Type 0 where
  pub connection : Option (ConnectionParams F)
  pub report : Option (LastResult F)

abbrev pub slots_of : {F : Type 0} → Stores F → Slots F
slots_of s = record { connection = s.session.params; report = s.last_result.result }

module _ (lx : Lxml) (sg : Sqlglot) {F : Type 0} ⦃fl : Float F⦄ (world : ℕ → Services F) where
  -- Each slot changes on its own, and only like this.
  pub data Change (v : Slots F) : Slots F → Type 0 where
    same : Change v v
    connect :
        {p : ConnectionParams F}
        → Accepted lx sg world p
        → Change v (record v { connection = some p })
    disconnect : Change v (record v { connection = none })
    publish : {r : LastResult F} → Analysed lx sg world r → Change v (record v { report = some r })
    forget : Change v (record v { report = none })
