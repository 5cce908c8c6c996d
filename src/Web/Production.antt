-- ===== src/Web/Production.antt =====
-- web/app.py: the functions that the application injects when nothing replaces them.
pub mod Laws
pub mod Success
use query_smith.Prelude.{ℕ, String}
use query_smith.Prelude.Outcome.{Outcome, ◌>>=◌}
use query_smith.Float.{Float}
use query_smith.Db.QuerySafety.{Sqlglot}
use query_smith.Db.Connection.{ConnectionParams}
use query_smith.Db.Driver.{Driver, connect}
use query_smith.Db.Capture.{capture_plan_xml}
use query_smith.Db.Catalog.{ViewRef, list_views}
use query_smith.Narration.OllamaClient.{Http, generate_json}
use query_smith.Web.App.{Services}

module _ (d : Driver) (sg : Sqlglot) {F : Type 0} ⦃fl : Float F⦄ where
  -- `connect_fn(…)` and `connection.close()`
  unfoldable pub connect_and_close : ConnectionParams F → Outcome (Unit {0})
  unfolding connect
  connect_and_close p = connect d p >>= d.close

  -- `http timeout` is the transport with that timeout.
  unfoldable pub production : (F → Http) → ℕ → Services F
  unfolding connect_and_close capture_plan_xml list_views generate_json
  production http now = record {
    connect_fn = connect_and_close;
    list_views_fn = λ p. (list_views sg d (connect d) p).1;
    capture_fn = λ p query. (capture_plan_xml d sg (connect d) p query).1;
    generate_fn = λ timeout_s. generate_json (http timeout_s);
    now = now;
  }
