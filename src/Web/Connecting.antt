-- ===== src/Web/Connecting.antt =====
-- The handlers of /api/connection, run alone and beside each other.
use query_smith.Prelude.{String, ◌≡◌, refl}
use query_smith.Prelude.Outcome.{Outcome, Exn, ok, err}
use query_smith.Float.{Float}
use query_smith.Db.QuerySafety.{Sqlglot}
use query_smith.Db.Connection.{ConnectionParams}
use query_smith.Adapter.Xml.{Lxml}
use query_smith.Web.Schemas.{ConnectionRequest, QueryRequest, ProposeFixRequest}
use query_smith.Web.Session.{not_connected, show_params}
use query_smith.Web.LastResult.{no_result}
use query_smith.Web.Handler.{Stores, reply, http_exception, connection_status, exec}
use query_smith.Web.Replies.{params_of, not_connected_status, status_of}
use query_smith.Web.App.{
  Services, create_connection, connected_as, get_connection, delete_connection, get_views,
  run_query, propose_fix,
}

module _ {F : Type 0} (sv : Services F) (s : Stores F) where
  connected_as-get_connection :
      (p : ConnectionParams F) (r : Outcome (Unit {0}))
      → r ≡ ok tt
      → (exec get_connection ((exec (connected_as p r) s).0)).1 ≡ (exec (connected_as p r) s).1
  unfolding get_connection status_of
  connected_as-get_connection p (ok done) e = refl
  connected_as-get_connection p (err raised) e = cc

  -- If the connection succeeds, `get_connection` afterwards replies what `create_connection` has
  -- replied.
  pub create_connection-get_connection :
      (body : ConnectionRequest F)
      → sv.connect_fn (params_of body) ≡ ok tt
      → let created = exec (create_connection sv body) s in
        (exec get_connection created.0).1 ≡ created.1
  unfolding create_connection
  create_connection-get_connection body e =
      connected_as-get_connection (params_of body) (sv.connect_fn (params_of body)) e

  connected_as_hides :
      (p : ConnectionParams F) (other : String) (r : Outcome (Unit {0}))
      → let given = exec (connected_as p r) s in
        let changed = exec (connected_as (record p { password = other }) r) s in
        (given.1 ≡ changed.1)
        × ((exec get_connection given.0).1 ≡ (exec get_connection changed.0).1)
  unfolding get_connection
  connected_as_hides p other (ok done) = (refl, refl)
  connected_as_hides p other (err (Exn.db_capture_error m)) = (refl, refl)
  connected_as_hides p other (err raised) = (refl, refl)

  -- If the connection has the same outcome with another password, the replies of
  -- `create_connection` and of `get_connection` after it are the same with both, and so are the
  -- parameters as Python shows them.
  pub create_connection_hides :
      (body : ConnectionRequest F) (other : String)
      → sv.connect_fn (params_of body)
        ≡ sv.connect_fn (params_of (record body { password = other }))
      → let given = exec (create_connection sv body) s in
        let changed = exec (create_connection sv (record body { password = other })) s in
        (given.1 ≡ changed.1)
        × ((exec get_connection given.0).1 ≡ (exec get_connection changed.0).1)
        × (show_params (params_of body)
            ≡ show_params (params_of (record body { password = other })))
  unfolding create_connection show_params
  create_connection_hides body other e =
      let (a, b) = connected_as_hides (params_of body) other (sv.connect_fn (params_of body)) in
      rw (← e) (a, b, refl)

module _ (lx : Lxml) (sg : Sqlglot) {F : Type 0} ⦃fl : Float F⦄ where
  -- After `delete_connection`, whatever the stores held, `get_connection` replies that there is no
  -- connection, and `get_views`, `run_query` and `propose_fix` reply with status 409.
  pub delete_connection-Refuses :
      (sv : Services F) (body : QueryRequest F) (fix : ProposeFixRequest F) (s : Stores F)
      → let deleted = (exec delete_connection s).0 in
        ((exec get_connection deleted).1 ≡ reply (connection_status not_connected_status))
        × ((exec (get_views sv) deleted).1 ≡ http_exception 409 not_connected)
        × ((exec (run_query lx sv body) deleted).1 ≡ http_exception 409 not_connected)
        × ((exec (propose_fix sg sv fix) deleted).1 ≡ http_exception 409 no_result)
  unfolding delete_connection get_connection get_views run_query propose_fix
  delete_connection-Refuses sv body fix s = (refl, refl, refl, refl)
