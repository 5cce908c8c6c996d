-- ===== src/Web/Disconnected.antt =====
-- Requests served one after the other behind a DELETE of the connection.
use query_smith.Prelude.{ℕ, suc, List, [], ◌∷◌, ◌≡◌, refl, All}
use query_smith.Prelude.Pairs.{Pairs}
use query_smith.Float.{Float}
use query_smith.Db.QuerySafety.{Sqlglot}
use query_smith.Adapter.Xml.{Lxml}
use query_smith.Web.Session.{not_connected}
use query_smith.Web.LastResult.{no_result}
use query_smith.Web.Handler.{
  Stores, no_stores, Reply, reply, http_exception, connection_status, no_content, exec,
}
use query_smith.Web.Replies.{not_connected_status}
use query_smith.Web.App.{
  Services, Request, post_connection, read_connection, end_connection, read_views, post_query,
  post_propose_fix, handle, get_connection, delete_connection, get_views, run_query, propose_fix,
}

module _ {F : Type 0} where
  abbrev pub KeepsOut : Request F → Type 0
  KeepsOut (post_connection body) = ⊥
  KeepsOut request = Unit

  -- What a request other than a connect gets without a connection and without a result.
  abbrev pub Denied : Request F → Reply F → Type 0
  Denied (post_connection body) r = ⊥
  Denied read_connection r = r ≡ reply (connection_status not_connected_status)
  Denied end_connection r = r ≡ reply no_content
  Denied read_views r = r ≡ http_exception 409 not_connected
  Denied (post_query body) r = r ≡ http_exception 409 not_connected
  Denied (post_propose_fix body) r = r ≡ http_exception 409 no_result

module _ (lx : Lxml) (sg : Sqlglot) {F : Type 0} ⦃fl : Float F⦄ (world : ℕ → Services F) where
  -- The stores and the replies behind requests that no other one interrupts.
  abbrev pub serve_all : ℕ → List (Request F) → Stores F → Stores F × List (Reply F)
  serve_all n [] s = (s, [])
  serve_all n (request ∷ requests) s =
      let served = exec (handle lx sg (world n) request) s in
      let later = serve_all (suc n) requests served.0 in (later.0, served.1 ∷ later.1)

  handle-Denied :
      (n : ℕ) (request : Request F)
      → KeepsOut request
      → ((exec (handle lx sg (world n) request) no_stores).0 ≡ no_stores)
        × Denied request (exec (handle lx sg (world n) request) no_stores).1
  unfolding get_connection delete_connection get_views run_query propose_fix
  handle-Denied n (post_connection body) h = absurd h
  handle-Denied n read_connection h = (refl, refl)
  handle-Denied n end_connection h = (refl, refl)
  handle-Denied n read_views h = (refl, refl)
  handle-Denied n (post_query body) h = (refl, refl)
  handle-Denied n (post_propose_fix body) h = (refl, refl)

  serve_all-no_stores :
      (n i : ℕ) (requests : List (Request F)) (s : Stores F)
      → s ≡ no_stores
      → All KeepsOut requests
      → ((serve_all n requests s).0 ≡ no_stores)
        × Pairs (λ _. Denied) i requests (serve_all n requests s).1
  serve_all-no_stores n i [] s e h = (e, tt)
  serve_all-no_stores n i (request ∷ requests) s e (first, rest) =
      let (same, denied) = handle-Denied n request first in
      let (empty, later) =
        serve_all-no_stores (suc n) (suc i) requests (exec (handle lx sg (world n) request) s).0
          (rw e same) rest in
      (empty, (rw e denied, later))

  -- However the stores stood, and whatever the injected functions would do: after a DELETE of the
  -- connection, requests served one after the other, none of them a connect, leave the stores
  -- empty, and each gets its refusal: 409 for views, queries and fixes, and a status that says that
  -- there is no connection.
  pub serve_all-Denied :
      (n : ℕ) (requests : List (Request F)) (s : Stores F)
      → All KeepsOut requests
      → let served = serve_all n (end_connection ∷ requests) s in
        (served.0 ≡ no_stores) × Pairs (λ _. Denied) 0 (end_connection ∷ requests) served.1
  unfolding delete_connection
  serve_all-Denied n requests s h =
      let (empty, later) =
        serve_all-no_stores (suc n) 1 requests (exec (handle lx sg (world n) end_connection) s).0
          refl h in
      (empty, (refl, later))
