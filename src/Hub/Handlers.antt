-- ===== src/Hub/Handlers.antt =====
-- ws_server.go: every handler keeps the routing table's invariant.
use message_boy.Base.{
  ℕ, ◌<◌, ◌≡◌, refl, inl, inr, Bool, true, false, ◌==◌, Option, none, some, [], get_or, is_empty,
  arith, Bytes, bytes_eq, lookup, Option-cases, Bool-cases,
}
use message_boy.Wire.{TunnelMessage}
use message_boy.Hub.{
  Services, Server, RouteInfo, send_to_ref, send_msg_to_client, resolved, failed, Resolution,
}
use message_boy.Hub.Keys.{route_key}
use message_boy.Hub.Lifecycle.{dispatch, dispatch_cases}
use message_boy.Hub.PortCheck.{handle_port_check_result}
use message_boy.Hub.Routing.{
  for_rule, connect_prepared, connect_outcome, cleanup_route, connect_found, connect_to,
  connect_resolved, connect_ref, handle_connect, handle_conn_ack, handle_data, handle_close,
  handle_error, forward_msg, new_route, other_end,
}
use message_boy.Hub.Routes.{
  IsKeyed, routes-send, cleanup_route-IsKeyed, routes-connect_prepared, routes-send_error,
  store-IsKeyed,
}

module _ {svc : Services} where
  connect_outcome-IsKeyed :
      (route : RouteInfo) (sent : Bool) (s : Server svc)
      → IsKeyed s.routes
      → IsKeyed (connect_outcome route sent s).routes
  unfolding connect_outcome
  connect_outcome-IsKeyed route true s v = v
  connect_outcome-IsKeyed route false s v = cleanup_route-IsKeyed route _ (rw routes-send_error v)

  connect_found-IsKeyed :
      (route : RouteInfo) (m : TunnelMessage) (r : ℕ) (s : Server svc)
      → route.stream_id < 4294967296
      → IsKeyed s.routes
      → IsKeyed (connect_found route m r s).routes
  unfolding connect_found
  connect_found-IsKeyed route m r s hs v =
      let p = connect_prepared route s in
      let (conns', sent) = send_to_ref svc.pool (forward_msg m) r p.conns in
      connect_outcome-IsKeyed route sent (record p { conns = conns' })
        (rw (routes-connect_prepared route s) (store-IsKeyed route s.routes hs v))

  connect_to-IsKeyed :
      (source target node : Bytes) (m : TunnelMessage) (s : Server svc)
      → m.stream_id < 4294967296
      → IsKeyed s.routes
      → IsKeyed (connect_to source target node m s).routes
  connect_to-IsKeyed source target node m s hs v = go (lookup target s.clients) refl
    where
      go :
          (o : Option ℕ)
          → lookup target s.clients ≡ o
          → IsKeyed (connect_to source target node m s).routes
      go none e = unfold connect_to in (rw (e, connect_to, routes-send_error) v)
      go (some r) e =
          unfold connect_to in
          (rw (e, connect_to) (connect_found-IsKeyed (new_route source target node m) m r s hs v))

  connect_resolved-IsKeyed :
      (source : Bytes) (m : TunnelMessage) (o : Resolution) (s : Server svc)
      → m.stream_id < 4294967296
      → IsKeyed s.routes
      → IsKeyed (connect_resolved source m o s).routes
  unfolding connect_resolved
  connect_resolved-IsKeyed source m (resolved target node) s hs v =
      connect_to-IsKeyed source target node m s hs v
  connect_resolved-IsKeyed source m (failed text) s hs v = rw routes-send_error v

  connect_ref-IsKeyed :
      (source : Bytes) (m : TunnelMessage) (lb : Option svc.Balancer) (s : Server svc)
      → m.stream_id < 4294967296
      → IsKeyed s.routes
      → IsKeyed (connect_ref source m lb s).routes
  unfolding connect_ref
  connect_ref-IsKeyed source m none s hs v = connect_to-IsKeyed source m.payload [] m s hs v
  connect_ref-IsKeyed source m (some lb) s hs v = elim (Bool-cases (get_or m.payload 0 0 == b'@')) [
    | inl e ↦ rw e (connect_resolved-IsKeyed source m _ _ hs v)
    | inr e ↦ rw e (connect_to-IsKeyed source m.payload [] m s hs v)
  ]

  pub handle_connect-IsKeyed :
      (source : Bytes) (m : TunnelMessage) (s : Server svc)
      → m.stream_id < 4294967296
      → IsKeyed s.routes
      → IsKeyed (handle_connect source m s).routes
  unfolding handle_connect
  handle_connect-IsKeyed source m s hs v = elim (Bool-cases (is_empty m.payload)) [
    | inl e ↦ rw (e, routes-send_error) v
    | inr e ↦ rw e (connect_ref-IsKeyed source m s.load_balancer s hs v)
  ]

  handle_conn_ack_routes :
      (from : Bytes) (m : TunnelMessage) (s : Server svc)
      → (handle_conn_ack from m s).routes ≡ s.routes
  handle_conn_ack_routes from m s = go (lookup (route_key from m.stream_id) s.routes) refl
    where
      go :
          (o : Option RouteInfo)
          → lookup (route_key from m.stream_id) s.routes ≡ o
          → (handle_conn_ack from m s).routes ≡ s.routes
      go none e = unfold handle_conn_ack in (rw (e, handle_conn_ack))
      go (some route) e =
          unfold handle_conn_ack send_msg_to_client in (rw (e, handle_conn_ack) (ground arith))

  handle_data_routes :
      (from : Bytes) (m : TunnelMessage) (s : Server svc) → (handle_data from m s).routes ≡ s.routes
  handle_data_routes from m s = go (lookup (route_key from m.stream_id) s.routes) refl
    where
      go :
          (o : Option RouteInfo)
          → lookup (route_key from m.stream_id) s.routes ≡ o
          → (handle_data from m s).routes ≡ s.routes
      go none e = unfold handle_data in (rw (e, handle_data))
      go (some route) e =
          unfold handle_data send_msg_to_client for_rule in (rw (e, handle_data) (ground arith))

  -- Where there is a route, Close and Error end it.
  pub handle_close_found :
      (from : Bytes) (m : TunnelMessage) (s : Server svc) (route : RouteInfo)
      → lookup (route_key from m.stream_id) s.routes ≡ some route
      → handle_close from m s
        ≡ cleanup_route route (send_msg_to_client (other_end from route) m s).0
  unfolding handle_close
  handle_close_found from m s route e = rw (e, handle_close)

  pub handle_close_missing :
      (from : Bytes) (m : TunnelMessage) (s : Server svc)
      → lookup (route_key from m.stream_id) s.routes ≡ none
      → handle_close from m s ≡ s
  unfolding handle_close
  handle_close_missing from m s e = rw (e, handle_close)

  -- The two handlers differ in their logging.
  pub handle_error-handle_close :
      (from : Bytes) (m : TunnelMessage) (s : Server svc)
      → handle_error from m s ≡ handle_close from m s
  unfolding handle_error handle_close
  handle_error-handle_close from m s = refl

  handle_close-IsKeyed :
      (from : Bytes) (m : TunnelMessage) (s : Server svc)
      → IsKeyed s.routes
      → IsKeyed (handle_close from m s).routes
  handle_close-IsKeyed from m s v =
      elim (Option-cases (lookup (route_key from m.stream_id) s.routes)) [
        | inl e ↦ rw (handle_close_missing from m s e) v
        | inr (route, e) ↦
            rw (handle_close_found from m s route e)
              (cleanup_route-IsKeyed route _ (rw (routes-send (other_end from route) m s) v))
      ]

  handle_port_check_result_routes :
      (m : TunnelMessage) (s : Server svc) → (handle_port_check_result m s).routes ≡ s.routes
  unfolding handle_port_check_result
  handle_port_check_result_routes m s = ground arith

  -- Whatever a client sends, the table stays keyed by the ends of its routes.
  pub dispatch-IsKeyed :
      (id : Bytes) (m : TunnelMessage) (s : Server svc)
      → m.stream_id < 4294967296
      → IsKeyed s.routes
      → IsKeyed (dispatch id m s).routes
  dispatch-IsKeyed id m s hs v =
      dispatch_cases (λ t. IsKeyed t.routes) id m s (handle_connect-IsKeyed id m s hs v)
        (rw (handle_conn_ack_routes id m s) v) (rw (handle_data_routes id m s) v)
        (handle_close-IsKeyed id m s v)
        (rw (handle_error-handle_close id m s) (handle_close-IsKeyed id m s v))
        (rw (handle_port_check_result_routes m s) v) v
