-- ===== src/Hub/Counting.antt =====
-- ws_server.go: the connection counts of nodes and rules along a route's life.
use mathlib.Core.Option
use message_boy.Base.{
  ◌<◌, ◌≡◌, ◌≢◌, refl, ap, ◌∙◌, inl, inr, [], ◌∷◌, Option, some, arith, Bytes, if◌then◌else◌,
  is_empty, bytes_eq, lookup, insert, str_eq_refl,
}
use message_boy.Wire.{TunnelMessage}
use message_boy.Hub.{Services, Server, RouteInfo, send_msg_to_client}
use message_boy.Hub.Keys.{route_key, keys_apart}
use message_boy.Hub.Routing.{cleanup_route, connect_prepared, handle_close, other_end}
use message_boy.Hub.Lifecycle.{to_cleanup, cleanup_all, cleanup_routes_for_client}
use message_boy.Hub.Routes.{IsKeyed, routes-connect_prepared}
use message_boy.Hub.Handlers.{handle_close_found, handle_close_missing}
use message_boy.Hub.Teardown.{cleanup_route_gone}

-- The effect of one call on a component, where it is set and the id is not empty.
abbrev pub on_named {ℓ} : {A : Type ℓ} → Bytes → (A → A) → Option A → Option A
on_named id f o = if is_empty id then o else Option.map f o

module _ {svc : Services} where
  counts-connect_prepared :
      (route : RouteInfo) (s : Server svc)
      → ((connect_prepared route s).load_balancer
          ≡ on_named route.node_id (svc.increment_connections route.node_id) s.load_balancer)
        × ((connect_prepared route s).traffic_counter
            ≡ on_named route.rule_id
                (svc.increment_conn route.rule_id route.source_client_id)
                s.traffic_counter)
  unfolding connect_prepared
  counts-connect_prepared route s = ground arith

  counts-cleanup_route :
      (route : RouteInfo) (s : Server svc)
      → ((cleanup_route route s).load_balancer
          ≡ on_named route.node_id (svc.decrement_connections route.node_id) s.load_balancer)
        × ((cleanup_route route s).traffic_counter
            ≡ on_named route.rule_id
                (svc.decrement_conn route.rule_id route.source_client_id)
                s.traffic_counter)
  unfolding cleanup_route
  counts-cleanup_route route s = ground arith

  pub counts-send :
      (id : Bytes) (m : TunnelMessage) (s : Server svc)
      → ((send_msg_to_client id m s).0.load_balancer ≡ s.load_balancer)
        × ((send_msg_to_client id m s).0.traffic_counter ≡ s.traffic_counter)
  unfolding send_msg_to_client
  counts-send id m s = (refl, refl)

  -- A Close along a route calls the decrement of the route's node and of its rule once each, where
  -- they are set.
  pub handle_close_counts :
      (from : Bytes) (m : TunnelMessage) (s : Server svc) (route : RouteInfo)
      → lookup (route_key from m.stream_id) s.routes ≡ some route
      → ((handle_close from m s).load_balancer
          ≡ on_named route.node_id (svc.decrement_connections route.node_id) s.load_balancer)
        × ((handle_close from m s).traffic_counter
            ≡ on_named route.rule_id
                (svc.decrement_conn route.rule_id route.source_client_id)
                s.traffic_counter)
  handle_close_counts from m s route e =
      let sent = (send_msg_to_client (other_end from route) m s).0 in
      let (lb, tc) = counts-cleanup_route route sent in
      let (lb', tc') = counts-send (other_end from route) m s in
      rw (handle_close_found from m s route e) (
        lb ∙ ap (on_named route.node_id (svc.decrement_connections route.node_id)) lb',
        tc
            ∙ ap (on_named route.rule_id (svc.decrement_conn route.rule_id route.source_client_id))
                tc',
      )

  -- After a Close from either end neither end has the stream any more, and what either end still
  -- sends to close it changes nothing: so a route is counted down once, whoever closes first and
  -- however often.
  pub handle_close_once :
      (from : Bytes) (m n : TunnelMessage) (s : Server svc) (route : RouteInfo)
      → IsKeyed s.routes
      → m.stream_id < 4294967296
      → lookup (route_key from m.stream_id) s.routes ≡ some route
      → n.stream_id ≡ route.stream_id
      → (handle_close route.source_client_id n (handle_close from m s) ≡ handle_close from m s)
        × (handle_close route.target_client_id n (handle_close from m s) ≡ handle_close from m s)
  handle_close_once from m n s route v hs e same =
      let t = (send_msg_to_client (other_end from route) m s).0 in
      rw (handle_close_found from m s route e) (
        handle_close_missing route.source_client_id n (cleanup_route route t)
            (rw same (cleanup_route_gone route _ t (inl refl))),
        handle_close_missing route.target_client_id n (cleanup_route route t)
            (rw same (cleanup_route_gone route _ t (inr refl))),
      )

  to_cleanup-connect_prepared :
      (route : RouteInfo) (s : Server svc)
      → s.routes ≡ []
      → route.stream_id < 4294967296
      → route.source_client_id ≢ route.target_client_id
      → to_cleanup route.source_client_id (connect_prepared route s).routes ≡ route ∷ route ∷ []
  unfolding insert to_cleanup
  to_cleanup-connect_prepared route s e h ne =
      rw
        (
          routes-connect_prepared route s,
          e,
          keys_apart route.source_client_id route.target_client_id route.stream_id h ne,
          str_eq_refl route.source_client_id,
        )
        refl

  -- The first stream between two clients: when the source disconnects, the route is met under both of
  -- its keys, so its node and its rule are counted down twice after they were counted up once.
  pub disconnect_counts_twice :
      (route : RouteInfo) (s : Server svc)
      → s.routes ≡ []
      → route.stream_id < 4294967296
      → route.source_client_id ≢ route.target_client_id
      → let t = cleanup_routes_for_client route.source_client_id (connect_prepared route s) in
        (t.load_balancer
          ≡ on_named route.node_id (svc.decrement_connections route.node_id) (
              on_named route.node_id
                (svc.decrement_connections route.node_id)
                (on_named route.node_id (svc.increment_connections route.node_id) s.load_balancer)))
        × (t.traffic_counter
            ≡ on_named route.rule_id (svc.decrement_conn route.rule_id route.source_client_id) (
                on_named route.rule_id (svc.decrement_conn route.rule_id route.source_client_id) (
                  on_named route.rule_id
                    (svc.increment_conn route.rule_id route.source_client_id)
                    s.traffic_counter)))
  unfolding cleanup_routes_for_client cleanup_all
  disconnect_counts_twice route s e h ne =
      let first = connect_prepared route s in
      let (lb0, tc0) = counts-connect_prepared route s in
      let (lb1, tc1) = counts-cleanup_route route first in
      let (lb2, tc2) = counts-cleanup_route route (cleanup_route route first) in
      rw (to_cleanup-connect_prepared route s e h ne) (
        lb2
            ∙ ap (on_named route.node_id (svc.decrement_connections route.node_id))
                (lb1 ∙ ap (on_named route.node_id (svc.decrement_connections route.node_id)) lb0),
        tc2
            ∙ ap (on_named route.rule_id (svc.decrement_conn route.rule_id route.source_client_id))
                (tc1
                  ∙ ap
                      (on_named route.rule_id
                        (svc.decrement_conn route.rule_id route.source_client_id))
                      tc0),
      )
