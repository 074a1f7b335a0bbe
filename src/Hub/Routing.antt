-- ===== src/Hub/Routing.antt =====
-- ws_server.go, handleConnect to handleError: how a message from one client reaches the other.
use mathlib.Core.Option
use message_boy.Base.{
  ℕ, Bool, true, false, [], ◌++◌, Option, none, some, Bytes, ◌==◌, codes, if◌then◌else◌, length,
  get_or, bytes_eq, lookup, insert, delete, str_eq, is_empty,
}
use message_boy.Wire.{TunnelMessage, bare_message, msg_type_connect}
use message_boy.Hub.{
  Services, Server, RouteInfo, Resolution, resolved, failed, send_to_ref, send_msg_to_client,
  send_error,
}
use message_boy.Hub.Keys.{route_key}

-- What is sent on to the target: the message without the next hop and the rule.
abbrev pub forward_msg : TunnelMessage → TunnelMessage
forward_msg m = record (bare_message msg_type_connect m.stream_id) { target = m.target }

abbrev pub new_route : Bytes → Bytes → Bytes → TunnelMessage → RouteInfo
new_route source target node m = record {
  source_client_id = source;
  target_client_id = target;
  stream_id = m.stream_id;
  exit_addr = m.target;
  node_id = node;
  rule_id = m.rule_id;
}

-- To whom a Close or an Error goes on.
abbrev pub other_end : Bytes → RouteInfo → Bytes
other_end from route =
    if str_eq from route.source_client_id then route.target_client_id else route.source_client_id

module _ {svc : Services} where
  -- A call on the balancer for a node, and one on the counter for a rule: neither is made if the
  -- component is nil or the id is empty.
  unfoldable pub for_node : Bytes → (svc.Balancer → svc.Balancer) → Server svc → Server svc
  for_node node f s =
      if is_empty node then s else record s { load_balancer = Option.map f s.load_balancer }

  unfoldable pub for_rule : Bytes → (svc.Counter → svc.Counter) → Server svc → Server svc
  for_rule rule f s =
      if is_empty rule then s else record s { traffic_counter = Option.map f s.traffic_counter }

  unfoldable pub cleanup_route : RouteInfo → Server svc → Server svc
  unfolding for_node for_rule
  cleanup_route route s =
      for_rule route.rule_id (svc.decrement_conn route.rule_id route.source_client_id) (
        for_node route.node_id (svc.decrement_connections route.node_id) (record s {
          routes =
              delete (route_key route.target_client_id route.stream_id)
                (delete (route_key route.source_client_id route.stream_id) s.routes);
        }))

  unfoldable pub store_route : RouteInfo → Server svc → Server svc
  store_route route s = record s {
    routes =
        insert (route_key route.target_client_id route.stream_id) route
          (insert (route_key route.source_client_id route.stream_id) route s.routes);
  }

  -- The counting and storing that precede the forwarding of a Connect.
  unfoldable pub connect_prepared : RouteInfo → Server svc → Server svc
  unfolding for_node for_rule store_route
  connect_prepared route s =
      for_rule route.rule_id (svc.increment_conn route.rule_id route.source_client_id)
        (store_route route (for_node route.node_id (svc.increment_connections route.node_id) s))

  -- What follows it: the route is given up if the target did not take the message.
  unfoldable pub connect_outcome : RouteInfo → Bool → Server svc → Server svc
  unfolding cleanup_route send_error
  connect_outcome route true s = s
  connect_outcome route false s =
      cleanup_route route
        (send_error route.source_client_id route.stream_id (codes "failed to send to target") s)

  -- From the look-up of the target to the end of `handleConnect`.
  unfoldable pub connect_found : RouteInfo → TunnelMessage → ℕ → Server svc → Server svc
  unfolding connect_prepared connect_outcome
  connect_found route m r s =
      let s' = connect_prepared route s in
      let (conns', sent) = send_to_ref svc.pool (forward_msg m) r s'.conns in
      connect_outcome route sent (record s' { conns = conns' })

  unfoldable pub connect_to : Bytes → Bytes → Bytes → TunnelMessage → Server svc → Server svc
  unfolding send_error connect_found
  connect_to source target node m s = elim (lookup target s.clients) [
    | none ↦ send_error source m.stream_id (codes "target client not online") s
    | some r ↦ connect_found (new_route source target node m) m r s
  ]

  unfoldable pub connect_resolved : Bytes → TunnelMessage → Resolution → Server svc → Server svc
  unfolding connect_to send_error
  connect_resolved source m (resolved target node) s = connect_to source target node m s
  connect_resolved source m (failed text) s =
      send_error source m.stream_id (codes "proxy group resolution failed: " ++ text) s

  unfoldable pub connect_ref : Bytes → TunnelMessage → Option svc.Balancer → Server svc → Server svc
  unfolding connect_to connect_resolved
  connect_ref source m none s = connect_to source m.payload [] m s
  connect_ref source m (some lb) s =
      if get_or m.payload 0 0 == b'@'
      then (let (lb', resolution) = svc.resolve_target m.payload source lb in
          connect_resolved source m resolution (record s { load_balancer = some lb' }))
      else connect_to source m.payload [] m s

  unfoldable pub handle_connect : Bytes → TunnelMessage → Server svc → Server svc
  unfolding connect_ref send_error
  handle_connect source m s =
      if is_empty m.payload
      then send_error source m.stream_id (codes "no target client specified") s
      else connect_ref source m s.load_balancer s

  unfoldable pub handle_conn_ack : Bytes → TunnelMessage → Server svc → Server svc
  handle_conn_ack from m s = elim (lookup (route_key from m.stream_id) s.routes) [
    | none ↦ s
    | some route ↦
        if str_eq from route.target_client_id
        then (send_msg_to_client route.source_client_id m s).0
        else s
  ]

  -- The bytes are charged to the route's rule; from the source they are outbound.
  unfoldable pub handle_data : Bytes → TunnelMessage → Server svc → Server svc
  unfolding for_rule
  handle_data from m s = elim (lookup (route_key from m.stream_id) s.routes) [
    | none ↦ s
    | some route ↦
        if str_eq from route.source_client_id
        then (send_msg_to_client route.target_client_id m (
            for_rule route.rule_id
              (svc.add_bytes_out route.rule_id route.source_client_id (length m.payload)) s)).0
        else if str_eq from route.target_client_id
        then (send_msg_to_client route.source_client_id m (
            for_rule route.rule_id
              (svc.add_bytes_in route.rule_id route.source_client_id (length m.payload)) s)).0
        else s
  ]

  unfoldable pub handle_close : Bytes → TunnelMessage → Server svc → Server svc
  handle_close from m s = elim (lookup (route_key from m.stream_id) s.routes) [
    | none ↦ s
    | some route ↦ cleanup_route route (send_msg_to_client (other_end from route) m s).0
  ]

  unfoldable pub handle_error : Bytes → TunnelMessage → Server svc → Server svc
  handle_error from m s = elim (lookup (route_key from m.stream_id) s.routes) [
    | none ↦ s
    | some route ↦ cleanup_route route (send_msg_to_client (other_end from route) m s).0
  ]
