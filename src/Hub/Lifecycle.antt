-- ===== src/Hub/Lifecycle.antt =====
-- ws_server.go, HandleConnection, readPump, writePump and cleanupRoutesForClient: a connection's life.
use message_boy.Base.{
  ℕ, ◌+◌, Bool, true, false, ◌||◌, List, [], ◌∷◌, Option, none, some, Bytes, ◌==◌, if◌then◌else◌,
  if_case, Map, nat_eq, bytes_eq, lookup, insert, delete, str_eq, is_empty,
}
use message_boy.Wire.{
  TunnelMessage, ok, err, unmarshal_binary, msg_type_connect, msg_type_conn_ack, msg_type_data,
  msg_type_close, msg_type_error, msg_type_check_port_result,
}
use message_boy.Hub.{Services, Server, WsClient, RouteInfo}
use message_boy.Hub.Routing.{
  cleanup_route, handle_connect, handle_conn_ack, handle_data, handle_close, handle_error,
}
use message_boy.Hub.PortCheck.{handle_port_check_result}

unfoldable pub close_client : WsClient → WsClient
close_client c = if c.closed then c else record c { closed = true }

-- `Close` through a pointer.
unfoldable pub close_ref : ℕ → Map ℕ WsClient → Map ℕ WsClient
unfolding close_client
close_ref r conns = elim (lookup r conns) [
  | none ↦ conns
  | some c ↦ insert r (close_client c) conns
]

abbrev pub mentions : Bytes → RouteInfo → Bool
mentions id route = str_eq route.source_client_id id || str_eq route.target_client_id id

-- The first loop of `cleanupRoutesForClient`: a route is met once for each key that leads to it.
unfoldable pub to_cleanup : Bytes → Map Bytes RouteInfo → List RouteInfo
to_cleanup id [] = []
to_cleanup id ((k, route) ∷ rest) =
    if mentions id route then route ∷ to_cleanup id rest else to_cleanup id rest

unfoldable pub close_old : Option ℕ → Map ℕ WsClient → Map ℕ WsClient
unfolding close_ref
close_old none conns = conns
close_old (some r) conns = close_ref r conns

module _ {svc : Services} where
  unfoldable pub cleanup_all : List RouteInfo → Server svc → Server svc
  cleanup_all [] s = s
  cleanup_all (route ∷ rest) s = cleanup_all rest (cleanup_route route s)

  unfoldable pub cleanup_routes_for_client : Bytes → Server svc → Server svc
  cleanup_routes_for_client id s = cleanup_all (to_cleanup id s.routes) s

  -- `HandleConnection` up to the pumps: an older connection of the same client is closed. The
  -- answer is the new connection, or nothing where the request names no client.
  unfoldable pub accept : Bytes → Server svc → Server svc × Option ℕ
  unfolding close_old
  accept id s =
      let conns' = close_old (lookup id s.clients) s.conns in
      if is_empty id then (s, none) else (
        record s {
          conns =
              insert s.next_ref
                (record { id = id; send_ch = []; closed = false; dropped_messages = 0 }) conns';
          next_ref = s.next_ref + 1;
          clients = insert id s.next_ref s.clients;
        },
        some s.next_ref,
      )

  -- The client's entry goes only if it still leads to this connection.
  unfoldable pub forget_client : Bytes → ℕ → Server svc → Server svc
  forget_client id r s = elim (lookup id s.clients) [
    | none ↦ s
    | some q ↦ if q == r then record s { clients = delete id s.clients } else s
  ]

  -- The rest of `HandleConnection`, when the read pump has ended.
  unfoldable pub disconnect : Bytes → ℕ → Server svc → Server svc
  disconnect id r s =
      cleanup_routes_for_client id (forget_client id r (record s { conns = close_ref r s.conns }))

  unfoldable pub dispatch : Bytes → TunnelMessage → Server svc → Server svc
  dispatch id m s =
      if m.type == msg_type_connect
      then handle_connect id m s
      else if m.type == msg_type_conn_ack
      then handle_conn_ack id m s
      else if m.type == msg_type_data
      then handle_data id m s
      else if m.type == msg_type_close
      then handle_close id m s
      else if m.type == msg_type_error
      then handle_error id m s
      else if m.type == msg_type_check_port_result
      then handle_port_check_result m s
      else s

  -- A property that every handler's result has is one of the dispatch.
  pub dispatch_cases :
      (P : Server svc → Type 0) (id : Bytes) (m : TunnelMessage) (s : Server svc)
      → P (handle_connect id m s)
      → P (handle_conn_ack id m s)
      → P (handle_data id m s)
      → P (handle_close id m s)
      → P (handle_error id m s)
      → P (handle_port_check_result m s)
      → P s
      → P (dispatch id m s)
  unfolding dispatch
  dispatch_cases P id m s connect ack bytes close error check other = if_case P _ _ _ connect (
      if_case P _ _ _ ack (
        if_case P _ _ _ bytes
          (if_case P _ _ _ close (if_case P _ _ _ error (if_case P _ _ _ check other)))))

  -- One round of `readPump`; what cannot be decoded is skipped.
  unfoldable pub receive : Bytes → Bytes → Server svc → Server svc
  receive id bytes s = elim (unmarshal_binary bytes) [ ok m ↦ dispatch id m s | err e ↦ s ]

  unfoldable pub pop_queue : ℕ → WsClient → List Bytes → Server svc → Server svc × Option Bytes
  pop_queue r c [] s = (s, none)
  pop_queue r c (item ∷ rest) s =
      (record s { conns = insert r (record c { send_ch = rest }) s.conns }, some item)

  -- One round of `writePump`: the oldest item of the queue goes out.
  unfoldable pub write_pump : ℕ → Server svc → Server svc × Option Bytes
  unfolding pop_queue
  write_pump r s = elim (lookup r s.conns) [
    | none ↦ (s, none)
    | some c ↦ if c.closed then (s, none) else pop_queue r c c.send_ch s
  ]
