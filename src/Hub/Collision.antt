-- ===== src/Hub/Collision.antt =====
-- ws_server.go: two sources that use the same stream id towards the same target.
use message_boy.Base.{
  ◌<◌, ◌≡◌, ◌≢◌, refl, sym, true, some, Bytes, bytes_eq, lookup, lookup-insert, str_eq, str_eq_refl,
}
use message_boy.Wire.{TunnelMessage}
use message_boy.Hub.{Services, Server, RouteInfo, send_msg_to_client}
use message_boy.Hub.Keys.{route_key, keys_apart}
use message_boy.Hub.Routing.{connect_prepared, handle_conn_ack}
use message_boy.Hub.Routes.{routes-connect_prepared}

module _ {svc : Services} where
  ack_found :
      (from : Bytes) (m : TunnelMessage) (s : Server svc) (route : RouteInfo)
      → lookup (route_key from m.stream_id) s.routes ≡ some route
      → from ≡ route.target_client_id
      → handle_conn_ack from m s ≡ (send_msg_to_client route.source_client_id m s).0
  unfolding handle_conn_ack
  ack_found from m s route e h =
      let own : str_eq from route.target_client_id ≡ true = rw (← h) (str_eq_refl from) in
      rw (e, handle_conn_ack) (rw own)

  -- Two sources open streams with the same id to the same target. The target's acknowledgement of the
  -- id goes to the second source, and so does the one meant for the first, whose own key still leads
  -- to its route.
  pub ack_goes_to_second :
      (a b : RouteInfo) (s : Server svc) (m : TunnelMessage)
      → a.stream_id < 4294967296
      → b.stream_id ≡ a.stream_id
      → b.target_client_id ≡ a.target_client_id
      → a.source_client_id ≢ b.source_client_id
      → a.source_client_id ≢ a.target_client_id
      → m.stream_id ≡ a.stream_id
      → let t = connect_prepared b (connect_prepared a s) in
        (handle_conn_ack a.target_client_id m t ≡ (send_msg_to_client b.source_client_id m t).0)
        × (lookup (route_key a.source_client_id a.stream_id) t.routes ≡ some a)
  ack_goes_to_second a b s m small id target apart other mid =
      let t = connect_prepared b (connect_prepared a s) in
      let second : lookup (route_key a.target_client_id m.stream_id) t.routes ≡ some b =
        rw
          (
            routes-connect_prepared b (connect_prepared a s),
            lookup-insert,
            target,
            id,
            mid,
            str_eq_refl (route_key a.target_client_id a.stream_id),
          )
          refl in
      (
        ack_found a.target_client_id m t b second (sym target),
        rw
            (
              routes-connect_prepared b (connect_prepared a s),
              routes-connect_prepared a s,
              lookup-insert,
              lookup-insert,
              lookup-insert,
              lookup-insert,
              target,
              id,
              keys_apart a.target_client_id a.source_client_id a.stream_id small
                  (λ e. other (sym e)),
              keys_apart b.source_client_id a.source_client_id a.stream_id small
                  (λ e. apart (sym e)),
              str_eq_refl (route_key a.source_client_id a.stream_id),
            )
            refl,
      )
