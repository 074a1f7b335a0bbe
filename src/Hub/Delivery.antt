-- ===== src/Hub/Delivery.antt =====
-- ws_server.go: who receives what a client sends along a route.
use message_boy.Base.{
  ℕ, ◌≤◌, ◌<◌, ◌≡◌, ◌≢◌, refl, sym, ap, ◌⊎◌, inl, inr, true, false, [], ◌∷◌, ◌++◌, Option, none,
  some, arith, Bytes, length, Map, nat_eq, bytes_eq, lookup, lookup-insert, str_eq, str_eq_iff,
  Bool-cases, Option-cases,
}
use message_boy.Wire.{TunnelMessage, shape, max_payload_size, calc_payload_size}
use message_boy.Wire.RoundTrip.{StringsFit, frame}
use message_boy.Hub.{
  Services, Server, WsClient, RouteInfo, send_ch_cap, deliver, send_msg_to_client,
}
use message_boy.Hub.Keys.{route_key, route_key_injective}
use message_boy.Hub.Routing.{for_rule, handle_data, other_end}
use message_boy.Hub.Sending.{send_msg_queued, send_to_ref_found, send_to_ref_other}
use message_boy.Hub.Routes.{IsKeyed}

-- A route that is found under a client and a stream is of that stream, and the client is one of its
-- ends: the warnings about unexpected clients are never reached by data.
pub route_of_key :
    (routes : Map Bytes RouteInfo) (from : Bytes) (stream : ℕ) (route : RouteInfo)
    → IsKeyed routes
    → stream < 4294967296
    → lookup (route_key from stream) routes ≡ some route
    → (stream ≡ route.stream_id)
      × ((from ≡ route.source_client_id) ⊎ (from ≡ route.target_client_id))
route_of_key routes from stream route v h e =
    let (key, small) = v (route_key from stream) route e in
    elim key [
      | inl k ↦
          let (c, i) =
            route_key_injective from route.source_client_id stream route.stream_id h small k in
          (i, inl c)
      | inr k ↦
          let (c, i) =
            route_key_injective from route.target_client_id stream route.stream_id h small k in
          (i, inr c)
    ]

module _ {svc : Services} where
  conns-for_rule :
      (rule : Bytes) (f : svc.Counter → svc.Counter) (s : Server svc)
      → ((for_rule rule f s).conns ≡ s.conns) × ((for_rule rule f s).clients ≡ s.clients)
  unfolding for_rule
  conns-for_rule rule f s = ground arith

  handle_data_missing :
      (from : Bytes) (m : TunnelMessage) (s : Server svc)
      → lookup (route_key from m.stream_id) s.routes ≡ none
      → handle_data from m s ≡ s
  unfolding handle_data
  handle_data_missing from m s e = rw (e, handle_data)

  -- Data from the source is charged as outbound and goes to the target.
  pub handle_data_outbound :
      (from : Bytes) (m : TunnelMessage) (s : Server svc) (route : RouteInfo)
      → lookup (route_key from m.stream_id) s.routes ≡ some route
      → str_eq from route.source_client_id ≡ true
      → handle_data from m s
        ≡ (send_msg_to_client route.target_client_id m (
            for_rule route.rule_id
              (svc.add_bytes_out route.rule_id route.source_client_id (length m.payload))
              s)).0
  unfolding handle_data
  handle_data_outbound from m s route e h = rw (e, handle_data) (rw h)

  -- Data from the target is charged as inbound, under the source, and goes to the source.
  pub handle_data_inbound :
      (from : Bytes) (m : TunnelMessage) (s : Server svc) (route : RouteInfo)
      → lookup (route_key from m.stream_id) s.routes ≡ some route
      → str_eq from route.source_client_id ≡ false
      → str_eq from route.target_client_id ≡ true
      → handle_data from m s
        ≡ (send_msg_to_client route.source_client_id m (
            for_rule route.rule_id
              (svc.add_bytes_in route.rule_id route.source_client_id (length m.payload))
              s)).0
  unfolding handle_data
  handle_data_inbound from m s route e h k = rw (e, handle_data) (rw (h, k))

  conns-send-for_rule :
      (id rule : Bytes) (f : svc.Counter → svc.Counter) (m : TunnelMessage) (s : Server svc)
      → (send_msg_to_client id m (for_rule rule f s)).0.conns
        ≡ (deliver svc.pool m (lookup id s.clients) s.conns).0
  unfolding send_msg_to_client
  conns-send-for_rule id rule f m s = rw ((conns-for_rule rule f s).0, (conns-for_rule rule f s).1)

  conns-handle_data :
      (from : Bytes) (m : TunnelMessage) (s : Server svc) (route : RouteInfo)
      → lookup (route_key from m.stream_id) s.routes ≡ some route
      → (from ≡ route.source_client_id) ⊎ (from ≡ route.target_client_id)
      → (handle_data from m s).conns
        ≡ (deliver svc.pool m (lookup (other_end from route) s.clients) s.conns).0
  conns-handle_data from m s route e ends = elim (Bool-cases (str_eq from route.source_client_id)) [
    | inl h ↦
        rw (handle_data_outbound from m s route e h, h)
          (conns-send-for_rule route.target_client_id route.rule_id _ m s)
    | inr h ↦
        rw (handle_data_inbound from m s route e h (at_target h ends), h)
          (conns-send-for_rule route.source_client_id route.rule_id _ m s)
  ]
    where
      at_target :
          str_eq from route.source_client_id ≡ false
          → (from ≡ route.source_client_id) ⊎ (from ≡ route.target_client_id)
          → str_eq from route.target_client_id ≡ true
      at_target h (inl k) = absurd (cc (h, (str_eq_iff from route.source_client_id).1 k))
      at_target h (inr k) = (str_eq_iff from route.target_client_id).1 k

  -- A data message for a stream with a route is appended as one frame to the queue of the client at
  -- the other end, and no other connection changes: the table is keyed by the routes' ends, the other
  -- end is connected and open with room in its queue, and the message is within the limits.
  pub handle_data_delivers :
      (from : Bytes) (m : TunnelMessage) (s : Server svc) (route : RouteInfo) (r : ℕ) (c : WsClient)
      → IsKeyed s.routes
      → m.stream_id < 4294967296
      → lookup (route_key from m.stream_id) s.routes ≡ some route
      → lookup (other_end from route) s.clients ≡ some r
      → lookup r s.conns ≡ some c
      → c.closed ≡ false
      → length c.send_ch < send_ch_cap
      → StringsFit (shape m.type) m
      → calc_payload_size m ≤ max_payload_size
      → (lookup r (handle_data from m s).conns
          ≡ some (record c { send_ch = c.send_ch ++ frame m ∷ [] }))
        × ((q : ℕ) → q ≢ r → lookup q (handle_data from m s).conns ≡ lookup q s.conns)
  unfolding deliver
  handle_data_delivers from m s route r c v hs e online found opened room hf fits =
      rw
        (
          conns-handle_data from m s route e
              (route_of_key s.routes from m.stream_id route v hs e).1,
          online,
        )
        (
          rw
              (
                send_to_ref_found svc.pool m r s.conns c found,
                send_msg_queued svc.pool m c opened room hf fits,
              )
              (ground (
                arith,
                lookup-insert r r (record c { send_ch = c.send_ch ++ frame m ∷ [] }) s.conns,
              )),
          (λ q ne. send_to_ref_other svc.pool m r q s.conns ne),
        )

  -- What a client sends as data reaches the queue of the route's other end or nobody's.
  pub handle_data_private :
      (from : Bytes) (m : TunnelMessage) (s : Server svc) (q : ℕ)
      → IsKeyed s.routes
      → m.stream_id < 4294967296
      → ((route : RouteInfo)
          → lookup (route_key from m.stream_id) s.routes ≡ some route
          → lookup (other_end from route) s.clients ≢ some q)
      → lookup q (handle_data from m s).conns ≡ lookup q s.conns
  handle_data_private from m s q v hs apart =
      elim (Option-cases (lookup (route_key from m.stream_id) s.routes)) [
        | inl e ↦ rw (handle_data_missing from m s e)
        | inr (route, e) ↦
            rw
              (conns-handle_data from m s route e
                (route_of_key s.routes from m.stream_id route v hs e).1)
              (go (lookup (other_end from route) s.clients) (apart route e))
      ]
    where
      go :
          (o : Option ℕ) → o ≢ some q → lookup q (deliver svc.pool m o s.conns).0 ≡ lookup q s.conns
      go none ne = unfold deliver in refl
      go (some r) ne =
          unfold deliver in (send_to_ref_other svc.pool m r q s.conns (λ e. ne (ap some (sym e))))
