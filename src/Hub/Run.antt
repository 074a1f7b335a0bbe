-- ===== src/Hub/Run.antt =====
-- ws_server.go: the server over time. Each handler holds the table's lock or works on one connection, so
-- the goroutines of the connections, of the API and of the timers interleave as steps.
use message_boy.Base.{
  ℕ, ◌<◌, ◌≡◌, refl, ◌∙◌, Bool, true, false, List, [], ◌∷◌, Option, none, some, arith, Bytes,
  IsByte, All, if_case, Map, bytes_eq, nat_eq, lookup,
}
use message_boy.Wire.{
  TunnelMessage, bare_message, msg_type_rule_update, Result, ok, err, unmarshal_binary,
}
use message_boy.Wire.Ids.{unmarshal_binary-stream_id}
use message_boy.Hub.{
  Services, Server, WsClient, RouteInfo, notify_rule_update, notify_rule_update_to_all, notify_each,
  send_msg_to_client, PortCheckResult,
}
use message_boy.Hub.Lifecycle.{accept, disconnect, receive, pop_queue, write_pump}
use message_boy.Hub.PortCheck.{check_port_start, check_port_finish, forget_check}
use message_boy.Hub.Routes.{HasKey, IsKeyed}
use message_boy.Hub.Handlers.{dispatch-IsKeyed}
use message_boy.Hub.Teardown.{disconnect-IsKeyed}

module _ {svc : Services} where
  -- `NewWSServer`, with the components that are set on it.
  abbrev pub new_server : Option svc.Balancer → Option svc.Counter → Server svc
  new_server lb tc = record {
    clients = [];
    conns = [];
    next_ref = 0;
    routes = [];
    load_balancer = lb;
    traffic_counter = tc;
    pending_port_checks = [];
    port_check_next_id = 0;
  }

  -- One step: what arrives is any sequence of bytes.
  pub data Step : Server svc → Server svc → Type 0 where
    accepted : (id : Bytes) (s : Server svc) → Step s (accept id s).0
    received : (id bytes : Bytes) (s : Server svc) → All IsByte bytes → Step s (receive id bytes s)
    disconnected : (id : Bytes) (r : ℕ) (s : Server svc) → Step s (disconnect id r s)
    written : (r : ℕ) (s : Server svc) → Step s (write_pump r s).0
    notified : (id : Bytes) (s : Server svc) → Step s (notify_rule_update id s).0
    notified_all : (s : Server svc) → Step s (notify_rule_update_to_all s)
    check_started :
        (client addr rule : Bytes) (s : Server svc) → Step s (check_port_start client addr rule s).0
    check_finished :
        (id : ℕ) (expired : Bool) (s : Server svc) → Step s (check_port_finish id expired s).0

  pub data Reachable : Server svc → Type 0 where
    start : (lb : Option svc.Balancer) (tc : Option svc.Counter) → Reachable (new_server lb tc)
    next : {s t : Server svc} → Reachable s → Step s t → Reachable t

  routes-accept : (id : Bytes) (s : Server svc) → (accept id s).0.routes ≡ s.routes
  unfolding accept
  routes-accept id s = ground arith

  routes-pop_queue :
      (r : ℕ) (c : WsClient) (items : List Bytes) (s : Server svc)
      → (pop_queue r c items s).0.routes ≡ s.routes
  unfolding pop_queue
  routes-pop_queue r c [] s = refl
  routes-pop_queue r c (item ∷ rest) s = refl

  routes-write_pump : (r : ℕ) (s : Server svc) → (write_pump r s).0.routes ≡ s.routes
  unfolding write_pump
  routes-write_pump r s = go (lookup r s.conns) refl
    where
      go : (o : Option WsClient) → lookup r s.conns ≡ o → (write_pump r s).0.routes ≡ s.routes
      go none e = rw (e, write_pump) refl
      go (some c) e =
          rw (e, write_pump)
            (if_case (λ (x : Server svc × Option Bytes). x.0.routes ≡ s.routes) c.closed (s, none)
              (pop_queue r c c.send_ch s) refl (routes-pop_queue r c c.send_ch s))

  routes-send :
      (id : Bytes) (m : TunnelMessage) (s : Server svc)
      → (send_msg_to_client id m s).0.routes ≡ s.routes
  unfolding send_msg_to_client
  routes-send id m s = refl

  routes-notify_each :
      (clients : Map Bytes ℕ) (s : Server svc) → (notify_each clients s).routes ≡ s.routes
  unfolding notify_each
  routes-notify_each [] s = refl
  routes-notify_each ((id, r) ∷ rest) s =
      routes-notify_each rest (send_msg_to_client id (bare_message msg_type_rule_update 0) s).0
      ∙ routes-send id (bare_message msg_type_rule_update 0) s

  routes-check_port_start :
      (client addr rule : Bytes) (s : Server svc)
      → (check_port_start client addr rule s).0.routes ≡ s.routes
  unfolding check_port_start send_msg_to_client forget_check
  routes-check_port_start client addr rule s = ground arith

  routes-check_port_finish :
      (id : ℕ) (expired : Bool) (s : Server svc)
      → (check_port_finish id expired s).0.routes ≡ s.routes
  unfolding check_port_finish forget_check
  routes-check_port_finish id true s = refl
  routes-check_port_finish id false s = go (lookup id s.pending_port_checks) refl
    where
      go :
          (o : Option (Option PortCheckResult))
          → lookup id s.pending_port_checks ≡ o
          → (check_port_finish id false s).0.routes ≡ s.routes
      go none e = rw (e, check_port_finish) refl
      go (some none) e = rw (e, check_port_finish) refl
      go (some (some result)) e = rw (e, check_port_finish) refl

  receive-IsKeyed :
      (id bytes : Bytes) (s : Server svc)
      → All IsByte bytes
      → IsKeyed s.routes
      → IsKeyed (receive id bytes s).routes
  unfolding receive
  receive-IsKeyed id bytes s h v = go (unmarshal_binary bytes) refl
    where
      go :
          (r : Result TunnelMessage)
          → unmarshal_binary bytes ≡ r
          → IsKeyed (receive id bytes s).routes
      go (ok m) e =
          rw (e, receive) (dispatch-IsKeyed id m s (unmarshal_binary-stream_id bytes m h e) v)
      go (err x) e = rw (e, receive) v

  step-IsKeyed : {s t : Server svc} → Step s t → IsKeyed s.routes → IsKeyed t.routes
  unfolding notify_rule_update notify_rule_update_to_all
  step-IsKeyed (accepted id s) v = rw (routes-accept id s) v
  step-IsKeyed (received id bytes s h) v = receive-IsKeyed id bytes s h v
  step-IsKeyed (disconnected id r s) v = disconnect-IsKeyed id r s v
  step-IsKeyed (written r s) v = rw (routes-write_pump r s) v
  step-IsKeyed (notified id s) v = rw (routes-send id (bare_message msg_type_rule_update 0) s) v
  step-IsKeyed (notified_all s) v = rw (routes-notify_each s.clients s) v
  step-IsKeyed (check_started client addr rule s) v =
      rw (routes-check_port_start client addr rule s) v
  step-IsKeyed (check_finished id expired s) v = rw (routes-check_port_finish id expired s) v

  -- However the steps of the connections, of the timers and of the API interleave, and whatever bytes the
  -- clients send, every entry of the routing table stands under one of its route's two ends, and
  -- every route's stream id has 32 bits.
  pub Reachable-IsKeyed : {s : Server svc} → Reachable s → IsKeyed s.routes
  Reachable-IsKeyed (start lb tc) = λ k route e. no_route k route e
    where
      no_route :
          (k : Bytes) (route : RouteInfo)
          → lookup k [] ≡ some route
          → HasKey k route × (route.stream_id < 4294967296)
      no_route k route e = unfold lookup in (absurd (cc e))
  Reachable-IsKeyed (next reach step) = step-IsKeyed step (Reachable-IsKeyed reach)
