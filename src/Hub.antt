-- ===== src/Hub.antt =====
-- internal/relay/ws_server.go: the relay server's state, and how it sends to a client. A handler runs
-- from one message to the next without interruption here; the connections' goroutines interleave
-- between handlers (Hub/Run.antt). Logging is left out.
pub mod Keys
pub mod Routing
pub mod Lifecycle
pub mod PortCheck
pub mod Sending
pub mod Routes
pub mod Handlers
pub mod Teardown
pub mod Delivery
pub mod Counting
pub mod Run
pub mod Checks
pub mod Collision
mod Tests
mod StepTests
use mathlib.Core.Option
use message_boy.Base.{
  ℕ, ◌+◌, ◌%◌, Bool, true, false, List, [], ◌∷◌, ◌++◌, Option, none, some, Bytes, ltb, codes,
  if◌then◌else◌, length, take, Map, nat_eq, bytes_eq, lookup, insert, is_empty,
}
use message_boy.Wire.{
  buffer_for_size, TunnelMessage, bare_message, ok, err, msg_type_error, msg_type_rule_update,
}
use message_boy.Wire.Pool.{BufferPool, marshal_binary}

-- What `ResolveTarget` returns: a client and a node, or an error's text.
pub data Resolution : Type 0 where
  resolved : Bytes → Bytes → Resolution
  failed : Bytes → Resolution

-- LoadBalancerInterface and TrafficCounterInterface over states of their own, and the buffers. The
-- server ignores the errors of the two counting methods.
pub record Services : Type 1 where
  pub Balancer : Type 0
  pub Counter : Type 0
  pub resolve_target : Bytes → Bytes → Balancer → Balancer × Resolution
  pub increment_connections : Bytes → Balancer → Balancer
  pub decrement_connections : Bytes → Balancer → Balancer
  pub add_bytes_in : Bytes → Bytes → ℕ → Counter → Counter
  pub add_bytes_out : Bytes → Bytes → ℕ → Counter → Counter
  pub increment_conn : Bytes → Bytes → Counter → Counter
  pub decrement_conn : Bytes → Bytes → Counter → Counter
  pub pool : BufferPool

-- The capacity of `SendCh`.
abbrev pub send_ch_cap : ℕ
send_ch_cap = 2048

-- `send_ch` holds what `writePump` will write, oldest first.
pub record WsClient : Type 0 where
  pub id : Bytes
  pub send_ch : List Bytes
  pub closed : Bool
  pub dropped_messages : ℕ

pub record RouteInfo : Type 0 where
  pub source_client_id : Bytes
  pub target_client_id : Bytes
  pub stream_id : ℕ
  pub exit_addr : Bytes
  pub node_id : Bytes
  pub rule_id : Bytes

pub record PortCheckResult : Type 0 where
  pub available : Bool
  pub error : Bytes

-- The connections are objects that goroutines point to: `clients` leads from ids to references. A
-- pending check's channel holds at most one result.
pub record Server (svc : Services) : Type 0 where
  pub clients : Map Bytes ℕ
  pub conns : Map ℕ WsClient
  pub next_ref : ℕ
  pub routes : Map Bytes RouteInfo
  pub load_balancer : Option svc.Balancer
  pub traffic_counter : Option svc.Counter
  pub pending_port_checks : Map ℕ (Option PortCheckResult)
  pub port_check_next_id : ℕ

-- `SendMsg`: refused once closed, if the message does not fit, or if the queue is full, which is
-- counted.
pub send_msg : BufferPool → TunnelMessage → WsClient → WsClient × Bool
send_msg pool m c = if c.closed then (c, false) else elim (marshal_binary pool m) [
  | err e ↦ (c, false)
  | ok (buf, n) ↦
      if ltb (length c.send_ch) send_ch_cap
      then (record c { send_ch = c.send_ch ++ take n buf ∷ [] }, true)
      else (record c { dropped_messages = (c.dropped_messages + 1) % 18446744073709551616 }, false)
]

-- `SendMsg` through a pointer.
pub send_to_ref : BufferPool → TunnelMessage → ℕ → Map ℕ WsClient → Map ℕ WsClient × Bool
send_to_ref pool m r conns = elim (lookup r conns) [
  | none ↦ (conns, false)
  | some c ↦ let (c', sent) = send_msg pool m c in (insert r c' conns, sent)
]

-- `Send`, of bytes as they are: refused once closed, if no buffer of the pool is as long, or if the
-- queue is full.
pub send : Bytes → WsClient → WsClient × Bool
send bytes c =
    if c.closed
    then (c, false)
    else if ltb (buffer_for_size (length bytes)) (length bytes)
    then (c, false)
    else if ltb (length c.send_ch) send_ch_cap
    then (record c { send_ch = c.send_ch ++ bytes ∷ [] }, true)
    else (record c { dropped_messages = (c.dropped_messages + 1) % 18446744073709551616 }, false)

-- `SendMsgToClient`, by the client's entry in the map.
pub deliver : BufferPool → TunnelMessage → Option ℕ → Map ℕ WsClient → Map ℕ WsClient × Bool
deliver pool m none conns = (conns, false)
deliver pool m (some r) conns = send_to_ref pool m r conns

module _ {svc : Services} where
  pub get_client : Bytes → Server svc → Option ℕ
  get_client id s = lookup id s.clients

  pub send_msg_to_client : Bytes → TunnelMessage → Server svc → Server svc × Bool
  send_msg_to_client id m s =
      let (conns', sent) = deliver svc.pool m (lookup id s.clients) s.conns in
      (record s { conns = conns' }, sent)

  pub send_to_client : Bytes → Bytes → Server svc → Server svc × Bool
  send_to_client id bytes s = elim (lookup id s.clients) [
    | none ↦ (s, false)
    | some r ↦ elim (lookup r s.conns) [
      | none ↦ (s, false)
      | some c ↦ let (c', sent) = send bytes c in (record s { conns = insert r c' s.conns }, sent)
    ]
  ]

  pub send_error : Bytes → ℕ → Bytes → Server svc → Server svc
  unfolding send_msg_to_client
  send_error id stream text s =
      (send_msg_to_client id (record (bare_message msg_type_error stream) { error = text }) s).0

  pub is_client_online : Bytes → Server svc → Bool
  is_client_online id s = elim (lookup id s.clients) [ none ↦ false | some r ↦ true ]

  pub notify_rule_update : Bytes → Server svc → Server svc × Bool
  unfolding send_msg_to_client
  notify_rule_update id s = send_msg_to_client id (bare_message msg_type_rule_update 0) s

  notify_each : List (Bytes × ℕ) → Server svc → Server svc
  unfolding send_msg_to_client
  notify_each [] s = s
  notify_each ((id, r) ∷ rest) s =
      notify_each rest (send_msg_to_client id (bare_message msg_type_rule_update 0) s).0

  pub notify_rule_update_to_all : Server svc → Server svc
  unfolding notify_each
  notify_rule_update_to_all s = notify_each s.clients s
