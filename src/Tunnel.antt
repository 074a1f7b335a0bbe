-- ===== src/Tunnel.antt =====
-- internal/client/client.go, handleTunnelMessages, and the loops of relay_forwarder.go: how a client's
-- connection meets its streams and its TCP connections. A goroutine that is started is recorded as a
-- task; the loops are functions of what their channels and connections answer.
pub mod Handling
pub mod Flow
pub mod Routing
pub mod Taking
pub mod Delivery
pub mod Closing
pub mod Forwarding
pub mod Copying
pub mod Handshake
pub mod Waiting
pub mod Incoming
pub mod Retry
mod Tests
use message_boy.Base.{
  ℕ, ◌+◌, Bool, true, false, ◌&&◌, List, [], ◌∷◌, ◌++◌, Option, none, some, Bytes, ◌==◌, codes,
  if◌then◌else◌, Map, bytes_eq, nat_eq, lookup, insert, str_eq, is_empty,
}
use message_boy.Wire.{
  TunnelMessage, bare_message, msg_type_connect, msg_type_conn_ack, msg_type_data, msg_type_close,
  msg_type_error, msg_type_rule_update, msg_type_check_port, msg_type_check_port_result,
}
use message_boy.Stream.{Stream, StreamManager, get_stream, write, close, remove_stream}

-- What `spawnAsync` is given: `handleIncomingConnect`, `fetchAndApplyRules` and `handleCheckPort`.
pub data Task : Type 0 where
  incoming_connect : TunnelMessage → Task
  fetch_rules : Task
  check_port : TunnelMessage → Task

-- `stopped` says that `stopCh` is closed.
pub record Tunnel : Type 0 where
  pub streams : StreamManager
  pub tasks : List Task
  pub stopped : Bool

unfoldable pub spawn_async : Task → Tunnel → Tunnel
spawn_async task t = if t.stopped then t else record t { tasks = t.tasks ++ task ∷ [] }

-- What is put into the channel of a stream whose connection was accepted or rejected.
abbrev pub ack_signal : Bytes
ack_signal = msg_type_conn_ack ∷ []

abbrev pub error_signal : Bytes
error_signal = msg_type_error ∷ []

-- A stream that takes no more is closed and forgotten.
unfoldable pub write_or_remove : ℕ → ℕ → Bytes → StreamManager → StreamManager
unfolding write remove_stream
write_or_remove id r bytes sm =
    let (sm', done) = write r bytes sm in if done then sm' else remove_stream id sm'

unfoldable pub signal_error : ℕ → StreamManager → StreamManager
unfolding write close
signal_error r sm = close r (write r error_signal sm).0

-- The entry of the message's stream, if it has one.
unfoldable pub to_stream :
    Option ℕ → (ℕ → StreamManager → StreamManager) → StreamManager → StreamManager
to_stream none f sm = sm
to_stream (some r) f sm = f r sm

-- One round of `handleTunnelMessages`.
unfoldable pub handle_tunnel_message : TunnelMessage → Tunnel → Tunnel
unfolding spawn_async write_or_remove signal_error to_stream remove_stream get_stream
handle_tunnel_message m t =
    let found = get_stream m.stream_id t.streams in
    if m.type == msg_type_connect
    then spawn_async (incoming_connect m) t
    else if m.type == msg_type_conn_ack
    then record t {
      streams = to_stream found (λ r. write_or_remove m.stream_id r ack_signal) t.streams;
    }
    else if m.type == msg_type_data
    then record t {
      streams = to_stream found (λ r. write_or_remove m.stream_id r m.payload) t.streams;
    }
    else if m.type == msg_type_close
    then record t { streams = remove_stream m.stream_id t.streams }
    else if m.type == msg_type_error
    then record t { streams = to_stream found signal_error t.streams }
    else if m.type == msg_type_rule_update
    then spawn_async fetch_rules t
    else if m.type == msg_type_check_port
    then spawn_async (check_port m) t
    else t

-- `handleTunnelMessages`, over what `Recv` answers until the connection is closed.
unfoldable pub handle_tunnel_messages : List TunnelMessage → Tunnel → Tunnel
unfolding handle_tunnel_message
handle_tunnel_messages [] t = t
handle_tunnel_messages (m ∷ ms) t = handle_tunnel_messages ms (handle_tunnel_message m t)

-- What the `select` of `waitForConnAck` finds ready.
pub data Signal : Type 0 where
  timed_out closed : Signal
  received : Bytes → Signal

-- The answer of `waitForConnAck`; `none` while it waits. Other data is passed over.
unfoldable pub wait_for_conn_ack : List Signal → Option Bool
wait_for_conn_ack [] = none
wait_for_conn_ack (timed_out ∷ rest) = some false
wait_for_conn_ack (closed ∷ rest) = some false
wait_for_conn_ack (received bytes ∷ rest) =
    if str_eq bytes ack_signal
    then some true
    else if str_eq bytes error_signal
    then some false
    else wait_for_conn_ack rest

-- The Connect message of a relay forwarder; the payload names the next hop.
unfoldable pub connect_message : ℕ → Bytes → Bytes → List Bytes → TunnelMessage
connect_message stream exit rule [] = record (bare_message msg_type_connect stream) {
  target = exit;
  rule_id = rule;
}
connect_message stream exit rule (hop ∷ chain) = record (bare_message msg_type_connect stream) {
  target = exit;
  rule_id = rule;
  payload = hop;
}

-- `handleCheckPort`: the text of the answer is empty if the port is free. The port of the rule that
-- asks counts as free, whatever `Listen` says.
unfoldable pub check_port_text : Map Bytes Bytes → (Bytes → Bool) → Bytes → TunnelMessage → Bytes
check_port_text listen_addrs can_listen busy m =
    let tried = if can_listen m.target then [] else busy in
    if is_empty m.rule_id then tried else elim (lookup m.rule_id listen_addrs) [
      | none ↦ tried
      | some addr ↦ if str_eq addr m.target then [] else tried
    ]

-- `sendPortCheckResult`.
abbrev pub port_check_result : ℕ → Bytes → TunnelMessage
port_check_result id text = record (bare_message msg_type_check_port_result id) { error = text }
