-- ===== src/Tunnel/Routing.antt =====
-- client.go, handleTunnelMessages: what a message does to every stream, by its type.
use message_boy.Base.{
  ℕ, ◌≡◌, arith, Bool, true, false, some, ◌==◌, if◌then◌else◌, if_case, nat_eq, lookup,
}
use message_boy.Wire.{
  TunnelMessage, msg_type_conn_ack, msg_type_data, msg_type_close, msg_type_error,
}
use message_boy.Stream.{
  Stream, StreamManager, get_stream, remove_stream, write_stream, close_stream,
}
use message_boy.Stream.Laws.{IsWellFormed}
use message_boy.Tunnel.{
  Tunnel, Task, ack_signal, error_signal, spawn_async, write_or_remove, signal_error, to_stream,
  handle_tunnel_message,
}
use message_boy.Tunnel.Flow.{write_or_close, on_message}
use message_boy.Tunnel.Handling.{
  own_outcome, IsKept, to_stream-IsKept, remove_stream-IsKept, write_or_remove-Effect,
  signal_error-Effect,
}

streams-spawn : (task : Task) (t : Tunnel) → (spawn_async task t).streams ≡ t.streams
unfolding spawn_async
streams-spawn task t = ground arith

-- The five types that streams have to do with, and the rest.
pub data Kind : Type 0 where
  ack data_bytes close error other : Kind

abbrev kind_of : ℕ → Kind
kind_of type =
    if type == msg_type_conn_ack
    then ack
    else if type == msg_type_data
    then data_bytes
    else if type == msg_type_close
    then close
    else if type == msg_type_error
    then error
    else other

abbrev outcome_of : Kind → TunnelMessage → Stream → Stream × Bool
outcome_of ack m x = write_or_close ack_signal x
outcome_of data_bytes m x = write_or_close m.payload x
outcome_of close m x = (close_stream x, false)
outcome_of error m x = (close_stream (write_stream error_signal x).0, true)
outcome_of other m x = (x, true)

abbrev streams_of : Kind → TunnelMessage → StreamManager → StreamManager
streams_of ack m sm =
    to_stream (get_stream m.stream_id sm) (λ r. write_or_remove m.stream_id r ack_signal) sm
streams_of data_bytes m sm =
    to_stream (get_stream m.stream_id sm) (λ r. write_or_remove m.stream_id r m.payload) sm
streams_of close m sm = remove_stream m.stream_id sm
streams_of error m sm = to_stream (get_stream m.stream_id sm) signal_error sm
streams_of other m sm = sm

on_message_kind :
    (m : TunnelMessage) (x : Stream) → on_message m x ≡ outcome_of (kind_of m.type) m x
unfolding on_message
on_message_kind m x = ground arith

handle_kind :
    (m : TunnelMessage) (t : Tunnel)
    → (handle_tunnel_message m t).streams ≡ streams_of (kind_of m.type) m t.streams
unfolding handle_tunnel_message spawn_async
handle_kind m t = ground arith

module _ (m : TunnelMessage) (id r : ℕ) (x : Stream) (sm : StreamManager)
    (entry : lookup id sm.streams ≡ some r) (object : lookup r sm.heap ≡ some x)
    (v : IsWellFormed sm) where
  kind-IsKept :
      (k : Kind)
      → IsKept id r (if m.stream_id == id then outcome_of k m x else (x, true)) (streams_of k m sm)
  kind-IsKept ack =
      to_stream-IsKept m id r x sm entry object m.stream_id
        (λ q. write_or_remove m.stream_id q ack_signal) (write_or_close ack_signal)
        (λ q y e there. write_or_remove-Effect m.stream_id q y sm e there ack_signal) v
  kind-IsKept data_bytes =
      to_stream-IsKept m id r x sm entry object m.stream_id
        (λ q. write_or_remove m.stream_id q m.payload) (write_or_close m.payload)
        (λ q y e there. write_or_remove-Effect m.stream_id q y sm e there m.payload) v
  kind-IsKept close = remove_stream-IsKept m id r x sm entry object m.stream_id v
  kind-IsKept error =
      to_stream-IsKept m id r x sm entry object m.stream_id signal_error
        (λ y. (close_stream (write_stream error_signal y).0, true))
        (λ q y e there. signal_error-Effect m.stream_id q y sm e there) v
  kind-IsKept other =
      if_case (λ o. IsKept id r o sm) (m.stream_id == id) _ _ (object, entry) (object, entry)

-- Every stream of a client is affected by the messages of its id alone, and as `on_message` says of
-- the one stream: the acknowledgement, the payload and the error go into its channel, what it does
-- not take and a Close close and unregister it, and an Error closes it. All other streams stay.
pub handle_tunnel_message_lem :
    (m : TunnelMessage) (t : Tunnel) (id r : ℕ) (x : Stream)
    → IsWellFormed t.streams
    → lookup id t.streams.streams ≡ some r
    → lookup r t.streams.heap ≡ some x
    → IsKept id r (own_outcome m id x) (handle_tunnel_message m t).streams
handle_tunnel_message_lem m t id r x v entry object =
    rw (handle_kind m t, on_message_kind m x)
      (kind-IsKept m id r x t.streams entry object v (kind_of m.type))
