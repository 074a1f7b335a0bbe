-- ===== src/Tunnel/Incoming.antt =====
-- internal/client/client.go, handleIncomingConnect: the exit of a tunnel.
pub mod Answer
use message_boy.Base.{ℕ, Bool, true, false, List, [], ◌∷◌, Option, none, some, Bytes, if◌then◌else◌}
use message_boy.Wire.{
  TunnelMessage, bare_message, msg_type_conn_ack, msg_type_close, msg_type_error,
}
use message_boy.Stream.{StreamManager, fresh_stream, add_stream, remove_stream}
use message_boy.Conn.EndToEnd.{data_message}

-- What `DialTimeout` answers: a connection, or the text of its error.
pub data Dialed : Type 0 where
  connected : Dialed
  failed : Bytes → Dialed

abbrev pub error_message : ℕ → Bytes → TunnelMessage
error_message stream text = record (bare_message msg_type_error stream) { error = text }

module _ {S : Type 0} (send : TunnelMessage → S → S × Bool) where
  -- The loop from the target to the tunnel, over what its reads answer.
  unfoldable pub target_to_tunnel : ℕ → List (Option Bytes) → S → S
  target_to_tunnel stream [] s = s
  target_to_tunnel stream (none ∷ reads) s = s
  target_to_tunnel stream (some bytes ∷ reads) s =
      let (s', sent) = send (data_message stream bytes) s in
      let rest = target_to_tunnel stream reads s' in if sent then rest else s'

  -- `meanwhile` is what else happens to the streams until both loops have ended; the stream's other
  -- loop is the one of Tunnel/Flow without a counter.
  unfoldable pub relayed :
      List (Option Bytes)
      → (StreamManager → StreamManager)
      → ℕ
      → StreamManager
      → S × Bool
      → StreamManager × S
  unfolding target_to_tunnel
  relayed reads meanwhile stream sm (s, false) = (remove_stream stream sm, s)
  relayed reads meanwhile stream sm (s, true) = (
    remove_stream stream (meanwhile sm),
    (send (bare_message msg_type_close stream) (target_to_tunnel stream reads s)).0,
  )

  unfoldable pub handle_incoming_connect :
      Dialed
      → List (Option Bytes)
      → (StreamManager → StreamManager)
      → TunnelMessage
      → StreamManager × S
      → StreamManager × S
  unfolding relayed
  handle_incoming_connect (failed text) reads meanwhile m (sm, s) =
      (sm, (send (error_message m.stream_id text) s).0)
  handle_incoming_connect connected reads meanwhile m (sm, s) =
      relayed reads meanwhile m.stream_id (add_stream (fresh_stream m.stream_id m.target) sm).0
        (send (bare_message msg_type_conn_ack m.stream_id) s)

-- Whether the target could be dialed.
abbrev pub is_dialed : Dialed → Bool
is_dialed connected = true
is_dialed (failed text) = false
