-- ===== src/Tunnel/Flow.antt =====
-- One stream of a client between its connection and its TCP connection: what a message does to the
-- stream, and the loop of `forwardFromTunnel` (relay_forwarder.go) that empties its channel.
use message_boy.Base.{
  ℕ, ◌+◌, Bool, true, false, List, [], ◌∷◌, ◌++◌, Bytes, ◌==◌, if◌then◌else◌, length,
}
use message_boy.Wire.{
  TunnelMessage, msg_type_conn_ack, msg_type_data, msg_type_close, msg_type_error,
}
use message_boy.Stream.{Stream, close_stream, write_stream}
use message_boy.Tunnel.{ack_signal, error_signal}

-- The stream after a write, and whether it is still registered.
unfoldable pub write_or_close : Bytes → Stream → Stream × Bool
unfolding write_stream close_stream
write_or_close bytes s =
    let (s', done) = write_stream bytes s in if done then (s', true) else (close_stream s', false)

unfoldable pub on_message : TunnelMessage → Stream → Stream × Bool
unfolding write_or_close write_stream close_stream
on_message m s =
    if m.type == msg_type_conn_ack
    then write_or_close ack_signal s
    else if m.type == msg_type_data
    then write_or_close m.payload s
    else if m.type == msg_type_close
    then (close_stream s, false)
    else if m.type == msg_type_error
    then (close_stream (write_stream error_signal s).0, true)
    else (s, true)

-- A stream with its reader: `registered` as long as messages reach the stream, `delivered` what was
-- written to the TCP connection, `bytes_in` what the traffic counter was given, and `running` until
-- the loop returns.
pub record Flow : Type 0 where
  pub stream : Stream
  pub registered : Bool
  pub delivered : List Bytes
  pub bytes_in : ℕ
  pub running : Bool

-- A message for the stream arrives; or the `select` of the loop takes the channel, where the write to
-- the connection succeeds or fails; or it takes `CloseCh`; or the stream's other loop returns and closes
-- the stream.
pub data Event : Type 0 where
  arrive : TunnelMessage → Event
  take_data : Bool → Event
  take_close : Event
  close_here : Event

unfoldable pub arrived : TunnelMessage → Flow → Flow
unfolding on_message
arrived m f =
    if f.registered
    then record f { stream = (on_message m f.stream).0; registered = (on_message m f.stream).1 }
    else f

-- The loop counts what it took before it writes; a failed write ends it and closes the stream.
unfoldable pub taken : Bool → List Bytes → Flow → Flow
unfolding close_stream
taken ok [] f = f
taken true (bytes ∷ rest) f = record f {
  stream = record f.stream { data_ch = rest };
  delivered = f.delivered ++ bytes ∷ [];
  bytes_in = f.bytes_in + length bytes;
}
taken false (bytes ∷ rest) f = record f {
  stream = close_stream (record f.stream { data_ch = rest });
  bytes_in = f.bytes_in + length bytes;
  running = false;
}

-- An event that is not possible in the state changes nothing.
unfoldable pub step : Event → Flow → Flow
unfolding arrived taken close_stream
step (arrive m) f = arrived m f
step (take_data ok) f = if f.running then taken ok f.stream.data_ch f else f
step take_close f =
    if f.running then (if f.stream.closed then record f { running = false } else f) else f
step close_here f = record f { stream = close_stream f.stream }

unfoldable pub run : List Event → Flow → Flow
unfolding step
run [] f = f
run (e ∷ es) f = run es (step e f)

abbrev pub start : Stream → Flow
start s = record { stream = s; registered = true; delivered = []; bytes_in = 0; running = true }
