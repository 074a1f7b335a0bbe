-- ===== src/Tunnel/Incoming/Answer.antt =====
-- client.go, handleIncomingConnect, and relay_forwarder.go, waitForConnAck: what the source of a tunnel
-- makes of the answers of its exit.
use message_boy.Base.{
  ℕ, ◌≤◌, ◌<◌, ◌≡◌, refl, sym, ap, ◌∙◌, arith, Bool, true, false, inl, inr, List, [], ◌∷◌, ◌++◌,
  append-nil, append_assoc, Option, none, some, Bytes, if_elim, if_case, length, take, str_eq,
}
use message_boy.Wire.{
  TunnelMessage, Result, ok, err, bare_message, msg_type_conn_ack, msg_type_close, shape,
  max_string_len, calc_payload_size, payload_size,
}
use message_boy.Wire.Pool.{BufferPool}
use message_boy.Conn.Sealing.{Cipher, send_frame, receive_frame}
use message_boy.Conn.EndToEnd.{data_message}
use message_boy.Conn.Control.{receive_frame-control}
use message_boy.Stream.{Stream, StreamManager, write_stream, close_stream}
use message_boy.Tunnel.{
  Signal, timed_out, closed, received, ack_signal, error_signal, wait_for_conn_ack,
}
use message_boy.Tunnel.Taking.{queued, on_message-Takes}
use message_boy.Tunnel.Flow.{write_or_close, on_message, Flow, arrived, start}
use message_boy.Tunnel.Waiting.{
  Wait, arrives, takes, sees_close, sees_timeout, first_of, signals, arrivals_of,
}
use message_boy.Tunnel.Forwarding.{queue_frame, ws_send, received_of}
use message_boy.Tunnel.Incoming.{
  Dialed, connected, failed, is_dialed, error_message, target_to_tunnel, relayed,
  handle_incoming_connect,
}

-- The answer of a wait, by what its `select` finds first.
abbrev pub by_first : Bool → List Signal → Option Bool
by_first good [] = none
by_first good (timed_out ∷ rest) = some false
by_first good (closed ∷ rest) = some false
by_first good (received bytes ∷ rest) = some good

-- What the exit has to say is its first message.
abbrev first_message : Dialed → ℕ → TunnelMessage
first_message connected stream = bare_message msg_type_conn_ack stream
first_message (failed text) stream = error_message stream text

abbrev first_signal : Dialed → Bytes
first_signal connected = ack_signal
first_signal (failed text) = error_signal

-- The text of a dial error fits into a message.
abbrev pub IsShort : Dialed → Type 0
IsShort connected = Unit
IsShort (failed text) = length text ≤ max_string_len

-- What stands first in a channel stays there while messages arrive.
abbrev StartsWith : Bytes → Flow → Type 0
StartsWith b f = (c : List Bytes) × (f.stream.data_ch ≡ b ∷ c)

arrived-StartsWith :
    (b : Bytes) (m : TunnelMessage) (f : Flow) → StartsWith b f → StartsWith b (arrived m f)
unfolding arrived
arrived-StartsWith b m f (c, e) =
    if_elim (StartsWith b) f.registered _ f
      (λ here. elim (on_message-Takes m f.stream) [
        | inl (chan, live) ↦ (c ++ queued m, chan ∙ ap (λ l. l ++ queued m) e)
        | inr (chan, rest) ↦ (c, chan ∙ e)
      ])
      (λ gone. (c, e))

-- The wait decides by the first thing that it finds.
abbrev Decides : Dialed → List Signal → Type 0
Decides d found = wait_for_conn_ack found ≡ by_first (is_dialed d) found

found_first : (d : Dialed) (rest : List Signal) → Decides d (received (first_signal d) ∷ rest)
unfolding wait_for_conn_ack str_eq
found_first connected rest = refl
found_first (failed text) rest = refl

signals_started :
    (d : Dialed) (es : List Wait) (f : Flow)
    → StartsWith (first_signal d) f
    → Decides d (signals es f)
unfolding signals wait_for_conn_ack first_of
signals_started d [] f h = refl
signals_started d (arrives m ∷ es) f h =
    signals_started d es (arrived m f) (arrived-StartsWith (first_signal d) m f h)
signals_started d (takes ∷ es) f (c, e) = rw e (found_first d _)
signals_started d (sees_close ∷ es) f h =
    if_case (Decides d) f.stream.closed _ _ refl (signals_started d es f h)
signals_started d (sees_timeout ∷ es) f h = refl

-- The stream is registered and open, and its channel is empty.
abbrev IsBlank : Flow → Type 0
IsBlank f = (f.registered ≡ true) × (f.stream.closed ≡ false) × (f.stream.data_ch ≡ [])

first_arrival :
    (d : Dialed) (stream : ℕ) (f : Flow)
    → IsBlank f
    → StartsWith (first_signal d) (arrived (first_message d stream) f)
unfolding arrived on_message write_or_close write_stream close_stream
first_arrival connected stream f (here, live, empty) = ([], rw (here, live, empty) refl)
first_arrival (failed text) stream f (here, live, empty) = ([], rw (here, live, empty) refl)

first_of_none :
    (d : Dialed) (chan : List Bytes) (k : List Bytes → List Signal) (found : List Signal)
    → chan ≡ []
    → Decides d found
    → Decides d (first_of chan k found)
unfolding first_of
first_of_none d [] k found e h = h
first_of_none d (b ∷ chan) k found e h = absurd (cc e)

signals_blank :
    (d : Dialed) (stream : ℕ) (es : List Wait) (f : Flow) (later rest : List TunnelMessage)
    → IsBlank f
    → arrivals_of es ++ later ≡ first_message d stream ∷ rest
    → Decides d (signals es f)
unfolding signals wait_for_conn_ack first_of
signals_blank d stream [] f later rest h msgs = refl
signals_blank d stream (arrives m ∷ es) f later rest h msgs =
    let same : m ≡ first_message d stream = cc msgs in
    signals_started d es (arrived m f) (rw same (first_arrival d stream f h))
signals_blank d stream (takes ∷ es) f later rest (here, live, empty) msgs =
    first_of_none d f.stream.data_ch _ (signals es f) empty
      (signals_blank d stream es f later rest (here, live, empty) msgs)
signals_blank d stream (sees_close ∷ es) f later rest h msgs =
    if_elim (Decides d) f.stream.closed _ _ (λ shut. absurd (cc (h.1)))
      (λ live. signals_blank d stream es f later rest h msgs)
signals_blank d stream (sees_timeout ∷ es) f later rest h msgs = refl

-- Frames are only added.
abbrev Extends : List Bytes → List Bytes → Type 0
Extends frames frames' = (more : List Bytes) × (frames' ≡ frames ++ more)

queue_frame-Extends :
    (r : Result (Bytes × ℕ)) (frames : List Bytes) → Extends frames (queue_frame r frames).0
unfolding queue_frame
queue_frame-Extends (err e) frames = ([], sym (append-nil frames))
queue_frame-Extends (ok (buf, n)) frames = (take n buf ∷ [], refl)

extended_twice : (a b c : List Bytes) → Extends a b → Extends b c → Extends a c
extended_twice a b c (x, e) (y, e') = (x ++ y, e' ∙ ap (λ l. l ++ y) e ∙ append_assoc a x y)

module _ (cipher : Cipher) (pool : BufferPool) (nonces : ℕ → Bytes) where
  ws_send-Extends :
      (m : TunnelMessage) (frames : List Bytes)
      → Extends frames (ws_send cipher pool nonces m frames).0
  unfolding ws_send
  ws_send-Extends m frames =
      queue_frame-Extends (send_frame cipher pool (nonces (length frames)) m) frames

  target_to_tunnel-Extends :
      (stream : ℕ) (reads : List (Option Bytes)) (frames : List Bytes)
      → Extends frames (target_to_tunnel (ws_send cipher pool nonces) stream reads frames)
  unfolding target_to_tunnel
  target_to_tunnel-Extends stream [] frames = ([], sym (append-nil frames))
  target_to_tunnel-Extends stream (none ∷ reads) frames = ([], sym (append-nil frames))
  target_to_tunnel-Extends stream (some bytes ∷ reads) frames =
      let x = ws_send cipher pool nonces (data_message stream bytes) frames in
      let one = ws_send-Extends (data_message stream bytes) frames in
      if_case (Extends frames) x.1 _ _
        (extended_twice frames x.0 _ one (target_to_tunnel-Extends stream reads x.0)) one

  sent_first :
      (d : Dialed) (stream : ℕ) (frames : List Bytes)
      → IsShort d
      → stream < 4294967296
      → (frame : Bytes) × (ws_send cipher pool nonces (first_message d stream) frames
          ≡ (frames ++ frame ∷ [], true))
        × (receive_frame cipher frame ≡ some (first_message d stream))
  unfolding ws_send queue_frame shape calc_payload_size payload_size
  sent_first connected stream frames short id =
      let (buf, n, sent, got) =
        receive_frame-control cipher pool (nonces (length frames)) (first_message connected stream)
          refl id tt (omega arith) in
      (take n buf, ap (λ r. queue_frame r frames) sent, got)
  sent_first (failed text) stream frames short id =
      let (buf, n, sent, got) =
        receive_frame-control cipher pool (nonces (length frames))
          (first_message (failed text) stream) refl id short (omega arith) in
      (take n buf, ap (λ r. queue_frame r frames) sent, got)

  received_first :
      (frame : Bytes) (m : TunnelMessage) (frames : List Bytes)
      → receive_frame cipher frame ≡ some m
      → Extends (frame ∷ []) frames
      → (rest : List TunnelMessage) × (received_of cipher frames ≡ m ∷ rest)
  unfolding received_of
  received_first frame m frames got (more, e) =
      (received_of cipher more, rw (e, got, received_of) refl)

  -- Whatever the target sends, and whether or not the rest can be sent.
  pub exit_answers :
      (d : Dialed) (reads : List (Option Bytes)) (meanwhile : StreamManager → StreamManager)
      (m : TunnelMessage) (sm : StreamManager)
      → IsShort d
      → m.stream_id < 4294967296
      → (rest : List TunnelMessage) × (received_of cipher
            (handle_incoming_connect (ws_send cipher pool nonces) d reads meanwhile m (sm, [])).1
          ≡ first_message d m.stream_id ∷ rest)
  unfolding handle_incoming_connect relayed
  exit_answers (failed text) reads meanwhile m sm short id =
      let (frame, sent, got) = sent_first (failed text) m.stream_id [] short id in
      received_first frame (error_message m.stream_id text) _ got ([], ap (λ x. x.0) sent)
  exit_answers connected reads meanwhile m sm short id =
      let (frame, sent, got) = sent_first connected m.stream_id [] short id in
      let frames = target_to_tunnel (ws_send cipher pool nonces) m.stream_id reads (frame ∷ []) in
      rw sent (
        received_first frame (bare_message msg_type_conn_ack m.stream_id) _ got (
          extended_twice (frame ∷ []) frames _
            (target_to_tunnel-Extends m.stream_id reads (frame ∷ []))
            (ws_send-Extends (bare_message msg_type_close m.stream_id) frames)))

  -- The exit answers a Connect in frames, encrypted where they carry data, and the source, whose
  -- stream is open with an empty channel, waits for an acknowledgement while their messages arrive in
  -- order, any number of them late. The stream's id is 32 bits, and the text of a dial error is at
  -- most 4096 bytes. For every interleaving, the wait decides by what its `select` finds first: by
  -- `CloseCh` or the timer there is no tunnel, and by the channel, whatever the target sends and
  -- whatever else happens at the exit, there is one if the target could be dialed, and none if not.
  pub handshake_agrees :
      (d : Dialed) (reads : List (Option Bytes)) (meanwhile : StreamManager → StreamManager)
      (m : TunnelMessage) (sm : StreamManager) (x : Stream) (es : List Wait)
      (later : List TunnelMessage)
      → IsShort d
      → m.stream_id < 4294967296
      → x.data_ch ≡ []
      → x.closed ≡ false
      → arrivals_of es ++ later
        ≡ received_of cipher
            (handle_incoming_connect (ws_send cipher pool nonces) d reads meanwhile m (sm, [])).1
      → wait_for_conn_ack (signals es (start x)) ≡ by_first (is_dialed d) (signals es (start x))
  handshake_agrees d reads meanwhile m sm x es later short id empty live arrive_so =
      let (rest, answers) = exit_answers d reads meanwhile m sm short id in
      signals_blank d m.stream_id es (start x) later rest (refl, live, empty) (arrive_so ∙ answers)
