-- ===== src/Tunnel/Forwarding.antt =====
-- relay_forwarder.go, forwardToTunnel, with the far end of the stream: bytes that are read from one TCP
-- connection reach the other.
use message_boy.Base.{
  ℕ, ◌+◌, ◌≤◌, ◌<◌, ◌≡◌, refl, sym, ap, ◌∙◌, arith, Bool, true, false, List, [], ◌∷◌, ◌++◌,
  append-nil, append_assoc, Option, none, some, Bytes, lt→ltb, if◌then◌else◌, length, length-append,
  take, map, All, if_elim,
}
use message_boy.Wire.Pool.{BufferPool}
use message_boy.Conn.Sealing.{Cipher, nonce_size, tag_size, send_frame, receive_frame}
use message_boy.Wire.{TunnelMessage, Result, ok, err, max_payload_size}
use message_boy.Conn.EndToEnd.{data_message, receive_frame-send_frame}
use message_boy.Stream.{Stream, write_stream, data_ch_cap}
use message_boy.Traffic.Counter.{TrafficCounter, add_bytes_out}
use message_boy.Tunnel.Flow.{
  write_or_close, on_message, Flow, Event, arrive, take_data, take_close, close_here, arrived,
  taken, step, run, start,
}

-- The loop over what `Read` answers, where `none` is an error. `send` is `Send` of the connection; the
-- bytes are counted before they are sent.
unfoldable pub forward_to_tunnel :
    {S : Type 0}
    → (TunnelMessage → S → S × Bool)
    → Bytes
    → ℕ
    → List (Option Bytes)
    → TrafficCounter × S
    → TrafficCounter × S
forward_to_tunnel send rule stream [] (tc, s) = (tc, s)
forward_to_tunnel send rule stream (none ∷ reads) (tc, s) = (tc, s)
forward_to_tunnel send rule stream (some bytes ∷ reads) (tc, s) =
    let (s', sent) = send (data_message stream bytes) s in
    let tc' = add_bytes_out rule (length bytes) tc in
    let rest = forward_to_tunnel send rule stream reads (tc', s') in
    if sent then rest else (tc', s')

unfoldable pub queue_frame : Result (Bytes × ℕ) → List Bytes → List Bytes × Bool
queue_frame (err e) frames = (frames, false)
queue_frame (ok (buf, n)) frames = (frames ++ take n buf ∷ [], true)

module _ (cipher : Cipher) (pool : BufferPool) (nonces : ℕ → Bytes) where
  -- `Send` on a connection that is open, for the frames that were queued so far; where the queue is full
  -- it waits. The nonces are one for each frame.
  unfoldable pub ws_send : TunnelMessage → List Bytes → List Bytes × Bool
  unfolding send_frame queue_frame
  ws_send m frames = queue_frame (send_frame cipher pool (nonces (length frames)) m) frames

-- What `readPump` hands on of the frames.
abbrev handed : Option TunnelMessage → List TunnelMessage → List TunnelMessage
handed none ms = ms
handed (some m) ms = m ∷ ms

unfoldable pub received_of : Cipher → List Bytes → List TunnelMessage
received_of cipher [] = []
received_of cipher (frame ∷ frames) =
    handed (receive_frame cipher frame) (received_of cipher frames)

handed-append :
    (o : Option TunnelMessage) (xs ys : List TunnelMessage)
    → handed o (xs ++ ys) ≡ handed o xs ++ ys
handed-append none xs ys = refl
handed-append (some m) xs ys = refl

-- Chunks that fit into a frame once they are encrypted.
abbrev pub IsSendable : Bytes → Type 0
IsSendable text = (0 < length text) × (length text + nonce_size + tag_size ≤ max_payload_size)

pub received_of-append :
    (cipher : Cipher) (xs ys : List Bytes)
    → received_of cipher (xs ++ ys) ≡ received_of cipher xs ++ received_of cipher ys
unfolding received_of
received_of-append cipher [] ys = refl
received_of-append cipher (x ∷ xs) ys =
    ap (handed (receive_frame cipher x)) (received_of-append cipher xs ys)
    ∙ handed-append (receive_frame cipher x) (received_of cipher xs) (received_of cipher ys)

module _ (cipher : Cipher) (pool : BufferPool) (nonces : ℕ → Bytes) where
  -- One chunk is sent and is received as it was.
  sent_one :
      (stream : ℕ) (text : Bytes) (frames : List Bytes)
      → ((i : ℕ) → length (nonces i) ≡ nonce_size)
      → stream < 4294967296
      → IsSendable text
      → (frame : Bytes) × (ws_send cipher pool nonces (data_message stream text) frames
          ≡ (frames ++ frame ∷ [], true))
        × (receive_frame cipher frame ≡ some (data_message stream text))
  unfolding ws_send queue_frame
  sent_one stream text frames twelve id (pos, fits) =
      let (buf, n, sent, got) =
        receive_frame-send_frame cipher pool (nonces (length frames)) text stream
          (twelve (length frames)) id pos fits in
      (take n buf, ap (λ r. queue_frame r frames) sent, got)

  pub forwarded :
      (rule : Bytes) (stream : ℕ) (chunks : List Bytes) (tc : TrafficCounter) (frames : List Bytes)
      → ((i : ℕ) → length (nonces i) ≡ nonce_size)
      → stream < 4294967296
      → All IsSendable chunks
      → received_of cipher
          (forward_to_tunnel
            (ws_send cipher pool nonces)
            rule
            stream
            (map some chunks)
            (tc, frames)).1
        ≡ received_of cipher frames ++ map (data_message stream) chunks
  unfolding forward_to_tunnel received_of
  forwarded rule stream [] tc frames twelve id all = sym (append-nil (received_of cipher frames))
  forwarded rule stream (text ∷ chunks) tc frames twelve id all =
      let (frame, sent, got) = sent_one stream text frames twelve id all.0 in
      let one : received_of cipher (frame ∷ []) ≡ data_message stream text ∷ [] =
        rw (got, received_of) refl in
      rw sent (
        forwarded rule stream chunks (add_bytes_out rule (length text) tc) (frames ++ frame ∷ [])
          twelve id all.1
        ∙ ap (λ l. l ++ map (data_message stream) chunks)
            (received_of-append cipher frames (frame ∷ [])
              ∙ ap (λ l. received_of cipher frames ++ l) one)
        ∙ append_assoc (received_of cipher frames) (data_message stream text ∷ [])
            (map (data_message stream) chunks))

-- The messages of a schedule, in their order.
abbrev pub messages_of : List Event → List TunnelMessage
messages_of [] = []
messages_of (arrive m ∷ es) = m ∷ messages_of es
messages_of (take_data written ∷ es) = messages_of es
messages_of (take_close ∷ es) = messages_of es
messages_of (close_here ∷ es) = messages_of es

-- The loop takes data as it likes, its writes succeed, and nothing closes the stream from this side.
abbrev pub IsSmooth : Event → Type 0
IsSmooth (arrive m) = Unit
IsSmooth (take_data written) = written ≡ true
IsSmooth take_close = ⊥
IsSmooth close_here = ⊥

-- A stream that takes everything.
abbrev IsOpen : Flow → Type 0
IsOpen f = (f.registered ≡ true) × (f.stream.closed ≡ false) × (f.running ≡ true)

-- What has come of the stream's data so far.
abbrev came : Flow → List Bytes
came f = f.delivered ++ f.stream.data_ch

arrived_open :
    (stream : ℕ) (bytes : Bytes) (f : Flow)
    → IsOpen f
    → length f.stream.data_ch < data_ch_cap
    → arrived (data_message stream bytes) f
      ≡ record f { stream = record f.stream { data_ch = f.stream.data_ch ++ bytes ∷ [] } }
unfolding arrived on_message write_or_close write_stream
arrived_open stream bytes f (here, live, on) room =
    let fits = lt→ltb (length f.stream.data_ch) data_ch_cap room in ground arith

came-taken :
    (c : List Bytes) (f : Flow)
    → f.stream.data_ch ≡ c
    → IsOpen f
    → (came (taken true c f) ≡ came f)
      × IsOpen (taken true c f)
      × (length (taken true c f).stream.data_ch ≤ length f.stream.data_ch)
unfolding taken
came-taken [] f e on = (refl, on, omega arith)
came-taken (b ∷ c) f e (here, live, on) = (
  append_assoc f.delivered (b ∷ []) c ∙ ap (λ l. f.delivered ++ l) (sym e),
  (here, live, on),
  rw e (omega arith),
)

-- Nothing is lost between the channel and the connection.
abbrev Carries : Flow → Flow → Type 0
Carries f g = (came g ≡ came f) × IsOpen g × (length g.stream.data_ch ≤ length f.stream.data_ch)

took :
    (written : Bool) (f : Flow) → written ≡ true → IsOpen f → Carries f (step (take_data written) f)
unfolding step
took written f same on =
    if_elim (Carries f) f.running _ f (λ live. rw same (came-taken f.stream.data_ch f refl on))
      (λ off. absurd (cc (on.2)))

carried :
    (stream : ℕ) (chunks : List Bytes) (es : List Event) (f : Flow)
    → All IsSmooth es
    → messages_of es ≡ map (data_message stream) chunks
    → IsOpen f
    → length f.stream.data_ch + length chunks ≤ data_ch_cap
    → came (run es f) ≡ came f ++ chunks
unfolding run
carried stream [] [] f smooth msgs on fits = sym (append-nil (came f))
carried stream (text ∷ chunks) [] f smooth msgs on fits = absurd (cc msgs)
carried stream [] (arrive m ∷ es) f smooth msgs on fits = absurd (cc msgs)
carried stream (text ∷ chunks) (arrive m ∷ es) f smooth msgs on fits =
    let f' = record f { stream = record f.stream { data_ch = f.stream.data_ch ++ text ∷ [] } } in
    let same : m ≡ data_message stream text = cc msgs in
    let rest : messages_of es ≡ map (data_message stream) chunks = cc msgs in
    let grown = length-append f.stream.data_ch (text ∷ []) in
    ap (λ x. came (run es x))
      (ap (λ x. step (arrive x) f) same
        ∙ unfold step in arrived_open stream text f on (omega arith))
    ∙ carried stream chunks es f' smooth.1 rest on (omega arith)
    ∙ ap (λ l. l ++ chunks) (sym (append_assoc f.delivered f.stream.data_ch (text ∷ [])))
    ∙ append_assoc (came f) (text ∷ []) chunks
carried stream chunks (take_data written ∷ es) f smooth msgs on fits =
    let (same, on', less) = took written f smooth.0 on in
    carried stream chunks es (step (take_data written) f) smooth.1 msgs on' (omega arith)
    ∙ ap (λ l. l ++ chunks) same
carried stream chunks (take_close ∷ es) f smooth msgs on fits = absurd smooth.0
carried stream chunks (close_here ∷ es) f smooth msgs on fits = absurd smooth.0

-- What `forwardToTunnel` reads from one TCP connection, in chunks of at most 65508 bytes, none empty,
-- and at most 1024 of them, is encrypted under nonces of 12 bytes, marshalled and queued as frames,
-- for a stream whose id is 32 bits. At the other end the stream is open and its channel empty. For
-- every interleaving there, in which the messages of these frames arrive in their order while
-- `forwardFromTunnel` takes from the channel as it likes, its writes succeed and the stream is not
-- closed, what was written to the other TCP connection and what still waits in the channel are
-- together these chunks, in order.
pub tunnel_carries :
    (cipher : Cipher) (pool : BufferPool) (nonces : ℕ → Bytes) (rule : Bytes) (stream : ℕ)
    (chunks : List Bytes) (tc : TrafficCounter) (x : Stream) (es : List Event)
    → ((i : ℕ) → length (nonces i) ≡ nonce_size)
    → stream < 4294967296
    → All IsSendable chunks
    → length chunks ≤ data_ch_cap
    → x.data_ch ≡ []
    → x.closed ≡ false
    → All IsSmooth es
    → messages_of es
      ≡ received_of cipher
          (forward_to_tunnel (ws_send cipher pool nonces) rule stream (map some chunks) (tc, [])).1
    → (run es (start x)).delivered ++ (run es (start x)).stream.data_ch ≡ chunks
unfolding received_of
tunnel_carries cipher pool nonces rule stream chunks tc x es twelve id all fits empty live smooth
      arrive_so =
    let blank = ap length empty in
    carried stream chunks es (start x) smooth
      (arrive_so ∙ forwarded cipher pool nonces rule stream chunks tc [] twelve id all)
      (refl, live, refl) (omega arith)
    ∙ ap (λ l. l ++ chunks) empty
