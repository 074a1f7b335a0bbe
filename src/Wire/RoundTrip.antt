-- ===== src/Wire/RoundTrip.antt =====
-- tunnel.go: `MarshalTo` into any buffer that is long enough, then `UnmarshalBinary`.
use message_boy.Base.{
  ℕ, ◌+◌, ◌%◌, ◌≤◌, ◌<◌, ◌≡◌, refl, ap, [], ◌++◌, append_assoc, append-nil, arith, Bytes, le→ltb,
  length, take, length-append, take-append,
}
use message_boy.Wire.{
  TunnelMessage, bare_message, Shape, raw, dial, report, empty, shape, ok, header_size,
  max_payload_size, max_string_len, calc_payload_size, payload_size, put_uint32, overlay,
  string_size, marshal_to, decode_body, unmarshal_binary,
}
use message_boy.Wire.Layout.{
  string_bytes, header_bytes, body_bytes, length-string_bytes, length-header_bytes,
  write_header-overlay, write_body-overlay, take-overlay,
}
use message_boy.Wire.Strings.{
  uint32-put_uint32, read_string-string_bytes, rest_from-append, string_size-short,
}

-- The strings that the shape carries are within the protocol's limit.
abbrev pub StringsFit : Shape → TunnelMessage → Type 0
StringsFit raw m = Unit {0}
StringsFit dial m = (length m.target ≤ max_string_len) × (length m.rule_id ≤ max_string_len)
StringsFit report m = length m.error ≤ max_string_len
StringsFit empty m = Unit {0}

-- What a receiver sees: the fields that the shape carries; the others are empty.
abbrev pub wire_view : Shape → TunnelMessage → TunnelMessage
wire_view raw m = record (bare_message m.type m.stream_id) { payload = m.payload }
wire_view dial m = record (bare_message m.type m.stream_id) {
  target = m.target;
  rule_id = m.rule_id;
  payload = m.payload;
}
wire_view report m = record (bare_message m.type m.stream_id) { error = m.error }
wire_view empty m = bare_message m.type m.stream_id

-- What `MarshalTo` lays over the front of its buffer.
unfoldable pub frame : TunnelMessage → Bytes
frame m = header_bytes m (calc_payload_size m) ++ body_bytes (shape m.type) m

-- With room in the buffer and the payload within its limit, the frame is written.
pub marshal_to-frame :
    (m : TunnelMessage) (buf : Bytes)
    → calc_payload_size m ≤ max_payload_size
    → header_size + calc_payload_size m ≤ length buf
    → marshal_to m buf ≡ ok (overlay (frame m) buf, header_size + calc_payload_size m)
unfolding marshal_to frame
marshal_to-frame m buf fits room =
    rw (le→ltb _ _ room, le→ltb _ _ fits, write_header-overlay m (calc_payload_size m) buf)
      (rw (
        write_body-overlay (shape m.type) m (header_bytes m (calc_payload_size m)) buf
          (length-header_bytes m (calc_payload_size m))))

pub length-body_bytes :
    (k : Shape) (m : TunnelMessage) → StringsFit k m → length (body_bytes k m) ≡ payload_size k m
unfolding body_bytes payload_size
length-body_bytes raw m h = refl
length-body_bytes dial m h = omega (
  arith,
  length-append (string_bytes m.target) (string_bytes m.rule_id ++ m.payload),
  length-append (string_bytes m.rule_id) m.payload,
  length-string_bytes m.target,
  length-string_bytes m.rule_id,
  string_size-short m.target h.0,
  string_size-short m.rule_id h.1,
)
length-body_bytes report m h =
    omega (arith, length-string_bytes m.error, string_size-short m.error h)
length-body_bytes empty m h = refl

pub length-frame :
    (m : TunnelMessage)
    → StringsFit (shape m.type) m
    → length (frame m) ≡ header_size + calc_payload_size m
unfolding frame calc_payload_size
length-frame m h = omega (
  arith,
  length-append (header_bytes m (calc_payload_size m)) (body_bytes (shape m.type) m),
  length-header_bytes m (calc_payload_size m),
  length-body_bytes (shape m.type) m h,
)

-- The payload that the header announces is cut out and decoded.
pub unmarshal_binary-header :
    (m : TunnelMessage) (n : ℕ) (payload rest : Bytes)
    → m.stream_id < 4294967296
    → length payload ≡ n
    → n ≤ max_payload_size
    → unmarshal_binary (header_bytes m n ++ (payload ++ rest))
      ≡ ok (decode_body (shape m.type) m.type m.stream_id payload)
unfolding unmarshal_binary header_bytes put_uint32
unmarshal_binary-header m n payload rest hs e hn =
    let same : n % 4294967296 ≡ n = omega arith in
    let size = length-append payload rest in
    let whole : Bytes = header_bytes m n ++ (payload ++ rest) in
    rw same (
      rw (
        uint32-put_uint32 n (omega arith),
        uint32-put_uint32 m.stream_id hs,
        le→ltb _ _ hn,
        le→ltb (length whole) header_size (omega arith),
        le→ltb (length whole) (header_size + n) (omega arith),
        take-append n payload rest e,
      ))

decode_dial :
    (m : TunnelMessage)
    → StringsFit dial m
    → decode_body dial m.type m.stream_id (body_bytes dial m) ≡ wire_view dial m
unfolding decode_body body_bytes
decode_dial m h =
    let both : Bytes = string_bytes m.target ++ string_bytes m.rule_id in
    rw (read_string-string_bytes [] m.target (string_bytes m.rule_id ++ m.payload) 0 refl h.0) (
      rw (
        read_string-string_bytes (string_bytes m.target) m.rule_id m.payload
            (0 + string_size m.target) (omega (arith, length-string_bytes m.target)) h.1,
        ← append_assoc,
        rest_from-append both m.payload (0 + string_size m.target + string_size m.rule_id) (
            omega (
              arith,
              length-append (string_bytes m.target) (string_bytes m.rule_id),
              length-string_bytes m.target,
              length-string_bytes m.rule_id,
            )),
      ))

pub decode_body-body_bytes :
    (k : Shape) (m : TunnelMessage)
    → StringsFit k m
    → decode_body k m.type m.stream_id (body_bytes k m) ≡ wire_view k m
unfolding decode_body body_bytes
decode_body-body_bytes raw m h = refl
decode_body-body_bytes dial m h = decode_dial m h
decode_body-body_bytes report m h =
    rw (← append-nil (string_bytes m.error)) (rw (read_string-string_bytes [] m.error [] 0 refl h))
decode_body-body_bytes empty m h = refl

-- The frame, with whatever stands behind it, is decoded to the fields that its shape carries.
pub unmarshal_binary-frame :
    (m : TunnelMessage) (rest : Bytes)
    → m.stream_id < 4294967296
    → StringsFit (shape m.type) m
    → calc_payload_size m ≤ max_payload_size
    → unmarshal_binary (frame m ++ rest) ≡ ok (wire_view (shape m.type) m)
unfolding frame
unmarshal_binary-frame m rest hs hf hn =
    rw
      (
        append_assoc,
        unmarshal_binary-header m (calc_payload_size m) (body_bytes (shape m.type) m) rest hs body
            hn,
      )
      (ap ok (decode_body-body_bytes (shape m.type) m hf))
  where
    body : length (body_bytes (shape m.type) m) ≡ calc_payload_size m
    body = unfold calc_payload_size in length-body_bytes (shape m.type) m hf

-- What MarshalTo reports as written, followed by any bytes, decodes to the message as the wire
-- carries it: for every message whose stream id is 32 bits, whose strings are within 4096 bytes
-- and whose payload is within 64 KB, and every buffer with room, whatever it held before.
pub unmarshal_binary-marshal_to :
    (m : TunnelMessage) (buf rest : Bytes)
    → m.stream_id < 4294967296
    → StringsFit (shape m.type) m
    → calc_payload_size m ≤ max_payload_size
    → header_size + calc_payload_size m ≤ length buf
    → (buf' : Bytes) × (n : ℕ) × (marshal_to m buf ≡ ok (buf', n))
      × (unmarshal_binary (take n buf' ++ rest) ≡ ok (wire_view (shape m.type) m))
unmarshal_binary-marshal_to m buf rest hs hf hn room = (
  overlay (frame m) buf,
  header_size + calc_payload_size m,
  marshal_to-frame m buf hn room,
  rw (take-overlay (header_size + calc_payload_size m) (frame m) buf (length-frame m hf) room)
      (unmarshal_binary-frame m rest hs hf hn),
)
