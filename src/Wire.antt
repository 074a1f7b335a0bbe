-- ===== src/Wire.antt =====
-- internal/relay/tunnel.go: the tunnel's messages and their binary form. A Go slice expression
-- `buf[n:]` is `with_tail n`; the size test of `MarshalTo` is what keeps every slice in range.
pub mod Layout
pub mod Strings
pub mod RoundTrip
pub mod Bounds
pub mod Pool
pub mod Overlong
pub mod Ids
mod Tests
use message_boy.Base.{
  ℕ, zero, suc, ◌+◌, ◌-◌, ◌/◌, ◌%◌, ◌*◌, min, [], ◌∷◌, Bytes, ltb, ◌==◌, if◌then◌else◌, ◌||◌,
  length, get_or, take, drop,
}

abbrev pub msg_type_connect : ℕ
msg_type_connect = 1

abbrev pub msg_type_conn_ack : ℕ
msg_type_conn_ack = 2

abbrev pub msg_type_data : ℕ
msg_type_data = 3

abbrev pub msg_type_close : ℕ
msg_type_close = 4

abbrev pub msg_type_error : ℕ
msg_type_error = 5

abbrev pub msg_type_rule_update : ℕ
msg_type_rule_update = 6

abbrev pub msg_type_check_port : ℕ
msg_type_check_port = 7

abbrev pub msg_type_check_port_result : ℕ
msg_type_check_port_result = 8

-- Type(1) + StreamID(4) + PayloadLen(4)
abbrev pub header_size : ℕ
header_size = 9

abbrev pub max_payload_size : ℕ
max_payload_size = 65536

abbrev pub max_string_len : ℕ
max_string_len = 4096

abbrev pub small_buf_size : ℕ
small_buf_size = 4096

abbrev pub medium_buf_size : ℕ
medium_buf_size = 16384

abbrev pub large_buf_size : ℕ
large_buf_size = 65536

pub data WireError : Type 0 where
  invalid_header payload_too_large invalid_payload buffer_too_small : WireError

pub data Result {ℓ} (A : Type ℓ) : Type ℓ where
  ok : A → Result A
  err : WireError → Result A

pub record TunnelMessage : Type 0 where
  pub type : ℕ
  pub stream_id : ℕ
  pub target : Bytes
  pub payload : Bytes
  pub error : Bytes
  pub rule_id : Bytes

-- A message whose fields but the type and the stream are Go's zero values.
abbrev pub bare_message : ℕ → ℕ → TunnelMessage
bare_message t s = record {
  type = t;
  stream_id = s;
  target = [];
  payload = [];
  error = [];
  rule_id = [];
}

-- The groups of the three `switch` statements over the type.
pub data Shape : Type 0 where
  raw dial report empty : Shape

unfoldable pub shape : ℕ → Shape
shape t =
    if t == msg_type_data
    then raw
    else if t == msg_type_connect || t == msg_type_check_port
    then dial
    else if t == msg_type_error || t == msg_type_check_port_result
    then report
    else empty

unfoldable pub payload_size : Shape → TunnelMessage → ℕ
payload_size raw m = length m.payload
payload_size dial m = 2 + length m.target + 2 + length m.rule_id + length m.payload
payload_size report m = 2 + length m.error
payload_size empty m = 0

unfoldable pub calc_payload_size : TunnelMessage → ℕ
unfolding payload_size
calc_payload_size m = payload_size (shape m.type) m

-- The length of the buffer that comes from the pool for a payload of this size.
unfoldable pub buffer_for_size : ℕ → ℕ
buffer_for_size n =
    if ltb (small_buf_size + header_size) (n + header_size)
    then (if ltb (medium_buf_size + header_size) (n + header_size)
        then large_buf_size + header_size
        else medium_buf_size + header_size)
    else small_buf_size + header_size

-- The pool that takes a buffer of this capacity back, by the length of its buffers.
pub put_buffer : ℕ → ℕ
put_buffer c =
    if ltb c (large_buf_size + header_size)
    then (if ltb c (medium_buf_size + header_size)
        then (if ltb c (small_buf_size + header_size) then 0 else small_buf_size + header_size)
        else medium_buf_size + header_size)
    else large_buf_size + header_size

pub put_uint16 : ℕ → Bytes
put_uint16 n = n / 256 % 256 ∷ n % 256 ∷ []

pub put_uint32 : ℕ → Bytes
put_uint32 n = n / 16777216 % 256 ∷ n / 65536 % 256 ∷ n / 256 % 256 ∷ n % 256 ∷ []

pub uint16 : Bytes → ℕ
uint16 (a ∷ b ∷ s) = a * 256 + b
uint16 _ = 0

pub uint32 : Bytes → ℕ
uint32 (a ∷ b ∷ c ∷ d ∷ s) = a * 16777216 + b * 65536 + c * 256 + d
uint32 _ = 0

-- Go's `copy(buf, xs)`: what `buf` holds afterwards.
pub overlay : Bytes → Bytes → Bytes
overlay [] buf = buf
overlay (x ∷ xs) [] = []
overlay (x ∷ xs) (b ∷ buf) = x ∷ overlay xs buf

-- A write through the slice `buf[n:]`.
pub with_tail : ℕ → (Bytes → Bytes) → Bytes → Bytes
with_tail zero f buf = f buf
with_tail (suc n) f [] = []
with_tail (suc n) f (b ∷ buf) = b ∷ with_tail n f buf

-- What `writeString` writes at the front of `buf`.
pub write_string : Bytes → Bytes → Bytes
write_string s buf =
    let l = min (length s) max_string_len in
    with_tail 2 (overlay (take l s)) (overlay (put_uint16 (l % 65536)) buf)

-- How many bytes `writeString` reports.
pub string_size : Bytes → ℕ
string_size s = 2 + min (length s) max_string_len

pub write_header : TunnelMessage → ℕ → Bytes → Bytes
write_header m size buf =
    with_tail 5 (overlay (put_uint32 (size % 4294967296)))
      (with_tail 1 (overlay (put_uint32 m.stream_id)) (overlay (m.type ∷ []) buf))

pub write_body : Shape → TunnelMessage → Bytes → Bytes
write_body raw m buf = with_tail header_size (overlay m.payload) buf
write_body dial m buf =
    let after_target = header_size + string_size m.target in
    let after_rule = after_target + string_size m.rule_id in
    with_tail after_rule (overlay m.payload) (
      with_tail after_target (write_string m.rule_id)
        (with_tail header_size (write_string m.target) buf))
write_body report m buf = with_tail header_size (write_string m.error) buf
write_body empty m buf = buf

-- The buffer afterwards, and the number of bytes written.
pub marshal_to : TunnelMessage → Bytes → Result (Bytes × ℕ)
marshal_to m buf =
    let size = calc_payload_size m in
    let total = header_size + size in
    if ltb (length buf) total
    then err buffer_too_small
    else if ltb max_payload_size size
    then err payload_too_large
    else ok (write_body (shape m.type) m (write_header m size buf), total)

-- The string at the offset, and the offset behind it.
pub read_string : Bytes → ℕ → Bytes × ℕ
read_string bytes offset =
    if ltb (length bytes) (offset + 2)
    then ([], offset)
    else let l = uint16 (take 2 (drop offset bytes)) in
      let start = offset + 2 in
      let n = if ltb (length bytes) (start + l) then length bytes - start else l in
      (take n (drop start bytes), start + n)

-- `payload[offset:]` where some of it is left, nil otherwise.
pub rest_from : Bytes → ℕ → Bytes
rest_from payload offset = if ltb offset (length payload) then drop offset payload else []

pub decode_body : Shape → ℕ → ℕ → Bytes → TunnelMessage
decode_body raw t s payload = record (bare_message t s) { payload = payload }
decode_body dial t s payload =
    let (target, offset) = read_string payload 0 in
    let (rule, offset') = read_string payload offset in
    record (bare_message t s) {
      target = target;
      rule_id = rule;
      payload = rest_from payload offset';
    }
decode_body report t s payload = record (bare_message t s) { error = (read_string payload 0).0 }
decode_body empty t s payload = bare_message t s

pub unmarshal_binary : Bytes → Result TunnelMessage
unmarshal_binary bytes =
    let t = get_or bytes 0 0 in
    let s = uint32 (take 4 (drop 1 bytes)) in
    let payload_len = uint32 (take 4 (drop 5 bytes)) in
    let payload = take payload_len (drop header_size bytes) in
    if ltb (length bytes) header_size
    then err invalid_header
    else if ltb max_payload_size payload_len
    then err payload_too_large
    else if ltb (length bytes) (header_size + payload_len)
    then err invalid_payload
    else ok (decode_body (shape t) t s payload)
