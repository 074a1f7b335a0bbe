-- ===== src/Wire/Tests.antt =====
-- The codec's theorems at small messages.
use message_boy.Base.{
  ℕ, ◌+◌, ◌-◌, ◌≤◌, ◌<◌, ◌≡◌, refl, [], ◌∷◌, ◌++◌, arith, Bytes, codes, length, take, drop,
  replicate, length-replicate,
}
use message_boy.Wire.{
  TunnelMessage, bare_message, ok, err, invalid_header, invalid_payload, dial, shape,
  msg_type_connect, msg_type_data, header_size, max_payload_size, max_string_len, calc_payload_size,
  payload_size, overlay, marshal_to, unmarshal_binary, write_body, with_tail, write_header,
  put_uint32,
}
use message_boy.Wire.Layout.{header_bytes, body_bytes}
use message_boy.Wire.RoundTrip.{wire_view, frame, unmarshal_binary-marshal_to}
use message_boy.Wire.Bounds.{marshal_to_bounds, unmarshal_binary_truncated}
use message_boy.Wire.Pool.{BufferPool}
use message_boy.Wire.Overlong.{leaked, unmarshal_binary_overlong}

abbrev pub hello : TunnelMessage
hello = record (bare_message msg_type_data 7) { payload = codes "hi" }

abbrev pub call : TunnelMessage
call = record (bare_message msg_type_connect 7) {
  target = codes "a:80";
  rule_id = codes "r1";
  payload = codes "bob";
}

abbrev pub buffer : Bytes
buffer = replicate 30 0

abbrev pub zeros : BufferPool
zeros = record { get = λ n. replicate n 0; length-get = λ n. length-replicate n 0 }

unmarshal_binary-marshal_to_example :
    (buf' : Bytes) × (n : ℕ) × (marshal_to call buffer ≡ ok (buf', n))
    × (unmarshal_binary (take n buf' ++ []) ≡ ok (wire_view (shape call.type) call))
unfolding calc_payload_size payload_size shape
unmarshal_binary-marshal_to_example =
    unmarshal_binary-marshal_to call buffer [] (omega arith) (omega arith, omega arith)
      (omega arith) (omega arith)

abbrev written : Bytes
written = 3 ∷ 0 ∷ 0 ∷ 0 ∷ 7 ∷ 0 ∷ 0 ∷ 0 ∷ 2 ∷ 104 ∷ 105 ∷ replicate 19 0

marshal_to_bounds_example :
    (11 ≤ header_size + max_payload_size)
    × (11 ≤ length buffer)
    × (length written ≡ length buffer)
    × (drop 11 written ≡ drop 11 buffer)
unfolding marshal_to calc_payload_size shape write_body with_tail write_header overlay put_uint32
marshal_to_bounds_example = marshal_to_bounds hello buffer written 11 refl

unmarshal_binary_truncated_example :
    (10 < header_size → unmarshal_binary (take 10 (frame hello)) ≡ err invalid_header)
    × (header_size ≤ 10 → unmarshal_binary (take 10 (frame hello)) ≡ err invalid_payload)
unfolding calc_payload_size payload_size shape frame header_bytes put_uint32 body_bytes
unmarshal_binary_truncated_example =
    unmarshal_binary_truncated hello 10 tt (omega arith) (omega arith)

abbrev long_call : TunnelMessage
long_call = record (bare_message msg_type_connect 7) { target = replicate 4097 97 }

abbrev stale : Bytes
stale = replicate 5000 255

unmarshal_binary_overlong_example :
    (buf' : Bytes) × (n : ℕ) × (marshal_to long_call stale ≡ ok (buf', n))
    × (unmarshal_binary (take n buf')
        ≡ ok (
            wire_view dial (
              leaked long_call (
                take
                  (length long_call.target - max_string_len)
                  (drop (length (frame long_call)) stale)))))
unfolding calc_payload_size payload_size shape
unmarshal_binary_overlong_example =
    let size = length-replicate {A = ℕ} 4097 97 in
    let room = length-replicate {A = ℕ} 5000 255 in
    unmarshal_binary_overlong long_call stale refl (omega arith) (omega arith) (omega arith)
      (omega arith) (omega arith)
