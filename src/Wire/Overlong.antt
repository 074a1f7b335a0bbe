-- ===== src/Wire/Overlong.antt =====
-- tunnel.go: a target beyond 4096 bytes. `calcPayloadSize` counts it whole and `writeString` cuts it
-- short, so the announced payload ends in bytes of the buffer that nothing has written.
use mathlib.Core.Path.{subst}
use message_boy.Base.{
  ℕ, suc, ◌+◌, ◌-◌, ◌≤◌, ◌<◌, min, ◌≡◌, refl, sym, ap, ◌∙◌, [], ◌∷◌, ◌++◌, append_assoc, append-nil,
  arith, Bytes, length, take, drop, length-append, length-take, length-drop, take_all,
}
use message_boy.Wire.{
  TunnelMessage, shape, dial, ok, header_size, max_payload_size, max_string_len, calc_payload_size,
  payload_size, overlay, string_size, marshal_to, unmarshal_binary,
}
use message_boy.Wire.Layout.{
  string_bytes, header_bytes, body_bytes, length-string_bytes, length-header_bytes, overlay-append,
}
use message_boy.Wire.RoundTrip.{
  StringsFit, frame, wire_view, marshal_to-frame, unmarshal_binary-frame,
}

-- The message that is really sent, with the bytes that the buffer still held.
abbrev pub leaked : TunnelMessage → Bytes → TunnelMessage
leaked m stale = record m { target = take max_string_len m.target; payload = m.payload ++ stale }

string_bytes-take :
    (s : Bytes) → max_string_len < length s → string_bytes s ≡ string_bytes (take max_string_len s)
unfolding string_bytes
string_bytes-take s h =
    let cut : length (take max_string_len s) ≡ max_string_len =
      omega (arith, length-take max_string_len s) in
    let exact : min (length s) max_string_len ≡ max_string_len = omega arith in
    rw (cut, exact) (rw (take_all max_string_len (take max_string_len s) (omega arith)))

dial_size :
    (m : TunnelMessage)
    → shape m.type ≡ dial
    → calc_payload_size m ≡ 2 + length m.target + 2 + length m.rule_id + length m.payload
unfolding calc_payload_size payload_size
dial_size m k = rw k

dial_frame :
    (m : TunnelMessage)
    → shape m.type ≡ dial
    → frame m
      ≡ header_bytes m (calc_payload_size m)
        ++ (string_bytes m.target ++ (string_bytes m.rule_id ++ m.payload))
unfolding frame body_bytes
dial_frame m k = rw k

header_bytes-leaked :
    (m : TunnelMessage) (stale : Bytes) (n : ℕ) → header_bytes (leaked m stale) n ≡ header_bytes m n
unfolding header_bytes
header_bytes-leaked m stale n = refl

size-leaked :
    (m : TunnelMessage) (stale : Bytes)
    → shape m.type ≡ dial
    → max_string_len < length m.target
    → length stale ≡ length m.target - max_string_len
    → calc_payload_size (leaked m stale) ≡ calc_payload_size m
size-leaked m stale k long e = omega (
  arith,
  dial_size m k,
  dial_size (leaked m stale) k,
  length-take max_string_len m.target,
  length-append m.payload stale,
)

frame-leaked :
    (m : TunnelMessage) (stale : Bytes)
    → shape m.type ≡ dial
    → max_string_len < length m.target
    → length stale ≡ length m.target - max_string_len
    → frame m ++ stale ≡ frame (leaked m stale)
frame-leaked m stale k long e =
    rw
      (
        dial_frame m k,
        dial_frame (leaked m stale) k,
        size-leaked m stale k long e,
        header_bytes-leaked m stale (calc_payload_size m),
        string_bytes-take m.target long,
      )
      (simp append_assoc)

length-frame_cut :
    (m : TunnelMessage)
    → shape m.type ≡ dial
    → max_string_len < length m.target
    → length m.rule_id ≤ max_string_len
    → length (frame m) + (length m.target - max_string_len) ≡ header_size + calc_payload_size m
unfolding string_size
length-frame_cut m k long rule = omega (
  arith,
  ap length (dial_frame m k),
  dial_size m k,
  length-append (header_bytes m (calc_payload_size m))
      (string_bytes m.target ++ (string_bytes m.rule_id ++ m.payload)),
  length-append (string_bytes m.target) (string_bytes m.rule_id ++ m.payload),
  length-append (string_bytes m.rule_id) m.payload,
  length-header_bytes m (calc_payload_size m),
  length-string_bytes m.target,
  length-string_bytes m.rule_id,
)

take-append_more : (xs ys : Bytes) (k : ℕ) → take (length xs + k) (xs ++ ys) ≡ xs ++ take k ys
take-append_more [] ys k = let e : 0 + k ≡ k = omega arith in rw e
take-append_more (x ∷ xs) ys k =
    let e : suc (length xs) + k ≡ suc (length xs + k) = omega arith in
    rw e (ap (λ t. x ∷ t) (take-append_more xs ys k))

unmarshal_binary-dial :
    (m : TunnelMessage)
    → shape m.type ≡ dial
    → m.stream_id < 4294967296
    → StringsFit dial m
    → calc_payload_size m ≤ max_payload_size
    → unmarshal_binary (frame m) ≡ ok (wire_view dial m)
unmarshal_binary-dial m k hs hf hn = rw (← append-nil (frame m)) (
    subst (λ j. unmarshal_binary (frame m ++ []) ≡ ok (wire_view j m)) k
      (unmarshal_binary-frame m [] hs (subst (λ j. StringsFit j m) (sym k) hf) hn))

-- A Connect or CheckPort whose target is longer than 4096 bytes, its rule id within the limit, its
-- stream id 32 bits and its size within 64 KB, is marshalled without an error, and what the receiver
-- decodes has the first 4096 bytes of the target, and a payload with as many bytes of the buffer's
-- old contents behind it as the target was cut by.
pub unmarshal_binary_overlong :
    (m : TunnelMessage) (buf : Bytes)
    → shape m.type ≡ dial
    → m.stream_id < 4294967296
    → max_string_len < length m.target
    → length m.rule_id ≤ max_string_len
    → calc_payload_size m ≤ max_payload_size
    → header_size + calc_payload_size m ≤ length buf
    → (buf' : Bytes) × (n : ℕ) × (marshal_to m buf ≡ ok (buf', n))
      × (unmarshal_binary (take n buf')
          ≡ ok (
              wire_view dial
                (leaked m (take (length m.target - max_string_len) (drop (length (frame m)) buf)))))
unmarshal_binary_overlong m buf k hs long rule fits room = (
  overlay (frame m) buf,
  header_size + calc_payload_size m,
  marshal_to-frame m buf fits room,
  rw sent (
      unmarshal_binary-dial (leaked m stale) k hs
        (omega (arith, length-take max_string_len m.target), rule)
        (omega (arith, size-leaked m stale k long length-stale))),
)
  where
    stale : Bytes
    stale = take (length m.target - max_string_len) (drop (length (frame m)) buf)

    length-stale : length stale ≡ length m.target - max_string_len
    length-stale = omega (
      arith,
      length-take (length m.target - max_string_len) (drop (length (frame m)) buf),
      length-drop (length (frame m)) buf,
      length-frame_cut m k long rule,
    )

    sent : take (header_size + calc_payload_size m) (overlay (frame m) buf) ≡ frame (leaked m stale)
    sent =
        rw
          (
            ← length-frame_cut m k long rule,
            overlay-append (frame m) buf (omega (arith, length-frame_cut m k long rule)),
          )
          (take-append_more (frame m) (drop (length (frame m)) buf)
              (length m.target - max_string_len)
            ∙ frame-leaked m stale k long length-stale)
