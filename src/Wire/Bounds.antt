-- ===== src/Wire/Bounds.antt =====
-- tunnel.go: what `MarshalTo` leaves alone, and what `UnmarshalBinary` accepts.
use message_boy.Base.{
  ℕ, zero, suc, ◌+◌, ◌-◌, ◌%◌, ◌≤◌, ◌<◌, ◌≡◌, refl, ap, ◌∙◌, [], ◌∷◌, ◌++◌, arith, Bytes, lt→ltb,
  le→ltb, length, take, drop, length-append, length-take,
}
use message_boy.Wire.{
  TunnelMessage, Shape, raw, dial, report, empty, shape, ok, err, buffer_too_small, invalid_header,
  invalid_payload, header_size, max_payload_size, calc_payload_size, payload_size, put_uint32,
  overlay, string_size, marshal_to, unmarshal_binary,
}
use message_boy.Wire.Layout.{
  string_bytes, header_bytes, body_bytes, length-string_bytes, length-header_bytes,
}
use message_boy.Wire.RoundTrip.{StringsFit, frame, marshal_to-frame, length-frame}
use message_boy.Wire.Strings.{uint32-put_uint32}

length-overlay : (xs buf : Bytes) → length (overlay xs buf) ≡ length buf
unfolding overlay
length-overlay [] buf = refl
length-overlay (x ∷ xs) [] = refl
length-overlay (x ∷ xs) (b ∷ buf) = ap suc (length-overlay xs buf)

drop-overlay : (n : ℕ) (xs buf : Bytes) → length xs ≤ n → drop n (overlay xs buf) ≡ drop n buf
unfolding overlay
drop-overlay n [] buf h = refl
drop-overlay zero (x ∷ xs) buf h = absurd (omega arith)
drop-overlay (suc n) (x ∷ xs) [] h = refl
drop-overlay (suc n) (x ∷ xs) (b ∷ buf) h = drop-overlay n xs buf (omega arith)

string_size-le : (s : Bytes) → string_size s ≤ 2 + length s
unfolding string_size
string_size-le s = omega arith

-- The frame never outgrows the size that is announced, also where a string is cut short.
pub length-frame-le : (m : TunnelMessage) → length (frame m) ≤ header_size + calc_payload_size m
unfolding frame calc_payload_size body_bytes
length-frame-le m = omega (
  arith,
  length-append (header_bytes m (calc_payload_size m)) (body_bytes (shape m.type) m),
  length-header_bytes m (calc_payload_size m),
  body (shape m.type),
)
  where
    body : (k : Shape) → length (body_bytes k m) ≤ payload_size k m
    body raw = omega arith
    body dial = omega (
      arith,
      length-append (string_bytes m.target) (string_bytes m.rule_id ++ m.payload),
      length-append (string_bytes m.rule_id) m.payload,
      length-string_bytes m.target,
      length-string_bytes m.rule_id,
      string_size-le m.target,
      string_size-le m.rule_id,
    )
    body report = omega (arith, length-string_bytes m.error, string_size-le m.error)
    body empty = omega arith

-- Success means that both tests were passed.
marshal_to-eq-ok :
    (m : TunnelMessage) (buf : Bytes) {r : Bytes × ℕ}
    → marshal_to m buf ≡ ok r
    → (calc_payload_size m ≤ max_payload_size)
      × (header_size + calc_payload_size m ≤ length buf)
      × (r ≡ (overlay (frame m) buf, header_size + calc_payload_size m))
marshal_to-eq-ok m buf {r} h =
    let passed = tests h in
    (passed.0, passed.1, ground (arith, marshal_to-frame m buf passed.0 passed.1))
  where
    tests :
        marshal_to m buf ≡ ok r
        → (calc_payload_size m ≤ max_payload_size)
          × (header_size + calc_payload_size m ≤ length buf)
    tests e = unfold marshal_to in (ground arith)

-- MarshalTo into any buffer: if it succeeds it reports at most the 9 bytes of the header and 64 KB,
-- all of them inside the buffer, the buffer keeps its length, and no byte of it behind the reported
-- ones has changed; this holds for every message, overlong strings included.
pub marshal_to_bounds :
    (m : TunnelMessage) (buf buf' : Bytes) (n : ℕ)
    → marshal_to m buf ≡ ok (buf', n)
    → (n ≤ header_size + max_payload_size)
      × (n ≤ length buf)
      × (length buf' ≡ length buf)
      × (drop n buf' ≡ drop n buf)
marshal_to_bounds m buf buf' n h =
    let (fits, room, e) = marshal_to-eq-ok m buf h in
    let e₀ : buf' ≡ overlay (frame m) buf = ap (λ p. p.0) e in
    let e₁ : n ≡ header_size + calc_payload_size m = ap (λ p. p.1) e in
    rw (e₀, e₁)
      (
        omega arith,
        room,
        length-overlay (frame m) buf,
        drop-overlay _ (frame m) buf (length-frame-le m),
      )

take_header :
    (m : TunnelMessage) (size k : ℕ) (body : Bytes)
    → take (suc (suc (suc (suc (suc (suc (suc (suc (suc k))))))))) (header_bytes m size ++ body)
      ≡ header_bytes m size ++ take k body
unfolding header_bytes put_uint32
take_header m size k body = refl

take-frame :
    (m : TunnelMessage) (n : ℕ)
    → header_size ≤ n
    → take n (frame m)
      ≡ header_bytes m (calc_payload_size m) ++ take (n - 9) (body_bytes (shape m.type) m)
unfolding frame
take-frame m n h =
    let k = n - 9 in
    let e : n ≡ suc (suc (suc (suc (suc (suc (suc (suc (suc k)))))))) = omega arith in
    ap (λ j. take j (header_bytes m (calc_payload_size m) ++ body_bytes (shape m.type) m)) e
    ∙ take_header m (calc_payload_size m) k (body_bytes (shape m.type) m)

unmarshal_binary_short :
    (m : TunnelMessage) (n : ℕ) (payload : Bytes)
    → length payload < n
    → n ≤ max_payload_size
    → unmarshal_binary (header_bytes m n ++ payload) ≡ err invalid_payload
unfolding unmarshal_binary header_bytes put_uint32
unmarshal_binary_short m n payload e hn =
    let same : n % 4294967296 ≡ n = omega arith in
    let whole : Bytes = header_bytes m n ++ payload in
    rw same (
      rw (
        uint32-put_uint32 n (omega arith),
        le→ltb _ _ hn,
        le→ltb (length whole) header_size (omega arith),
        lt→ltb (length whole) (header_size + n) (omega arith),
      ))

unmarshal_binary_headless :
    (bytes : Bytes) → length bytes < header_size → unmarshal_binary bytes ≡ err invalid_header
unfolding unmarshal_binary
unmarshal_binary_headless bytes h = rw (lt→ltb _ _ h)

-- A frame that was cut anywhere is refused: inside the header as an invalid header, behind it as an
-- invalid payload. The message's strings and payload are within their limits.
pub unmarshal_binary_truncated :
    (m : TunnelMessage) (n : ℕ)
    → StringsFit (shape m.type) m
    → calc_payload_size m ≤ max_payload_size
    → n < length (frame m)
    → (n < header_size → unmarshal_binary (take n (frame m)) ≡ err invalid_header)
      × (header_size ≤ n → unmarshal_binary (take n (frame m)) ≡ err invalid_payload)
unmarshal_binary_truncated m n hf fits h = (
  (λ small. unmarshal_binary_headless (take n (frame m)) (omega (arith, length-take n (frame m)))),
  (λ large. rw (take-frame m n large) (
      unmarshal_binary_short m (calc_payload_size m) (take (n - 9) (body_bytes (shape m.type) m))
        (omega (arith, size, length-take (n - 9) (body_bytes (shape m.type) m))) fits)),
)
  where
    size : n < header_size + calc_payload_size m
    size = omega (arith, length-frame m hf)

-- A buffer without room is refused.
pub marshal_to_small :
    (m : TunnelMessage) (buf : Bytes)
    → length buf < header_size + calc_payload_size m
    → marshal_to m buf ≡ err buffer_too_small
unfolding marshal_to
marshal_to_small m buf h = rw (lt→ltb (length buf) (header_size + calc_payload_size m) h) refl
