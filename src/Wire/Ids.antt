-- ===== src/Wire/Ids.antt =====
-- tunnel.go: what UnmarshalBinary makes of any bytes.
use message_boy.Base.{
  ℕ, zero, suc, ◌<◌, ◌≡◌, refl, [], ◌∷◌, arith, Bytes, IsByte, All, take, drop, get_or,
}
use message_boy.Wire.{
  TunnelMessage, Shape, raw, dial, report, empty, shape, ok, header_size, uint32, decode_body,
  unmarshal_binary,
}

All-take : (n : ℕ) (xs : Bytes) → All IsByte xs → All IsByte (take n xs)
All-take zero xs h = tt
All-take (suc n) [] h = tt
All-take (suc n) (x ∷ xs) h = (h.0, All-take n xs h.1)

All-drop : (n : ℕ) (xs : Bytes) → All IsByte xs → All IsByte (drop n xs)
All-drop zero xs h = h
All-drop (suc n) [] h = tt
All-drop (suc n) (x ∷ xs) h = All-drop n xs h.1

uint32-bound : (xs : Bytes) → All IsByte xs → uint32 xs < 4294967296
unfolding uint32
uint32-bound [] h = omega arith
uint32-bound (a ∷ []) h = omega arith
uint32-bound (a ∷ b ∷ []) h = omega arith
uint32-bound (a ∷ b ∷ c ∷ []) h = omega arith
uint32-bound (a ∷ b ∷ c ∷ d ∷ xs) h = let (ha, (hb, (hc, (hd, rest)))) = h in omega arith

decode_body-stream_id :
    (k : Shape) (t s : ℕ) (payload : Bytes) → (decode_body k t s payload).stream_id ≡ s
unfolding decode_body
decode_body-stream_id raw t s payload = refl
decode_body-stream_id dial t s payload = refl
decode_body-stream_id report t s payload = refl
decode_body-stream_id empty t s payload = refl

-- A decoded stream id has 32 bits.
pub unmarshal_binary-stream_id :
    (bytes : Bytes) (m : TunnelMessage)
    → All IsByte bytes
    → unmarshal_binary bytes ≡ ok m
    → m.stream_id < 4294967296
unfolding unmarshal_binary
unmarshal_binary-stream_id bytes m h e =
    let bound =
      uint32-bound (take 4 (drop 1 bytes)) (All-take 4 (drop 1 bytes) (All-drop 1 bytes h)) in
    let same =
      decode_body-stream_id (shape (get_or bytes 0 0)) (get_or bytes 0 0)
        (uint32 (take 4 (drop 1 bytes)))
        (take (uint32 (take 4 (drop 5 bytes))) (drop header_size bytes)) in
    ground arith
