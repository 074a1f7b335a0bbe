-- ===== src/Wire/Pool.antt =====
-- tunnel.go: the buffer pools, and the marshalling that takes its buffer from them.
use message_boy.Base.{ℕ, ◌+◌, ◌≤◌, ◌<◌, ◌≡◌, Bytes, arith, length, take, lt→ltb}
use message_boy.Wire.{
  TunnelMessage, Result, ok, err, buffer_too_small, shape, header_size, large_buf_size,
  max_payload_size, calc_payload_size, buffer_for_size, put_buffer, overlay, marshal_to,
}
use message_boy.Wire.Layout.{take-overlay}
use message_boy.Wire.RoundTrip.{StringsFit, frame, marshal_to-frame, length-frame}

-- The three pools: the buffer that a pool of this length hands out, with what it last held.
pub record BufferPool : Type 0 where
  pub get : ℕ → Bytes
  pub length-get : (n : ℕ) → length (get n) ≡ n

module _ (pool : BufferPool) where
  unfoldable pub get_buffer : Bytes
  get_buffer = pool.get (large_buf_size + header_size)

  unfoldable pub get_buffer_for_size : ℕ → Bytes
  get_buffer_for_size n = pool.get (buffer_for_size n)

  -- The buffer and the number of bytes to send.
  unfoldable pub marshal_binary : TunnelMessage → Result (Bytes × ℕ)
  marshal_binary m = marshal_to m (get_buffer_for_size (calc_payload_size m))

-- A buffer goes back to the pool that it came from.
pub put_buffer-buffer_for_size : (n : ℕ) → put_buffer (buffer_for_size n) ≡ buffer_for_size n
unfolding put_buffer buffer_for_size
put_buffer-buffer_for_size n = ground arith

-- The buffer that is chosen has room exactly for the payloads within the limit.
pub buffer_for_size_room :
    (n : ℕ)
    → (n ≤ max_payload_size → header_size + n ≤ buffer_for_size n)
      × (max_payload_size < n → buffer_for_size n < header_size + n)
unfolding buffer_for_size
buffer_for_size_room n = ground arith

module _ (pool : BufferPool) (m : TunnelMessage) where
  -- Marshalling into a buffer of the pool succeeds if the payload is within the limit.
  pub marshal_binary_fits :
      calc_payload_size m ≤ max_payload_size
      → marshal_binary pool m
        ≡ ok (
          overlay (frame m) (get_buffer_for_size pool (calc_payload_size m)),
          header_size + calc_payload_size m,
        )
  unfolding marshal_binary get_buffer_for_size
  marshal_binary_fits h = marshal_to-frame m _ h (
      omega (
        arith,
        (buffer_for_size_room (calc_payload_size m)).0 h,
        pool.length-get (buffer_for_size (calc_payload_size m)),
      ))

  -- A larger payload is refused by the buffer's size, so the test against the limit is never met.
  pub marshal_binary_too_large :
      max_payload_size < calc_payload_size m → marshal_binary pool m ≡ err buffer_too_small
  unfolding marshal_binary get_buffer_for_size marshal_to
  marshal_binary_too_large h = rw (
      lt→ltb (length (pool.get (buffer_for_size (calc_payload_size m))))
        (header_size + calc_payload_size m)
        (omega (
          arith,
          (buffer_for_size_room (calc_payload_size m)).1 h,
          pool.length-get (buffer_for_size (calc_payload_size m)),
        )))

-- The bytes that go onto the wire are the frame, whatever the pool's buffer held before.
pub take-marshal_binary :
    (pool : BufferPool) (m : TunnelMessage)
    → StringsFit (shape m.type) m
    → calc_payload_size m ≤ max_payload_size
    → take
        (header_size + calc_payload_size m)
        (overlay (frame m) (get_buffer_for_size pool (calc_payload_size m)))
      ≡ frame m
unfolding get_buffer_for_size
take-marshal_binary pool m hf h = take-overlay _ (frame m) _ (length-frame m hf) (
    omega (
      arith,
      (buffer_for_size_room (calc_payload_size m)).0 h,
      pool.length-get (buffer_for_size (calc_payload_size m)),
    ))
