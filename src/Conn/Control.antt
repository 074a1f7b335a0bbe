-- ===== src/Conn/Control.antt =====
-- ws_client.go, Send and readPump, for messages that are not Data: they pass as they are.
use message_boy.Base.{
  ℕ, ◌+◌, ◌≤◌, ◌<◌, ◌≡◌, refl, sym, ap, ◌∙◌, false, [], some, arith, Bytes, ◌==◌, take, append-nil,
}
use message_boy.Wire.{
  TunnelMessage, ok, Shape, raw, dial, report, empty, shape, msg_type_data, header_size,
  max_payload_size, calc_payload_size, marshal_to, unmarshal_binary, large_buf_size,
}
use message_boy.Wire.RoundTrip.{StringsFit, wire_view, unmarshal_binary-marshal_to}
use message_boy.Wire.Pool.{BufferPool, get_buffer}
use message_boy.Conn.Sealing.{Cipher, encrypted, send_frame, decrypted, receive_frame}
use message_boy.Conn.EndToEnd.{receive_decoded}

type-wire_view : (k : Shape) (m : TunnelMessage) → (wire_view k m).type ≡ m.type
type-wire_view raw m = refl
type-wire_view dial m = refl
type-wire_view report m = refl
type-wire_view empty m = refl

module _ (cipher : Cipher) (pool : BufferPool) where
  plainly :
      (nonce : Bytes) (m : TunnelMessage)
      → (m.type == msg_type_data) ≡ false
      → encrypted cipher nonce m ≡ m
  unfolding encrypted
  plainly nonce m other = rw other refl

  kept_plain : (m : TunnelMessage) → (m.type == msg_type_data) ≡ false → decrypted cipher m ≡ some m
  unfolding decrypted
  kept_plain m other = ground arith

  -- A message of another type than Data is received with the fields that its type carries.
  pub receive_frame-control :
      (nonce : Bytes) (m : TunnelMessage)
      → (m.type == msg_type_data) ≡ false
      → m.stream_id < 4294967296
      → StringsFit (shape m.type) m
      → calc_payload_size m ≤ max_payload_size
      → (buf : Bytes) × (n : ℕ) × (send_frame cipher pool nonce m ≡ ok (buf, n))
        × (receive_frame cipher (take n buf) ≡ some (wire_view (shape m.type) m))
  unfolding send_frame get_buffer
  receive_frame-control nonce m other id strings fits =
      let room = pool.length-get (large_buf_size + header_size) in
      let view = wire_view (shape m.type) m in
      let same = type-wire_view (shape m.type) m in
      let (buf, k, sent, got) =
        unmarshal_binary-marshal_to m (pool.get (large_buf_size + header_size)) [] id strings fits
          (omega arith) in
      (
        buf,
        k,
        ap (λ x. marshal_to x (pool.get (large_buf_size + header_size))) (plainly nonce m other)
            ∙ sent,
        receive_decoded cipher pool (take k buf) view
              (ap unmarshal_binary (sym (append-nil (take k buf))) ∙ got)
            ∙ kept_plain view (ap (λ t. t == msg_type_data) same ∙ other),
      )
