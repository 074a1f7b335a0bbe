-- ===== src/Conn/EndToEnd.antt =====
-- ws_client.go: what one client sends as data and another receives.
use message_boy.Base.{
  ℕ, ◌+◌, ◌≤◌, ◌<◌, ◌≡◌, refl, sym, ap, ◌∙◌, true, [], ◌++◌, some, arith, Bytes, ltb, lt→ltb,
  length, length-append, take, take-append, drop-append, append-nil,
}
use message_boy.Wire.{
  TunnelMessage, bare_message, ok, err, buffer_too_small, shape, msg_type_data, header_size,
  max_payload_size, calc_payload_size, payload_size, marshal_to, unmarshal_binary, large_buf_size,
}
use message_boy.Wire.RoundTrip.{StringsFit, wire_view, unmarshal_binary-marshal_to}
use message_boy.Wire.Bounds.{marshal_to_small}
use message_boy.Wire.Pool.{BufferPool, get_buffer}
use message_boy.Conn.Sealing.{
  Cipher, nonce_size, tag_size, encrypted, send_frame, with_payload, decrypted, receive_frame,
}

-- A Data message of a stream.
abbrev pub data_message : ℕ → Bytes → TunnelMessage
data_message stream text = record (bare_message msg_type_data stream) { payload = text }

data_size : (stream : ℕ) (text : Bytes) → calc_payload_size (data_message stream text) ≡ length text
unfolding calc_payload_size payload_size shape
data_size stream text = refl

data_fits :
    (stream : ℕ) (text : Bytes) → StringsFit (shape msg_type_data) (data_message stream text)
unfolding shape
data_fits stream text = tt

data_view :
    (stream : ℕ) (text : Bytes)
    → wire_view (shape msg_type_data) (data_message stream text) ≡ data_message stream text
unfolding shape
data_view stream text = refl

module _ (cipher : Cipher) (pool : BufferPool) where
  pub encrypted_data :
      (nonce text : Bytes) (stream : ℕ)
      → 0 < length text
      → encrypted cipher nonce (data_message stream text)
        ≡ data_message stream (nonce ++ cipher.seal nonce text)
  unfolding encrypted
  encrypted_data nonce text stream h = rw (lt→ltb 0 (length text) h) refl

  decrypted_data :
      (nonce text : Bytes) (stream : ℕ)
      → length nonce ≡ nonce_size
      → decrypted cipher (data_message stream (nonce ++ cipher.seal nonce text))
        ≡ some (data_message stream text)
  unfolding decrypted with_payload
  decrypted_data nonce text stream n =
      let sealed = cipher.length-seal nonce text in
      let size = length-append nonce (cipher.seal nonce text) in
      let long : ltb nonce_size (length (nonce ++ cipher.seal nonce text)) ≡ true =
        lt→ltb nonce_size (length (nonce ++ cipher.seal nonce text)) (omega arith) in
      rw
        (
          long,
          take-append nonce_size nonce (cipher.seal nonce text) n,
          drop-append nonce_size nonce (cipher.seal nonce text) n,
          cipher.unseal-seal nonce text,
        )
        refl

  pub receive_decoded :
      (bytes : Bytes) (m : TunnelMessage)
      → unmarshal_binary bytes ≡ ok m
      → receive_frame cipher bytes ≡ decrypted cipher m
  unfolding receive_frame
  receive_decoded bytes m e = rw (e, receive_frame) refl

  -- Data that one client sends is received by another as it was, from the frame alone: a payload of
  -- at most 65508 bytes is encrypted, marshalled into a pooled buffer that may hold anything, decoded
  -- and decrypted to the same bytes of the same stream.
  pub receive_frame-send_frame :
      (nonce text : Bytes) (stream : ℕ)
      → length nonce ≡ nonce_size
      → stream < 4294967296
      → 0 < length text
      → length text + nonce_size + tag_size ≤ max_payload_size
      → (buf : Bytes) × (n : ℕ) × (send_frame cipher pool nonce (data_message stream text)
          ≡ ok (buf, n))
        × (receive_frame cipher (take n buf) ≡ some (data_message stream text))
  unfolding send_frame get_buffer
  receive_frame-send_frame nonce text stream n id pos fits =
      let sealed = nonce ++ cipher.seal nonce text in
      let tagged = cipher.length-seal nonce text in
      let joined = length-append nonce (cipher.seal nonce text) in
      let room = pool.length-get (large_buf_size + header_size) in
      let size = data_size stream sealed in
      let (buf, k, sent, got) =
        unmarshal_binary-marshal_to (data_message stream sealed)
          (pool.get (large_buf_size + header_size)) [] id (data_fits stream sealed) (omega arith)
          (omega arith) in
      (
        buf,
        k,
        ap (λ x. marshal_to x (pool.get (large_buf_size + header_size)))
              (encrypted_data nonce text stream pos)
            ∙ sent,
        receive_decoded (take k buf) (data_message stream sealed) (
              ap unmarshal_binary (sym (append-nil (take k buf)))
              ∙ got
              ∙ ap ok (data_view stream sealed))
            ∙ decrypted_data nonce text stream n,
      )

  -- A larger payload is refused when it is sent, though it is within the limit of 64 KB that the
  -- forwarders read at once: the nonce and the tag need 28 bytes of it.
  pub send_frame_too_large :
      (nonce text : Bytes) (stream : ℕ)
      → length nonce ≡ nonce_size
      → length text ≤ max_payload_size
      → max_payload_size < length text + nonce_size + tag_size
      → send_frame cipher pool nonce (data_message stream text) ≡ err buffer_too_small
  unfolding send_frame get_buffer
  send_frame_too_large nonce text stream n within large =
      let sealed = nonce ++ cipher.seal nonce text in
      let tagged = cipher.length-seal nonce text in
      let joined = length-append nonce (cipher.seal nonce text) in
      let room = pool.length-get (large_buf_size + header_size) in
      let size = data_size stream sealed in
      ap (λ x. marshal_to x (pool.get (large_buf_size + header_size)))
        (encrypted_data nonce text stream (omega arith))
      ∙ marshal_to_small (data_message stream sealed) (pool.get (large_buf_size + header_size))
          (omega arith)
