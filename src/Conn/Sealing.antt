-- ===== src/Conn/Sealing.antt =====
-- ws_client.go, Send and readPump: the payloads of Data messages are encrypted. The cipher of
-- pkg/common/crypto is a parameter: AES-GCM with nonces of 12 bytes and tags of 16.
use message_boy.Base.{
  ℕ, ◌+◌, ◌&&◌, ◌++◌, Option, none, some, Bytes, ◌==◌, ltb, if◌then◌else◌, length, take, drop, ◌≡◌,
}
use message_boy.Wire.{TunnelMessage, Result, ok, err, msg_type_data, marshal_to, unmarshal_binary}
use message_boy.Wire.Pool.{BufferPool, get_buffer}

abbrev pub nonce_size : ℕ
nonce_size = 12

abbrev pub tag_size : ℕ
tag_size = 16

-- A cipher under the shared key, for the nonce that the encryption draws.
pub record Cipher : Type 0 where
  pub seal : Bytes → Bytes → Bytes
  pub unseal : Bytes → Bytes → Option Bytes
  pub length-seal : (nonce text : Bytes) → length (seal nonce text) ≡ length text + tag_size
  pub unseal-seal : (nonce text : Bytes) → unseal nonce (seal nonce text) ≡ some text

unfoldable pub encrypted : Cipher → Bytes → TunnelMessage → TunnelMessage
encrypted cipher nonce m =
    if m.type == msg_type_data && ltb 0 (length m.payload)
    then record m { payload = nonce ++ cipher.seal nonce m.payload }
    else m

-- The frame that `Send` queues, or its error.
unfoldable pub send_frame : Cipher → BufferPool → Bytes → TunnelMessage → Result (Bytes × ℕ)
unfolding encrypted get_buffer
send_frame cipher pool nonce m = marshal_to (encrypted cipher nonce m) (get_buffer pool)

unfoldable pub with_payload : TunnelMessage → Option Bytes → Option TunnelMessage
with_payload m none = none
with_payload m (some text) = some (record m { payload = text })

unfoldable pub decrypted : Cipher → TunnelMessage → Option TunnelMessage
unfolding with_payload
decrypted cipher m =
    let opened =
      with_payload m (cipher.unseal (take nonce_size m.payload) (drop nonce_size m.payload)) in
    if ltb nonce_size (length m.payload) && m.type == msg_type_data then opened else some m

-- One round of `readPump`: the message for the receive channel; nothing where it is skipped.
unfoldable pub receive_frame : Cipher → Bytes → Option TunnelMessage
unfolding decrypted
receive_frame cipher bytes = elim (unmarshal_binary bytes) [
  | err e ↦ none
  | ok m ↦ decrypted cipher m
]
