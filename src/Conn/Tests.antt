-- ===== src/Conn/Tests.antt =====
-- The theorems about a client's connection.
use message_boy.Base.{
  ℕ, ◌≡◌, refl, true, false, List, [], ◌∷◌, ◌++◌, some, arith, Bytes, codes, take, drop, replicate,
  length-replicate,
}
use message_boy.Wire.{ok, err, buffer_too_small}
use message_boy.Wire.Pool.{BufferPool}
use message_boy.Conn.Sealing.{Cipher, send_frame, receive_frame}
use message_boy.Conn.EndToEnd.{data_message, receive_frame-send_frame, send_frame_too_large}
use message_boy.Conn.Reconnect.{Event, new_conn, connects, disconnects, swaps, wakes, closes, run}
use message_boy.Conn.LostReconnect.{short_reconnect, lost_reconnect}

abbrev zeros : BufferPool
zeros = record { get = λ n. replicate n 0; length-get = λ n. length-replicate n 0 }

-- Tags of zeros in front of the text.
abbrev plain : Cipher
plain = record {
  seal = λ nonce text. replicate 16 0 ++ text;
  unseal = λ nonce text. some (drop 16 text);
  length-seal = λ nonce text. omega arith;
  unseal-seal = λ nonce text. refl;
}

abbrev nonce : Bytes
nonce = replicate 12 7

receive_frame-send_frame_example :
    (buf : Bytes) × (n : ℕ) × (send_frame plain zeros nonce (data_message 2 (codes "hi"))
      ≡ ok (buf, n))
    × (receive_frame plain (take n buf) ≡ some (data_message 2 (codes "hi")))
receive_frame-send_frame_example =
    receive_frame-send_frame plain zeros nonce (codes "hi") 2 refl (omega arith) (omega arith)
      (omega arith)

abbrev full_read : Bytes
full_read = replicate 65536 1

send_frame_too_large_example :
    send_frame plain zeros nonce (data_message 2 full_read) ≡ err buffer_too_small
send_frame_too_large_example =
    let size = length-replicate {A = ℕ} 65536 1 in
    send_frame_too_large plain zeros nonce full_read 2 refl (omega arith) (omega arith)

-- Two disconnects whose compare-and-swaps come one after the other.
abbrev two_swaps : List Event
two_swaps =
    connects true
    ∷ disconnects
    ∷ connects true
    ∷ disconnects
    ∷ swaps
    ∷ swaps
    ∷ wakes 0 false
    ∷ closes
    ∷ []

lost_reconnect_example :
    (run short_reconnect new_conn ≡ new_conn)
    × (run (wakes 0 true ∷ []) (run short_reconnect new_conn) ≡ new_conn)
lost_reconnect_example = lost_reconnect (wakes 0 true ∷ []) (tt, tt)
