-- ===== src/Tunnel/Taking.antt =====
-- client.go, handleTunnelMessages: what a message leaves in the channel of its stream.
use message_boy.Base.{
  ℕ, ◌+◌, ◌≡◌, ◌⊎◌, inl, inr, refl, arith, Bool, true, false, not, ◌&&◌, Bool-cases, List, [], ◌∷◌,
  ◌++◌, Bytes, ◌==◌, ltb, if◌then◌else◌, length,
}
use message_boy.Wire.{
  TunnelMessage, msg_type_conn_ack, msg_type_data, msg_type_close, msg_type_error,
}
use message_boy.Stream.{Stream, close_stream, write_stream, data_ch_cap}
use message_boy.Tunnel.{ack_signal, error_signal}
use message_boy.Tunnel.Flow.{
  write_or_close, on_message, Event, arrive, take_data, take_close, close_here,
}

-- What a message puts into the channel of its stream, if there is room.
abbrev pub queued : TunnelMessage → List Bytes
queued m =
    if m.type == msg_type_conn_ack
    then ack_signal ∷ []
    else if m.type == msg_type_data
    then m.payload ∷ []
    else if m.type == msg_type_close
    then []
    else if m.type == msg_type_error
    then error_signal ∷ []
    else []

abbrev pub queued_by : Event → List Bytes
queued_by (arrive m) = queued m
queued_by (take_data ok) = []
queued_by take_close = []
queued_by close_here = []

abbrev pub all_queued : List Event → List Bytes
all_queued [] = []
all_queued (e ∷ es) = queued_by e ++ all_queued es

abbrev pub total : List Bytes → ℕ
total [] = 0
total (b ∷ bs) = length b + total bs

pub total-append : (xs ys : List Bytes) → total (xs ++ ys) ≡ total xs + total ys
total-append [] ys = omega arith
total-append (x ∷ xs) ys = omega (arith, total-append xs ys)

-- The stream `y` with its registration after `bytes` came for `x`: taken into the channel, or not
-- taken, and then the stream takes nothing any more.
abbrev pub Takes : List Bytes → Stream → Stream × Bool → Type 0
Takes bytes x (y, reg) =
    ((y.data_ch ≡ x.data_ch ++ bytes) × (x.closed ≡ false))
    ⊎ ((y.data_ch ≡ x.data_ch) × ((reg && not y.closed ≡ false) ⊎ ((bytes ≡ []) × (y ≡ x))))

write_or_close-Takes : (bytes : Bytes) (x : Stream) → Takes (bytes ∷ []) x (write_or_close bytes x)
unfolding write_or_close write_stream close_stream
write_or_close-Takes bytes x = elim (Bool-cases x.closed) [
  | inl shut ↦ inr (ground arith, inl (ground arith))
  | inr live ↦ elim (Bool-cases (ltb (length x.data_ch) data_ch_cap)) [
    | inl room ↦ inl (ground arith, live)
    | inr full ↦ inr (ground arith, inl (ground arith))
  ]
]

pub on_message-Takes : (m : TunnelMessage) (x : Stream) → Takes (queued m) x (on_message m x)
unfolding on_message write_stream close_stream
on_message-Takes m x = elim (Bool-cases (m.type == msg_type_conn_ack)) [
  | inl ack ↦ rw ack (write_or_close-Takes ack_signal x)
  | inr a ↦ elim (Bool-cases (m.type == msg_type_data)) [
    | inl bytes ↦ rw (a, bytes) (write_or_close-Takes m.payload x)
    | inr b ↦ elim (Bool-cases (m.type == msg_type_close)) [
      | inl shut ↦ rw (a, b, shut) (inr (ground arith, inl refl))
      | inr c ↦ elim (Bool-cases (m.type == msg_type_error)) [
        | inl failed ↦ rw (a, b, c, failed) (error-Takes x)
        | inr d ↦ rw (a, b, c, d) (inr (refl, inr (refl, refl)))
      ]
    ]
  ]
]
  where
    error-Takes :
        (y : Stream)
        → Takes (error_signal ∷ []) y (close_stream (write_stream error_signal y).0, true)
    error-Takes y = elim (Bool-cases y.closed) [
      | inl shut ↦ inr (ground arith, inl (ground arith))
      | inr live ↦ elim (Bool-cases (ltb (length y.data_ch) data_ch_cap)) [
        | inl room ↦ inl (ground arith, live)
        | inr full ↦ inr (ground arith, inl (ground arith))
      ]
    ]
