-- ===== src/Stream/Channel.antt =====
-- tunnel.go, Write: what a stream's channel holds.
use message_boy.Base.{
  ◌+◌, ◌-◌, ◌%◌, ◌≤◌, ◌<◌, ◌≡◌, refl, sym, ◌∙◌, ap, List, [], ◌∷◌, ◌++◌, append_assoc, append-nil,
  arith, Bytes, Bool, true, false, ltb, length, take, length-append, take_all, take-take_append,
  Bool-cases, inl, inr, ltb→lt, ltb→le,
}
use message_boy.Stream.{Stream, data_ch_cap, write_stream}

pub write_stream_closed : (x : Bytes) (s : Stream) → s.closed ≡ true → write_stream x s ≡ (s, false)
unfolding write_stream
write_stream_closed x s h = ground arith

pub write_stream_free :
    (x : Bytes) (s : Stream)
    → s.closed ≡ false
    → length s.data_ch < data_ch_cap
    → write_stream x s ≡ (record s { data_ch = s.data_ch ++ x ∷ [] }, true)
unfolding write_stream
write_stream_free x s h room = ground arith

pub write_stream_full :
    (x : Bytes) (s : Stream)
    → s.closed ≡ false
    → data_ch_cap ≤ length s.data_ch
    → write_stream x s
      ≡ (record s { dropped_messages = (s.dropped_messages + 1) % 18446744073709551616 }, false)
unfolding write_stream
write_stream_full x s h full = ground arith

-- Writes in order, with no reader in between.
pub write_all : List Bytes → Stream → Stream
write_all [] s = s
write_all (x ∷ xs) s = write_all xs (write_stream x s).0

-- A closed stream takes nothing and counts nothing.
pub write_all_closed : (xs : List Bytes) (s : Stream) → s.closed ≡ true → write_all xs s ≡ s
unfolding write_all
write_all_closed [] s h = refl
write_all_closed (x ∷ xs) s h = simp (write_stream_closed x s h) (write_all_closed xs s h)

write_all_step :
    (x : Bytes) (xs : List Bytes) (s : Stream) (r : Stream × Bool)
    → write_stream x s ≡ r
    → write_all (x ∷ xs) s ≡ write_all xs r.0
unfolding write_all
write_all_step x xs s r e = ap (λ p. write_all xs p.0) e

-- An open stream keeps, in order, as many of the written messages as its channel has room for, and
-- counts the others as dropped, modulo 2^64; it stays open.
pub write_all_lem :
    (xs : List Bytes) (s : Stream)
    → s.closed ≡ false
    → length s.data_ch ≤ data_ch_cap
    → s.dropped_messages < 18446744073709551616
    → ((write_all xs s).data_ch ≡ take data_ch_cap (s.data_ch ++ xs))
      × ((write_all xs s).dropped_messages
          ≡ (s.dropped_messages + (length s.data_ch + length xs - data_ch_cap))
            % 18446744073709551616)
      × ((write_all xs s).closed ≡ false)
write_all_lem [] s h room d =
    unfold write_all in (rw append-nil (rw (take_all data_ch_cap s.data_ch room)), omega arith, h)
write_all_lem (x ∷ xs) s h room d = elim (Bool-cases (ltb (length s.data_ch) data_ch_cap)) [
  | inl free ↦
      let lt = ltb→lt _ _ free in
      let s' : Stream = record s { data_ch = s.data_ch ++ x ∷ [] } in
      let size = length-append s.data_ch (x ∷ []) in
      let (q, n, c) = write_all_lem xs s' h (omega (arith, size)) d in
      rw (write_all_step x xs s _ (write_stream_free x s h lt))
        (q ∙ ap (take data_ch_cap) (append_assoc s.data_ch (x ∷ []) xs), omega (arith, n, size), c)
  | inr full ↦
      let ge = ltb→le _ _ full in
      let s' : Stream = record s {
        dropped_messages = (s.dropped_messages + 1) % 18446744073709551616;
      } in
      let (q, n, c) = write_all_lem xs s' h room (omega arith) in
      rw (write_all_step x xs s _ (write_stream_full x s h ge)) (
        q
            ∙ take-take_append data_ch_cap s.data_ch xs ge
            ∙ sym (take-take_append data_ch_cap s.data_ch (x ∷ xs) ge),
        omega arith,
        c,
      )
]
