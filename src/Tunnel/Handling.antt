-- ===== src/Tunnel/Handling.antt =====
-- client.go, handleTunnelMessages over the stream manager: a message reaches the stream of its id and
-- no other.
use mathlib.Core.Path.{subst}
use message_boy.Base.{
  ℕ, ◌≡◌, ◌≢◌, inl, inr, refl, sym, ap, ◌∙◌, arith, Bool, true, false, not, ◌&&◌, Bool-cases,
  Option-cases, none, some, Bytes, ◌==◌, ==_iff, if◌then◌else◌, nat_eq, lookup, insert,
  lookup-insert, lookup-delete,
}
use message_boy.Wire.{TunnelMessage}
use message_boy.Stream.{
  Stream, StreamManager, get_stream, close, remove_stream, write_stream, close_stream,
}
use message_boy.Stream.Laws.{
  IsWellFormed, lookup-update_ref, remove_stream_found, remove_stream_missing, write_found,
}
use message_boy.Tunnel.{error_signal, write_or_remove, signal_error, to_stream}
use message_boy.Tunnel.Flow.{write_or_close, on_message}

-- The object under `q` and the entry of `j` after an operation on the object `x` under `r`, the
-- stream of `id`, that leaves it as the outcome `o` says.
abbrev pub Effect : ℕ → ℕ → Stream × Bool → StreamManager → StreamManager → Type 0
Effect id r o sm sm' =
    ((q : ℕ) → lookup q sm'.heap ≡ (if r == q then some o.0 else lookup q sm.heap))
    × ((j : ℕ) → lookup j sm'.streams ≡ (if id == j && not o.1 then none else lookup j sm.streams))

module _ (id r : ℕ) (x : Stream) (sm : StreamManager) (entry : lookup id sm.streams ≡ some r)
    (object : lookup r sm.heap ≡ some x) where
  remove_stream-Effect : Effect id r (close_stream x, false) sm (remove_stream id sm)
  unfolding close
  remove_stream-Effect = rw (remove_stream_found id r sm entry) (
    (λ q. ground (arith, lookup-update_ref r q close_stream sm.heap, object)),
    (λ j. ground (arith, lookup-delete id j sm.streams)),
  )

  pub signal_error-Effect :
      Effect id r (close_stream (write_stream error_signal x).0, true) sm (signal_error r sm)
  unfolding signal_error close
  signal_error-Effect = rw (write_found r error_signal sm x object) (
    (λ q. ground (
      arith,
      lookup-update_ref r q close_stream (insert r (write_stream error_signal x).0 sm.heap),
      lookup-insert r q (write_stream error_signal x).0 sm.heap,
    )),
    (λ j. ground arith),
  )

-- Closing and removing after a write that was refused.
pub write_or_remove-Effect :
    (id r : ℕ) (x : Stream) (sm : StreamManager)
    → lookup id sm.streams ≡ some r
    → lookup r sm.heap ≡ some x
    → (bytes : Bytes) → Effect id r (write_or_close bytes x) sm (write_or_remove id r bytes sm)
unfolding write_or_remove write_or_close
write_or_remove-Effect id r x sm entry object bytes = elim (Bool-cases (write_stream bytes x).1) [
  | inl done ↦
      rw (write_found r bytes sm x object, done)
        ((λ q. lookup-insert r q (write_stream bytes x).0 sm.heap), (λ j. ground arith))
  | inr full ↦
      rw (write_found r bytes sm x object, full)
        (let sm' = record sm { heap = insert r (write_stream bytes x).0 sm.heap } in
          let there : lookup r sm'.heap ≡ some (write_stream bytes x).0 =
            ground (arith, lookup-insert r r (write_stream bytes x).0 sm.heap) in
          let (objects, entries) =
            remove_stream-Effect id r (write_stream bytes x).0 sm' entry there in
          (
            (λ q. ground (arith, objects q, lookup-insert r q (write_stream bytes x).0 sm.heap)),
            entries,
          ))
]

-- What a message makes of the stream `x` of the entry `id`.
abbrev pub own_outcome : TunnelMessage → ℕ → Stream → Stream × Bool
own_outcome m id x = if m.stream_id == id then on_message m x else (x, true)

-- A stream under its entry, or its object after the entry is gone.
abbrev pub IsKept : ℕ → ℕ → Stream × Bool → StreamManager → Type 0
IsKept id r o sm =
    (lookup r sm.heap ≡ some o.0) × (lookup id sm.streams ≡ (if o.1 then some r else none))

module _ (m : TunnelMessage) (id r : ℕ) (x : Stream) (sm : StreamManager)
    (entry : lookup id sm.streams ≡ some r) (object : lookup r sm.heap ≡ some x) where
  -- An operation on this stream.
  own-IsKept : (o : Stream × Bool) (sm' : StreamManager) → Effect id r o sm sm' → IsKept id r o sm'
  own-IsKept o sm' (objects, entries) = (ground (arith, objects r), ground (arith, entries id))

  -- An operation on another stream.
  other-IsKept :
      (j q : ℕ) (o : Stream × Bool) (sm' : StreamManager)
      → j ≢ id
      → q ≢ r
      → Effect j q o sm sm'
      → IsKept id r (x, true) sm'
  other-IsKept j q o sm' nj nq (objects, entries) =
      (ground (arith, objects r), ground (arith, entries id))

  unchanged-IsKept : IsKept id r (x, true) sm
  unchanged-IsKept = (object, entry)

  -- Two entries do not lead to one object.
  distinct : (j q : ℕ) → IsWellFormed sm → j ≢ id → lookup j sm.streams ≡ some q → q ≢ r
  distinct j q v ne e same =
      let own = v.entries id r entry in let theirs = v.entries j q e in ne (ground arith)

  found_object :
      (j q : ℕ)
      → IsWellFormed sm
      → lookup j sm.streams ≡ some q
      → (y : Stream) × (lookup q sm.heap ≡ some y)
  found_object j q v e = elim (Option-cases (lookup q sm.heap)) [
    | inl gone ↦ let there = v.entries j q e in absurd (ground arith)
    | inr found ↦ found
  ]

  -- An operation that is given the stream of `j`, if there is one.
  pub to_stream-IsKept :
      (j : ℕ) (op : ℕ → StreamManager → StreamManager) (outcome : Stream → Stream × Bool)
      → ((q : ℕ) (y : Stream)
          → lookup j sm.streams ≡ some q
          → lookup q sm.heap ≡ some y
          → Effect j q (outcome y) sm (op q sm))
      → IsWellFormed sm
      → IsKept id r (if j == id then outcome x else (x, true)) (to_stream (get_stream j sm) op sm)
  unfolding to_stream get_stream
  to_stream-IsKept j op outcome effect v = elim (Bool-cases (j == id)) [
    | inl own ↦
        let same : j ≡ id = (==_iff j id).0 own in
        let e : lookup j sm.streams ≡ some r = ap (λ k. lookup k sm.streams) same ∙ entry in
        rw (own, e)
          (own-IsKept (outcome x) (op r sm)
            (subst (λ k. Effect k r (outcome x) sm (op r sm)) same (effect r x e object)))
    | inr other ↦
        let ne : j ≢ id = λ same. cc (sym ((==_iff j id).1 same) ∙ other) in
        elim (Option-cases (lookup j sm.streams)) [
          | inl absent ↦ rw (other, absent) unchanged-IsKept
          | inr (q, e) ↦
              let (y, there) = found_object j q v e in
              rw (other, e)
                (other-IsKept j q (outcome y) (op q sm) ne (distinct j q v ne e)
                  (effect q y e there))
        ]
  ]

  pub remove_stream-IsKept :
      (j : ℕ)
      → IsWellFormed sm
      → IsKept id r (if j == id then (close_stream x, false) else (x, true)) (remove_stream j sm)
  unfolding to_stream get_stream
  remove_stream-IsKept j v =
      subst (IsKept id r (if j == id then (close_stream x, false) else (x, true))) same (
        to_stream-IsKept j (λ q s. remove_stream j s) (λ y. (close_stream y, false))
          (λ q y e there. remove_stream-Effect j q y sm e there) v)
    where
      same : to_stream (get_stream j sm) (λ q s. remove_stream j s) sm ≡ remove_stream j sm
      same = elim (Option-cases (lookup j sm.streams)) [
        | inl absent ↦ rw absent (sym (remove_stream_missing j sm absent))
        | inr (q, e) ↦ rw e refl
      ]
