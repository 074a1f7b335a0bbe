-- ===== src/Tunnel/Handshake.antt =====
-- relay_forwarder.go, waitForConnAck: when a relay connection counts as established.
use message_boy.Base.{
  ◌≡◌, ◌↔◌, inl, inr, refl, ap, ◌∙◌, arith, true, false, Bool-cases, List, [], ◌∷◌, ◌++◌, some,
  str_eq, str_eq_iff, All,
}
use message_boy.Tunnel.{
  Signal, timed_out, closed, received, ack_signal, error_signal, wait_for_conn_ack,
}

-- Data that the wait passes over.
abbrev pub IsIgnored : Signal → Type 0
IsIgnored (received bytes) = (str_eq bytes ack_signal ≡ false) × (str_eq bytes error_signal ≡ false)
IsIgnored timed_out = ⊥
IsIgnored closed = ⊥

-- The signals have an acknowledgement, and before it only data that is passed over.
abbrev pub HasAck : List Signal → Type 0
HasAck signals =
    (before after : List Signal) × (signals ≡ before ++ received ack_signal ∷ after)
    × All IsIgnored before

wait-HasAck : (signals : List Signal) → wait_for_conn_ack signals ≡ some true → HasAck signals
unfolding wait_for_conn_ack
wait-HasAck [] e = absurd (cc)
wait-HasAck (timed_out ∷ rest) e = absurd (cc)
wait-HasAck (closed ∷ rest) e = absurd (cc)
wait-HasAck (received bytes ∷ rest) e = elim (Bool-cases (str_eq bytes ack_signal)) [
  | inl ack ↦ ([], rest, ap (λ b. received b ∷ rest) ((str_eq_iff bytes ack_signal).0 ack), tt)
  | inr payload ↦ elim (Bool-cases (str_eq bytes error_signal)) [
    | inl err ↦ absurd (ground arith)
    | inr plain ↦
        let (before, after, eq, ignored) = wait-HasAck rest (ground arith) in
        (
          received bytes ∷ before,
          after,
          ap (λ l. received bytes ∷ l) eq,
          ((payload, plain), ignored),
        )
  ]
]

wait_after :
    (before after : List Signal)
    → All IsIgnored before
    → wait_for_conn_ack (before ++ received ack_signal ∷ after) ≡ some true
unfolding wait_for_conn_ack str_eq
wait_after [] after h = refl
wait_after (timed_out ∷ before) after h = absurd h.0
wait_after (closed ∷ before) after h = absurd h.0
wait_after (received bytes ∷ before) after h = rw (h.0.0, h.0.1) (wait_after before after h.1)

-- The wait answers that the connection is established exactly when an acknowledgement comes before
-- the time is over, before the stream is closed and before an error; other data does not matter.
pub wait_for_conn_ack_iff :
    (signals : List Signal) → (wait_for_conn_ack signals ≡ some true) ↔ HasAck signals
wait_for_conn_ack_iff signals =
    (wait-HasAck signals, λ h. ap wait_for_conn_ack h.2 ∙ wait_after h.0 h.1 h.3)
