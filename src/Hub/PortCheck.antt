-- ===== src/Hub/PortCheck.antt =====
-- ws_server.go, CheckPortAvailable and HandlePortCheckResult: a question to a client, and its answer.
-- The caller waits between the two halves; the texts of the refusals are constructors.
use message_boy.Base.{
  ℕ, ◌+◌, ◌%◌, Bool, Option, none, some, Bytes, if◌then◌else◌, nat_eq, lookup, insert, delete,
  is_empty,
}
use message_boy.Wire.{TunnelMessage, bare_message, msg_type_check_port}
use message_boy.Hub.{Services, Server, is_client_online, send_msg_to_client}

-- Why the port is not available without an answer, or the answer's availability and text.
pub data Verdict : Type 0 where
  offline unsent timed_out : Verdict
  answered : Bool → Bytes → Verdict

-- The call is over, or waits for an answer under its request id.
pub data Started : Type 0 where
  over : Verdict → Started
  waiting : ℕ → Started

abbrev pub check_msg : ℕ → Bytes → Bytes → TunnelMessage
check_msg id addr rule = record (bare_message msg_type_check_port id) {
  target = addr;
  rule_id = rule;
}

module _ {svc : Services} where
  unfoldable pub forget_check : ℕ → Server svc → Server svc
  forget_check id s = record s { pending_port_checks = delete id s.pending_port_checks }

  -- Up to the `select`.
  unfoldable pub check_port_start : Bytes → Bytes → Bytes → Server svc → Server svc × Started
  unfolding forget_check
  check_port_start client addr rule s =
      let id = (s.port_check_next_id + 1) % 4294967296 in
      let asked = record s {
        port_check_next_id = id;
        pending_port_checks = insert id none s.pending_port_checks;
      } in
      let (s', sent) = send_msg_to_client client (check_msg id addr rule) asked in
      if is_client_online client s
      then (if sent then (s', waiting id) else (forget_check id s', over unsent))
      else (s, over offline)

  -- An answer to an unknown request is dropped, and so is a second one.
  unfoldable pub handle_port_check_result : TunnelMessage → Server svc → Server svc
  handle_port_check_result m s = elim (lookup m.stream_id s.pending_port_checks) [
    | none ↦ s
    | some (some result) ↦ s
    | some none ↦ record s {
      pending_port_checks =
          insert m.stream_id (some (record { available = is_empty m.error; error = m.error }))
            s.pending_port_checks;
    }
  ]

  -- The `select` once the timer has fired, or once an answer is there, and the clean-up.
  unfoldable pub check_port_finish : ℕ → Bool → Server svc → Server svc × Option Verdict
  unfolding forget_check
  check_port_finish id expired s =
      if expired
      then (forget_check id s, some timed_out)
      else elim (lookup id s.pending_port_checks) [
        | none ↦ (s, none)
        | some none ↦ (s, none)
        | some (some result) ↦ (forget_check id s, some (answered result.available result.error))
      ]
