-- ===== src/Hub/Checks.antt =====
-- ws_server.go: a port check from its question to its answer.
use message_boy.Base.{
  ℕ, ◌+◌, ◌%◌, ◌≡◌, refl, true, false, none, some, arith, Bytes, nat_eq, lookup, insert,
  lookup-insert, lookup-delete, is_empty, beq_refl,
}
use message_boy.Wire.{TunnelMessage}
use message_boy.Hub.{Services, Server, PortCheckResult, send_msg_to_client}
use message_boy.Hub.PortCheck.{
  answered, timed_out, waiting, forget_check, check_port_start, handle_port_check_result,
  check_port_finish,
}

abbrev result_of : TunnelMessage → PortCheckResult
result_of m = record { available = is_empty m.error; error = m.error }

module _ {svc : Services} where
  pending_started :
      (client addr rule : Bytes) (s t : Server svc) (id : ℕ)
      → check_port_start client addr rule s ≡ (t, waiting id)
      → lookup id t.pending_port_checks ≡ some none
  unfolding check_port_start send_msg_to_client forget_check
  pending_started client addr rule s t id e =
      ground (
        arith,
        lookup-insert ((s.port_check_next_id + 1) % 4294967296) id none s.pending_port_checks,
      )

  first_result :
      (m : TunnelMessage) (s : Server svc)
      → lookup m.stream_id s.pending_port_checks ≡ some none
      → handle_port_check_result m s ≡ record s {
        pending_port_checks = insert m.stream_id (some (result_of m)) s.pending_port_checks;
      }
  unfolding handle_port_check_result
  first_result m s e = rw (e, handle_port_check_result) refl

  later_result :
      (m : TunnelMessage) (s : Server svc) (x : PortCheckResult)
      → lookup m.stream_id s.pending_port_checks ≡ some (some x)
      → handle_port_check_result m s ≡ s
  unfolding handle_port_check_result
  later_result m s x e = rw (e, handle_port_check_result) refl

  finish_answered :
      (id : ℕ) (s : Server svc) (x : PortCheckResult)
      → lookup id s.pending_port_checks ≡ some (some x)
      → check_port_finish id false s ≡ (forget_check id s, some (answered x.available x.error))
  unfolding check_port_finish
  finish_answered id s x e = rw (e, check_port_finish) refl

  -- A port check that waits gets the first answer to its request, whatever a second answer says, and
  -- its request is forgotten afterwards: the port is available exactly if the answer has no error text.
  pub check_port_first_answer :
      (client addr rule : Bytes) (s t : Server svc) (m n : TunnelMessage)
      → check_port_start client addr rule s ≡ (t, waiting m.stream_id)
      → n.stream_id ≡ m.stream_id
      → let x =
          check_port_finish m.stream_id false
            (handle_port_check_result n (handle_port_check_result m t)) in
        (x.1 ≡ some (answered (is_empty m.error) m.error))
        × (lookup m.stream_id x.0.pending_port_checks ≡ none)
  unfolding forget_check
  check_port_first_answer client addr rule s t m n e same =
      let pending = pending_started client addr rule s t m.stream_id e in
      let got = handle_port_check_result m t in
      let stored : lookup m.stream_id got.pending_port_checks ≡ some (some (result_of m)) =
        rw (first_result m t pending, lookup-insert, beq_refl m.stream_id) refl in
      let ignored = later_result n got (result_of m) (rw (same) stored) in
      let done = finish_answered m.stream_id got (result_of m) stored in
      rw (ignored, done)
        (
          refl,
          rw (lookup-delete m.stream_id m.stream_id got.pending_port_checks, beq_refl m.stream_id)
              refl,
        )

  -- When the timer fires first, the check ends without an answer, and an answer that comes late changes
  -- nothing.
  pub check_port_timed_out :
      (id : ℕ) (s : Server svc) (m : TunnelMessage)
      → m.stream_id ≡ id
      → let x = check_port_finish id true s in
        (x.1 ≡ some timed_out) × (handle_port_check_result m x.0 ≡ x.0)
  unfolding check_port_finish forget_check handle_port_check_result
  check_port_timed_out id s m same = (
    refl,
    rw (same, lookup-delete id id s.pending_port_checks, handle_port_check_result, beq_refl id)
        refl,
  )
