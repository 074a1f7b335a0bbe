-- ===== src/Hub/StepTests.antt =====
-- The theorems about the server's steps and about port checks, with two clients.
use message_boy.Base.{
  ◌≡◌, refl, true, false, [], ◌∷◌, ◌++◌, none, some, arith, Bytes, codes, bytes_eq, nat_eq, lookup,
  insert, str_eq, is_empty, IsByte, All,
}
use message_boy.Wire.{
  TunnelMessage, bare_message, msg_type_check_port_result, calc_payload_size, payload_size, shape,
}
use message_boy.Wire.RoundTrip.{frame}
use message_boy.Hub.{Server, send_msg, send_msg_to_client, deliver, send_to_ref, is_client_online}
use message_boy.Hub.Lifecycle.{accept, receive}
use message_boy.Hub.PortCheck.{
  answered, waiting, check_msg, check_port_start, handle_port_check_result, check_port_finish,
}
use message_boy.Hub.Sending.{send_msg_queued}
use message_boy.Hub.Routes.{IsKeyed}
use message_boy.Hub.Run.{new_server, accepted, received, Reachable, start, next, Reachable-IsKeyed}
use message_boy.Hub.Checks.{check_port_first_answer}
use message_boy.Hub.Tests.{zeros, counting, alice, bob, client_of, idle}

-- A Connect to bob on stream 2, as bytes.
abbrev connect_bytes : Bytes
connect_bytes = 1 ∷ 0 ∷ 0 ∷ 0 ∷ 2 ∷ 0 ∷ 0 ∷ 0 ∷ 7 ∷ 0 ∷ 0 ∷ 0 ∷ 0 ∷ 98 ∷ 111 ∷ 98 ∷ []

abbrev empty_server : Server counting
empty_server = new_server (some 0) (some 0)

abbrev with_alice : Server counting
with_alice = (accept alice empty_server).0

abbrev with_both : Server counting
with_both = (accept bob with_alice).0

reach_alice : Reachable with_alice
reach_alice = next (start (some 0) (some 0)) (accepted alice empty_server)

connect_bytes-IsByte : All IsByte connect_bytes
connect_bytes-IsByte = ground arith

Reachable-IsKeyed_example : IsKeyed (receive alice connect_bytes with_both).routes
Reachable-IsKeyed_example = Reachable-IsKeyed (
    next (next reach_alice (accepted bob with_alice))
      (received alice connect_bytes with_both connect_bytes-IsByte))

abbrev asked : Server counting
asked = record idle {
  conns =
      (
        0,
        record (client_of alice) { send_ch = frame (check_msg 1 (codes ":80") (codes "r1")) ∷ [] },
      )
      ∷ (1, client_of bob)
      ∷ [];
  pending_port_checks = (1, none) ∷ [];
  port_check_next_id = 1;
}

abbrev answer_msg : Bytes → TunnelMessage
answer_msg text = record (bare_message msg_type_check_port_result 1) { error = text }

sent_check : send_msg zeros (check_msg 1 (codes ":80") (codes "r1")) (client_of alice) ≡ (
  record (client_of alice) { send_ch = [] ++ frame (check_msg 1 (codes ":80") (codes "r1")) ∷ [] },
  true,
)
unfolding calc_payload_size payload_size shape
sent_check =
    send_msg_queued zeros (check_msg 1 (codes ":80") (codes "r1")) (client_of alice) refl
      (omega arith) (omega arith, omega arith) (omega arith)

asked-waiting : check_port_start alice (codes ":80") (codes "r1") idle ≡ (asked, waiting 1)
unfolding check_port_start send_msg_to_client deliver send_to_ref is_client_online lookup insert
    str_eq
asked-waiting = rw sent_check refl

check_port_first_answer_example :
    let x = check_port_finish 1 false (
      handle_port_check_result
        (answer_msg (codes "busy"))
        (handle_port_check_result (answer_msg []) asked)) in
    (x.1 ≡ some (answered (is_empty []) [])) × (lookup 1 x.0.pending_port_checks ≡ none)
check_port_first_answer_example =
    check_port_first_answer alice (codes ":80") (codes "r1") idle asked (answer_msg [])
      (answer_msg (codes "busy")) asked-waiting refl
