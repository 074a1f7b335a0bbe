-- ===== src/Tunnel/Tests.antt =====
-- Streams, relayed data, the copy loop and the registration at concrete inputs.
use message_boy.Base.{
  ℕ, Option, ◌≤◌, ◌≡◌, ◌⊎◌, refl, sym, arith, true, false, List, [], ◌∷◌, ◌++◌, some, Bytes, codes,
  ◌==◌, none, length, drop, replicate, length-replicate, All, lookup, insert,
}
use message_boy.Wire.{TunnelMessage, bare_message, msg_type_conn_ack, msg_type_close}
use message_boy.Wire.Pool.{BufferPool}
use message_boy.Conn.Sealing.{Cipher}
use message_boy.Stream.{StreamManager, fresh_stream, new_stream_manager, add_stream}
use message_boy.Stream.Laws.{IsWellFormed, add_stream-IsWellFormed}
use message_boy.Traffic.Counter.{new_rule_traffic}
use message_boy.Tunnel.{Tunnel, handle_tunnel_message, wait_for_conn_ack}
use message_boy.Tunnel.Flow.{Flow, Event, arrive, take_data, take_close, close_here, run, start}
use message_boy.Tunnel.Handling.{own_outcome, IsKept}
use message_boy.Tunnel.Routing.{handle_tunnel_message_lem}
use message_boy.Tunnel.Delivery.{run_in_order}
use message_boy.Tunnel.Taking.{all_queued, total}
use message_boy.Tunnel.Closing.{close_races}
use message_boy.Conn.EndToEnd.{data_message}
use message_boy.Tunnel.Waiting.{Wait, arrives, takes, sees_close, signals}
use message_boy.Tunnel.Incoming.{connected}
use message_boy.Tunnel.Incoming.Answer.{by_first, exit_answers, handshake_agrees}
use message_boy.Tunnel.Forwarding.{IsSendable, received_of, forwarded, tunnel_carries}
use message_boy.Tunnel.Copying.{
  CopyError, Round, more, eof, counted, copy_and_count, copying, all_bytes,
}
use message_boy.Tunnel.Copying.Rounds.{until_end}
use message_boy.Tunnel.Copying.Order.{copy_and_count_lem}
use message_boy.Tunnel.Retry.{
  IsOutcome, max_retries, register_with_retry, sum, register_with_retry_lem,
}

-- Two incoming streams.
abbrev streams : StreamManager
streams =
    (add_stream (fresh_stream 4 (codes "b:1"))
      (add_stream (fresh_stream 3 (codes "a:1")) new_stream_manager).0).0

no_streams-IsWellFormed : IsWellFormed new_stream_manager
no_streams-IsWellFormed = record {
  entries = λ id r h. unfold lookup in (absurd (cc h));
  allocated = λ r h. unfold lookup in refl;
}

abbrev tunnel : Tunnel
tunnel = record { streams = streams; tasks = []; stopped = false }

abbrev hello : TunnelMessage
hello = data_message 3 (codes "hello")

handle_tunnel_message_lem_example :
    IsKept 3 0
      (own_outcome hello 3 (fresh_stream 3 (codes "a:1")))
      (handle_tunnel_message hello tunnel).streams
unfolding add_stream insert lookup
handle_tunnel_message_lem_example =
    handle_tunnel_message_lem hello tunnel 3 0 (fresh_stream 3 (codes "a:1"))
      (add_stream-IsWellFormed (fresh_stream 4 (codes "b:1"))
        (add_stream (fresh_stream 3 (codes "a:1")) new_stream_manager).0
        (add_stream-IsWellFormed (fresh_stream 3 (codes "a:1")) new_stream_manager
          no_streams-IsWellFormed))
      refl refl

abbrev close_message : TunnelMessage
close_message = bare_message msg_type_close 3

-- Two pieces arrive, one is written, and the write of the other fails.
abbrev events : List Event
events =
    arrive (data_message 3 (codes "ab"))
    ∷ take_data true
    ∷ arrive (data_message 3 (codes "cde"))
    ∷ take_data false
    ∷ arrive close_message
    ∷ close_here
    ∷ take_close
    ∷ []

run_in_order_example :
    ((rest : List Bytes) × ((run events (start (fresh_stream 3 []))).delivered ++ rest
        ≡ all_queued events))
    × ((run events (start (fresh_stream 3 []))).running ≡ false
        ⊎ ((run events (start (fresh_stream 3 []))).bytes_in
            ≡ total (run events (start (fresh_stream 3 []))).delivered))
run_in_order_example = run_in_order events (fresh_stream 3 []) refl

abbrev waiting : Flow
waiting = start (record (fresh_stream 3 []) { data_ch = codes "last" ∷ codes "words" ∷ [] })

close_races_example :
    ((run (arrive close_message ∷ take_close ∷ take_data true ∷ []) waiting).delivered ≡ [])
    × ((run (arrive close_message ∷ replicate 2 (take_data true)) waiting).delivered
        ≡ codes "last" ∷ codes "words" ∷ [])
close_races_example = close_races close_message waiting (take_data true ∷ []) refl refl refl

abbrev two_chunks : List Bytes
two_chunks = codes "ab" ∷ codes "c" ∷ []

abbrev zeros : BufferPool
zeros = record { get = λ n. replicate n 0; length-get = λ n. length-replicate n 0 }

-- Tags of zeros in front of the text.
abbrev plain : Cipher
plain = record {
  seal = λ nonce text. replicate 16 0 ++ text;
  unseal = λ nonce text. some (drop 16 text);
  length-seal = λ nonce text. omega arith;
  unseal-seal = λ nonce text. refl;
}

abbrev nonces : ℕ → Bytes
nonces i = replicate 12 i

-- The second chunk comes while the first is written, and waits.
abbrev schedule : List Event
schedule =
    take_data true
    ∷ arrive (data_message 3 (codes "ab"))
    ∷ take_data true
    ∷ arrive (data_message 3 (codes "c"))
    ∷ []

tunnel_carries_example :
    (run schedule (start (fresh_stream 3 []))).delivered
      ++ (run schedule (start (fresh_stream 3 []))).stream.data_ch
    ≡ two_chunks
unfolding received_of
tunnel_carries_example =
    let sized : (i : ℕ) → length (nonces i) ≡ 12 = λ i. length-replicate 12 i in
    let fit : All IsSendable two_chunks =
      ((omega arith, omega arith), ((omega arith, omega arith), tt)) in
    tunnel_carries plain zeros nonces (codes "r1") 3 two_chunks [] (fresh_stream 3 []) schedule
      sized (omega arith) fit (omega arith) refl refl (refl, (tt, (refl, (tt, tt))))
      (sym (forwarded plain zeros nonces (codes "r1") 3 two_chunks [] [] sized (omega arith) fit))

abbrev reads : List (Option Bytes)
reads = some (codes "hi") ∷ none ∷ []

-- The acknowledgement comes, and the `select` takes the channel; the data comes later.
abbrev waits : List Wait
waits = takes ∷ sees_close ∷ arrives (bare_message msg_type_conn_ack 3) ∷ takes ∷ []

handshake_agrees_example :
    wait_for_conn_ack (signals waits (start (fresh_stream 3 [])))
    ≡ by_first true (signals waits (start (fresh_stream 3 [])))
handshake_agrees_example =
    let answers =
      exit_answers plain zeros nonces connected reads (λ sm. sm) close_message streams tt
        (omega arith) in
    handshake_agrees plain zeros nonces connected reads (λ sm. sm) close_message streams
      (fresh_stream 3 []) waits answers.0 tt (omega arith) refl refl (sym answers.1)

-- The second write is short.
abbrev rounds : List Round
rounds =
    record { bytes = codes "abc"; ending = more; written = 3; write_error = false }
    ∷ record { bytes = codes "de"; ending = eof; written = 1; write_error = false }
    ∷ []

copy_and_count_lem_example :
    ((rest : Bytes) × ((copy_and_count true rounds (copying (new_rule_traffic (codes "r1")))).sent
          ++ rest
        ≡ all_bytes (until_end rounds))
      × ((rest ≡ [])
          ⊎ ((x : CopyError) × ((copy_and_count true rounds
                  (copying (new_rule_traffic (codes "r1")))).result
                ≡ some (some x)))))
    × ((copy_and_count true rounds (copying (new_rule_traffic (codes "r1")))).total
        ≡ length (copy_and_count true rounds (copying (new_rule_traffic (codes "r1")))).sent)
    × ((copy_and_count true rounds (copying (new_rule_traffic (codes "r1")))).stat
        ≡ counted true
            (copy_and_count true rounds (copying (new_rule_traffic (codes "r1")))).total
            (new_rule_traffic (codes "r1")))
unfolding counted
copy_and_count_lem_example =
    copy_and_count_lem true (new_rule_traffic (codes "r1")) rounds (omega arith, (omega arith, tt))
      refl

register_with_retry_lem_example :
    IsOutcome
      (λ i. i == 3)
      (λ i. false)
      0
      max_retries
      (register_with_retry (λ i. i == 3) (λ i. false))
    × (sum (register_with_retry (λ i. i == 3) (λ i. false)).0 ≤ 181)
register_with_retry_lem_example = register_with_retry_lem (λ i. i == 3) (λ i. false)
