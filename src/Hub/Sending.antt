-- ===== src/Hub/Sending.antt =====
-- ws_server.go, SendMsg and SendMsgToClient: what a client's queue holds afterwards.
use message_boy.Base.{
  ℕ, ◌≤◌, ◌<◌, ◌≡◌, ◌≢◌, refl, true, false, [], ◌∷◌, ◌++◌, none, some, arith, Bytes, length, take,
  Map, nat_eq, bytes_eq, lookup, insert, lookup-insert, Option-cases, inl, inr, length-append,
}
use message_boy.Wire.{TunnelMessage, Result, ok, err, shape, max_payload_size, calc_payload_size}
use message_boy.Wire.RoundTrip.{StringsFit, frame}
use message_boy.Wire.Pool.{BufferPool, marshal_binary, marshal_binary_fits, take-marshal_binary}
use message_boy.Hub.{WsClient, send_ch_cap, send_msg, send_to_ref}

module _ (pool : BufferPool) (m : TunnelMessage) where
  -- An open connection with room in its queue takes a message within the limits, as its frame.
  pub send_msg_queued :
      (c : WsClient)
      → c.closed ≡ false
      → length c.send_ch < send_ch_cap
      → StringsFit (shape m.type) m
      → calc_payload_size m ≤ max_payload_size
      → send_msg pool m c ≡ (record c { send_ch = c.send_ch ++ frame m ∷ [] }, true)
  unfolding send_msg
  send_msg_queued c opened room hf fits =
      ground (arith, marshal_binary_fits pool m fits, take-marshal_binary pool m hf fits)

  -- Whatever is sent, the queue keeps what it held, grows by one message at most, and stays within
  -- its capacity.
  pub send_msg_bounded :
      (c : WsClient)
      → length c.send_ch ≤ send_ch_cap
      → length (send_msg pool m c).0.send_ch ≤ send_ch_cap
  unfolding send_msg
  send_msg_bounded c h = go (marshal_binary pool m) refl
    where
      go :
          (r : Result (Bytes × ℕ))
          → marshal_binary pool m ≡ r
          → length (send_msg pool m c).0.send_ch ≤ send_ch_cap
      go (ok (buf, n)) e = ground (arith, e, length-append c.send_ch (take n buf ∷ []))
      go (err e') e = ground (arith, e)

  pub send_to_ref_found :
      (r : ℕ) (conns : Map ℕ WsClient) (c : WsClient)
      → lookup r conns ≡ some c
      → send_to_ref pool m r conns ≡ (insert r (send_msg pool m c).0 conns, (send_msg pool m c).1)
  unfolding send_to_ref
  send_to_ref_found r conns c e = rw (e, send_to_ref)

  pub send_to_ref_missing :
      (r : ℕ) (conns : Map ℕ WsClient)
      → lookup r conns ≡ none
      → send_to_ref pool m r conns ≡ (conns, false)
  unfolding send_to_ref
  send_to_ref_missing r conns e = rw (e, send_to_ref)

  -- No other connection is touched.
  pub send_to_ref_other :
      (r q : ℕ) (conns : Map ℕ WsClient)
      → q ≢ r
      → lookup q (send_to_ref pool m r conns).0 ≡ lookup q conns
  send_to_ref_other r q conns ne = elim (Option-cases (lookup r conns)) [
    | inl e ↦ rw (send_to_ref_missing r conns e)
    | inr (c, e) ↦
        rw (send_to_ref_found r conns c e)
          (ground (arith, lookup-insert r q (send_msg pool m c).0 conns))
  ]
