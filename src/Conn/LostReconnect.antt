-- ===== src/Conn/LostReconnect.antt =====
-- ws_client.go: a connection that is down for good, and one that should not be.
use mathlib.Core.Path.{subst}
use message_boy.Base.{
  ℕ, ◌≡◌, refl, sym, ap, ◌∙◌, Bool, true, false, ◌&&◌, not, List, [], ◌∷◌, Option, none, some, All,
  ltb, if_case,
}
use message_boy.Conn.Reconnect.{
  Loop, waiting, leaving, Conn, new_conn, loop_at, put, ConnectResult, connect_ok, dial_failed,
  conn_closed, already_connected, connect, start_loop, swap, handle_disconnect, after_attempt,
  try_again, wake, cancel, leave, close, Event, connects, disconnects, swaps, wakes, cancels,
  leaves, closes, step, run,
}

-- Closed and not connected.
abbrev pub IsDown : Conn → Type 0
IsDown c = (c.closed ≡ true) × (c.connected ≡ false)

connect_closed : (dialed : Bool) (c : Conn) → c.closed ≡ true → connect dialed c ≡ (c, conn_closed)
unfolding connect
connect_closed dialed c h = simp h refl

after_attempt-IsDown :
    (i b : ℕ) (x : Conn × ConnectResult) → IsDown x.0 → IsDown (after_attempt i b x)
unfolding after_attempt
after_attempt-IsDown i b (c, connect_ok) v = v
after_attempt-IsDown i b (c, dial_failed) v = v
after_attempt-IsDown i b (c, conn_closed) v = v
after_attempt-IsDown i b (c, already_connected) v = v

connect-IsDown : (dialed : Bool) (c : Conn) → IsDown c → IsDown (connect dialed c).0
connect-IsDown dialed c v = subst (λ x. IsDown x.0) (sym (connect_closed dialed c v.0)) v

wake-IsDown :
    (dialed : Bool) (i : ℕ) (o : Option Loop) (c : Conn) → IsDown c → IsDown (wake dialed i o c)
unfolding wake try_again
wake-IsDown dialed i none c v = v
wake-IsDown dialed i (some leaving) c v = v
wake-IsDown dialed i (some (waiting b)) c v =
    if_case IsDown c.closed _ _ v
      (after_attempt-IsDown i b (connect dialed c) (connect-IsDown dialed c v))

cancel-IsDown : (i : ℕ) (o : Option Loop) (c : Conn) → IsDown c → IsDown (cancel i o c)
unfolding cancel
cancel-IsDown i none c v = v
cancel-IsDown i (some leaving) c v = v
cancel-IsDown i (some (waiting b)) c v = if_case IsDown c.closed _ _ v v

leave-IsDown : (i : ℕ) (o : Option Loop) (c : Conn) → IsDown c → IsDown (leave i o c)
unfolding leave
leave-IsDown i none c v = v
leave-IsDown i (some leaving) c v = v
leave-IsDown i (some (waiting b)) c v = v

swap-IsDown : (c : Conn) → IsDown c → IsDown (swap c)
unfolding swap start_loop
swap-IsDown c v = if_case IsDown (ltb 0 c.swapping) _ _ (if_case IsDown c.reconnecting _ _ v v) v

step-IsDown : (e : Event) (c : Conn) → IsDown c → IsDown (step e c)
unfolding step handle_disconnect close
step-IsDown (connects dialed) c v = connect-IsDown dialed c v
step-IsDown disconnects c v =
    if_case IsDown (c.connected && c.reconnect && not c.closed) _ _ (v.0, refl) (v.0, refl)
step-IsDown swaps c v = swap-IsDown c v
step-IsDown (wakes i dialed) c v = wake-IsDown dialed i (loop_at i c.loops) c v
step-IsDown (cancels i) c v = cancel-IsDown i (loop_at i c.loops) c v
step-IsDown (leaves i) c v = leave-IsDown i (loop_at i c.loops) c v
step-IsDown closes c v = if_case IsDown c.closed _ _ v (refl, v.1)

-- A connection that is closed and down stays so, whatever is tried: neither Connect nor a loop that was
-- waiting brings it up again.
pub run-IsDown : (es : List Event) (c : Conn) → IsDown c → IsDown (run es c)
unfolding run
run-IsDown [] c v = v
run-IsDown (e ∷ es) c v = run-IsDown es (step e c) (step-IsDown e c v)

-- The connection comes up in the loop and breaks before the loop's deferred store.
abbrev pub short_reconnect : List Event
short_reconnect =
    connects true ∷ disconnects ∷ swaps ∷ wakes 0 true ∷ disconnects ∷ swaps ∷ leaves 0 ∷ []

-- The events that the connection causes itself.
abbrev pub IsOwn : Event → Type 0
IsOwn (connects dialed) = ⊥
IsOwn disconnects = Unit
IsOwn swaps = Unit
IsOwn (wakes i dialed) = Unit
IsOwn (cancels i) = Unit
IsOwn (leaves i) = Unit
IsOwn closes = ⊥

own_step : (e : Event) → IsOwn e → step e new_conn ≡ new_conn
unfolding step handle_disconnect swap wake cancel leave loop_at
own_step (connects dialed) h = elim h [ ]
own_step closes h = elim h [ ]
own_step disconnects h = refl
own_step swaps h = refl
own_step (wakes i dialed) h = refl
own_step (cancels i) h = refl
own_step (leaves i) h = refl

-- A connection that comes back in the loop and breaks again before the loop has ended is left without a
-- loop: it is neither closed nor connected, is meant to reconnect, and nothing that it does itself
-- changes that any more.
pub lost_reconnect :
    (es : List Event)
    → All IsOwn es
    → (run short_reconnect new_conn ≡ new_conn) × (run es (run short_reconnect new_conn) ≡ new_conn)
unfolding run step connect handle_disconnect swap start_loop wake try_again after_attempt leave
    loop_at put
lost_reconnect es h = (refl, stuck es h)
  where
    stuck : (es : List Event) → All IsOwn es → run es new_conn ≡ new_conn
    stuck [] h = refl
    stuck (e ∷ es) h = ap (run es) (own_step e h.0) ∙ stuck es h.1
