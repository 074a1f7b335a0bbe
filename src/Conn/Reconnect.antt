-- ===== src/Conn/Reconnect.antt =====
-- ws_client.go, Connect, handleDisconnect, reconnectLoop and Close: the connection's states. Each step is
-- one stretch of the source under the lock, one atomic operation, or what lies between two calls that
-- may block. Any number of loops can be there; that there is one at most is not built in.
pub mod Single
use message_boy.Base.{
  ℕ, zero, suc, ◌+◌, ◌-◌, ◌*◌, Bool, true, false, ◌&&◌, not, List, [], ◌∷◌, ◌++◌, Option, none,
  some, ltb, if◌then◌else◌,
}

-- A goroutine `reconnectLoop`: waiting for so many seconds, or on its way out, before its deferred
-- store.
pub data Loop : Type 0 where
  waiting : ℕ → Loop
  leaving : Loop

-- `swapping` counts the calls of `handleDisconnect` that have left the lock and stand before their
-- compare-and-swap.
pub record Conn : Type 0 where
  pub connected : Bool
  pub closed : Bool
  pub reconnect : Bool
  pub reconnecting : Bool
  pub swapping : ℕ
  pub loops : List Loop

abbrev pub new_conn : Conn
new_conn = record {
  connected = false;
  closed = false;
  reconnect = true;
  reconnecting = false;
  swapping = 0;
  loops = [];
}

-- The i-th loop, and the loops with others in its place.
unfoldable pub loop_at : ℕ → List Loop → Option Loop
loop_at i [] = none
loop_at zero (l ∷ ls) = some l
loop_at (suc i) (l ∷ ls) = loop_at i ls

unfoldable pub put : ℕ → List Loop → List Loop → List Loop
put i new [] = []
put zero new (l ∷ ls) = new ++ ls
put (suc i) new (l ∷ ls) = l ∷ put i new ls

pub data ConnectResult : Type 0 where
  connect_ok dial_failed conn_closed already_connected : ConnectResult

-- `Connect`, with whether the dial succeeds; the second look at the state, behind the dial, decides.
unfoldable pub connect : Bool → Conn → Conn × ConnectResult
connect dialed c =
    if c.closed
    then (c, conn_closed)
    else if c.connected
    then (c, already_connected)
    else if dialed
    then (record c { connected = true }, connect_ok)
    else (c, dial_failed)

-- What `handleDisconnect` does under the lock.
unfoldable pub handle_disconnect : Conn → Conn
handle_disconnect c =
    let c' = record c { connected = false } in
    if c.connected && c.reconnect && not c.closed
    then record c' { swapping = c.swapping + 1 }
    else c'

-- The compare-and-swap of one call, and the start of a loop where it succeeds.
unfoldable pub start_loop : Conn → Conn
start_loop c =
    if c.reconnecting then c else record c { reconnecting = true; loops = waiting 1 ∷ c.loops }

unfoldable pub swap : Conn → Conn
unfolding start_loop
swap c = if ltb 0 c.swapping then start_loop (record c { swapping = c.swapping - 1 }) else c

abbrev pub next_backoff : ℕ → ℕ
next_backoff b = if ltb 60 (b * 2) then 60 else b * 2

abbrev pub with_loop : ℕ → Loop → Conn → Conn
with_loop i l c = record c { loops = put i (l ∷ []) c.loops }

unfoldable pub after_attempt : ℕ → ℕ → Conn × ConnectResult → Conn
after_attempt i b (c, connect_ok) = with_loop i leaving c
after_attempt i b (c, dial_failed) = with_loop i (waiting (next_backoff b)) c
after_attempt i b (c, conn_closed) = with_loop i (waiting (next_backoff b)) c
after_attempt i b (c, already_connected) = with_loop i (waiting (next_backoff b)) c

-- The timer has fired: the loop looks at `closed` and tries again.
unfoldable pub try_again : Bool → ℕ → ℕ → Conn → Conn
unfolding connect after_attempt
try_again dialed i b c =
    if c.closed then with_loop i leaving c else after_attempt i b (connect dialed c)

unfoldable pub wake : Bool → ℕ → Option Loop → Conn → Conn
unfolding try_again
wake dialed i none c = c
wake dialed i (some leaving) c = c
wake dialed i (some (waiting b)) c = try_again dialed i b c

-- The loop meets the closed channel while it waits.
unfoldable pub cancel : ℕ → Option Loop → Conn → Conn
cancel i none c = c
cancel i (some leaving) c = c
cancel i (some (waiting b)) c = if c.closed then with_loop i leaving c else c

-- The deferred store, and the end of the goroutine.
unfoldable pub leave : ℕ → Option Loop → Conn → Conn
leave i none c = c
leave i (some (waiting b)) c = c
leave i (some leaving) c = record c { reconnecting = false; loops = put i [] c.loops }

unfoldable pub close : Conn → Conn
close c = if c.closed then c else record c { closed = true; reconnect = false }

-- The steps of loops name the loop by its place.
pub data Event : Type 0 where
  connects : Bool → Event
  disconnects : Event
  swaps : Event
  wakes : ℕ → Bool → Event
  cancels : ℕ → Event
  leaves : ℕ → Event
  closes : Event

unfoldable pub step : Event → Conn → Conn
unfolding connect handle_disconnect swap wake cancel leave close loop_at
step (connects dialed) c = (connect dialed c).0
step disconnects c = handle_disconnect c
step swaps c = swap c
step (wakes i dialed) c = wake dialed i (loop_at i c.loops) c
step (cancels i) c = cancel i (loop_at i c.loops) c
step (leaves i) c = leave i (loop_at i c.loops) c
step closes c = close c

unfoldable pub run : List Event → Conn → Conn
unfolding step
run [] c = c
run (e ∷ es) c = run es (step e c)
