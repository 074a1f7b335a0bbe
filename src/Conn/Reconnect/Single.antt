-- ===== src/Conn/Reconnect/Single.antt =====
-- ws_client.go, reconnectLoop: how many loops there can be, and how long they wait.
use message_boy.Base.{ℕ, ◌≤◌, ◌≡◌, Bool, true, false, List, [], ◌∷◌, some}
use message_boy.Conn.Reconnect.{Loop, waiting, leaving, Conn, loop_at, ConnectResult}

-- The delay is in range.
abbrev pub IsInRange : Loop → Type 0
IsInRange (waiting b) = (1 ≤ b) × (b ≤ 60)
IsInRange leaving = Unit

-- There is one loop while the flag is set, and none while it is not.
abbrev pub IsSingle : List Loop → Bool → Type 0
IsSingle [] flag = flag ≡ false
IsSingle (l ∷ []) flag = (flag ≡ true) × IsInRange l
IsSingle (l ∷ l' ∷ ls) flag = ⊥

abbrev pub IsGood : Conn → Type 0
IsGood c = IsSingle c.loops c.reconnecting

abbrev IsGoodAfter : Conn × ConnectResult → Type 0
IsGoodAfter x = IsGood x.0

-- A connection attempt touches no loop.
abbrev Finds : ℕ → Loop → Conn × ConnectResult → Type 0
Finds i l x = (loop_at i x.0.loops ≡ some l) × IsGood x.0
