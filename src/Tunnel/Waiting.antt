-- ===== src/Tunnel/Waiting.antt =====
-- relay_forwarder.go, waitForConnAck, with the stream that it waits on: what the `select` finds while
-- messages arrive for the stream.
use message_boy.Base.{List, [], ◌∷◌, Bytes, if◌then◌else◌}
use message_boy.Wire.{TunnelMessage}
use message_boy.Tunnel.{Signal, timed_out, closed, received}
use message_boy.Tunnel.Flow.{Flow, arrived}

-- A message for the stream arrives; or the `select` takes the channel, `CloseCh` or the timer.
pub data Wait : Type 0 where
  arrives : TunnelMessage → Wait
  takes : Wait
  sees_close : Wait
  sees_timeout : Wait

-- The first item of the channel, if there is one, and what is found behind it.
unfoldable pub first_of : List Bytes → (List Bytes → List Signal) → List Signal → List Signal
first_of [] rest none_yet = none_yet
first_of (b ∷ chan) rest none_yet = received b ∷ rest chan

-- What the `select` finds, in its order; a choice that is not ready is no step.
unfoldable pub signals : List Wait → Flow → List Signal
unfolding first_of arrived
signals [] f = []
signals (arrives m ∷ es) f = signals es (arrived m f)
signals (takes ∷ es) f =
    first_of f.stream.data_ch
      (λ chan. signals es (record f { stream = record f.stream { data_ch = chan } })) (signals es f)
signals (sees_close ∷ es) f =
    let rest = signals es f in if f.stream.closed then closed ∷ rest else rest
signals (sees_timeout ∷ es) f = timed_out ∷ signals es f

abbrev pub arrivals_of : List Wait → List TunnelMessage
arrivals_of [] = []
arrivals_of (arrives m ∷ es) = m ∷ arrivals_of es
arrivals_of (takes ∷ es) = arrivals_of es
arrivals_of (sees_close ∷ es) = arrivals_of es
arrivals_of (sees_timeout ∷ es) = arrivals_of es
