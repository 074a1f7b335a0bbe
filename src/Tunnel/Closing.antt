-- ===== src/Tunnel/Closing.antt =====
-- relay_forwarder.go, forwardFromTunnel: a Close while data waits in the channel of the stream.
use message_boy.Base.{
  ◌≡◌, refl, sym, ap, ◌∙◌, arith, true, false, List, [], ◌∷◌, ◌++◌, append-nil, append_assoc, Bytes,
  if_elim, length, replicate,
}
use message_boy.Wire.{TunnelMessage, msg_type_close}
use message_boy.Stream.{close_stream}
use message_boy.Tunnel.Delivery.{close_stream-shut}
use message_boy.Tunnel.Flow.{
  on_message, Flow, Event, arrive, take_data, take_close, close_here, arrived, taken, step, run,
}

abbrev IsOver : List Bytes → Flow → Type 0
IsOver d f = (f.running ≡ false) × (f.delivered ≡ d)

step-IsOver : (d : List Bytes) (e : Event) (f : Flow) → IsOver d f → IsOver d (step e f)
unfolding step arrived
step-IsOver d (arrive m) f h = if_elim (IsOver d) f.registered _ f (λ here. h) (λ gone. h)
step-IsOver d (take_data ok) f h =
    if_elim (IsOver d) f.running _ f (λ live. absurd (cc)) (λ ended. h)
step-IsOver d take_close f h = if_elim (IsOver d) f.running _ f (λ live. absurd (cc)) (λ ended. h)
step-IsOver d close_here f h = h

run_over : (d : List Bytes) (es : List Event) (f : Flow) → IsOver d f → (run es f).delivered ≡ d
unfolding run
run_over d [] f h = h.1
run_over d (e ∷ es) f h = run_over d es (step e f) (step-IsOver d e f h)

-- Taking the channel as often as it is long empties it.
pub drain :
    (c : List Bytes) (f : Flow)
    → f.running ≡ true
    → f.stream.data_ch ≡ c
    → (run (replicate (length c) (take_data true)) f).delivered ≡ f.delivered ++ c
unfolding run step taken
drain [] f live chan = sym (append-nil f.delivered)
drain (b ∷ c) f live chan =
    ap (λ g. (run (replicate (length c) (take_data true)) g).delivered) (one f b c live chan)
    ∙ drain c (taken true (b ∷ c) f) live refl
    ∙ append_assoc f.delivered (b ∷ []) c
  where
    one :
        (g : Flow) (x : Bytes) (xs : List Bytes)
        → g.running ≡ true
        → g.stream.data_ch ≡ x ∷ xs
        → step (take_data true) g ≡ taken true (x ∷ xs) g
    one g x xs on ch =
        if_elim (λ y. y ≡ taken true (x ∷ xs) g) g.running _ g
          (λ live'. ap (λ l. taken true l g) ch) (λ off. absurd (cc))

closed_by :
    (m : TunnelMessage) (f : Flow)
    → m.type ≡ msg_type_close
    → f.registered ≡ true
    → arrived m f ≡ record f { stream = close_stream f.stream; registered = false }
unfolding arrived on_message
closed_by m f e here = ground arith

-- A Close arrives while data waits in the channel. If the `select` takes `CloseCh` at once, nothing
-- of that data ever reaches the TCP connection; if it takes the channel first, all of it does.
pub close_races :
    (m : TunnelMessage) (f : Flow) (es : List Event)
    → m.type ≡ msg_type_close
    → f.registered ≡ true
    → f.running ≡ true
    → ((run (arrive m ∷ take_close ∷ es) f).delivered ≡ f.delivered)
      × ((run (arrive m ∷ replicate (length f.stream.data_ch) (take_data true)) f).delivered
          ≡ f.delivered ++ f.stream.data_ch)
unfolding run step
close_races m f es e here live =
    let closed = record f { stream = close_stream f.stream; registered = false } in
    (
      ap (λ g. (run es (step take_close g)).delivered) (closed_by m f e here)
          ∙ run_over f.delivered es (step take_close closed) (
              if_elim (IsOver f.delivered) closed.running _ closed
                (λ on.
                  if_elim (IsOver f.delivered) closed.stream.closed
                    (record closed { running = false }) closed (λ shut. (refl, refl))
                    (λ free. absurd (cc ((close_stream-shut f.stream).1))))
                (λ off. absurd (cc))),
      ap (λ g. (run (replicate (length f.stream.data_ch) (take_data true)) g).delivered)
            (closed_by m f e here)
          ∙ drain f.stream.data_ch closed live (close_stream-shut f.stream).0,
    )
