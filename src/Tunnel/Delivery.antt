-- ===== src/Tunnel/Delivery.antt =====
-- relay_forwarder.go, forwardFromTunnel: what of a stream's data reaches the TCP connection, for every
-- order of arrivals and of choices of the `select`.
use message_boy.Base.{
  ◌+◌, ◌≡◌, ◌⊎◌, inl, inr, refl, sym, ap, ◌∙◌, arith, Bool, true, false, not, ◌&&◌, Bool-cases,
  List, [], ◌∷◌, ◌++◌, append-nil, append_assoc, Bytes, if_case, if_elim,
}
use message_boy.Wire.{TunnelMessage}
use message_boy.Stream.{Stream, close_stream}
use message_boy.Tunnel.Flow.{
  on_message, Flow, Event, arrive, take_data, take_close, close_here, arrived, taken, step, run,
  start,
}
use message_boy.Tunnel.Taking.{
  queued, queued_by, all_queued, total, total-append, Takes, on_message-Takes,
}

-- What has come so far is what was delivered, what was taken and lost, what is in the channel, and
-- what was not taken in; the last is empty as long as the stream takes more, and nothing is lost as
-- long as the loop runs.
record IsInOrder (seen : List Bytes) (f : Flow) : Type 0 where
  lost : List Bytes
  rest : List Bytes
  order : f.delivered ++ (lost ++ (f.stream.data_ch ++ rest)) ≡ seen
  counted : f.bytes_in ≡ total f.delivered + total lost
  kept : f.running ≡ true → lost ≡ []
  complete : f.registered && not f.stream.closed ≡ true → rest ≡ []

ruleset lists = (append_assoc, append-nil)

-- Another item at the end of what was seen, which the channel takes or not.
extend :
    {A : Type 0} (d l c r q seen : List A)
    → d ++ (l ++ (c ++ r)) ≡ seen
    → d ++ (l ++ (c ++ (r ++ q))) ≡ seen ++ q
extend d l c r q seen e = rw (← e) (simp lists)

take_in :
    {A : Type 0} (d l c q seen : List A)
    → d ++ (l ++ (c ++ [])) ≡ seen
    → d ++ (l ++ ((c ++ q) ++ [])) ≡ seen ++ q
take_in d l c q seen e = rw (← e) (simp lists)

registered-IsInOrder :
    (seen : List Bytes) (m : TunnelMessage) (f : Flow) (o : Stream × Bool)
    → f.registered ≡ true
    → Takes (queued m) f.stream o
    → IsInOrder seen f
    → IsInOrder (seen ++ queued m) (record f { stream = o.0; registered = o.1 })
registered-IsInOrder seen m f (y, reg) here (inl (chan, live)) v =
    let nothing : v.rest ≡ [] = v.complete (rw (here, live) refl) in
    record {
      lost = v.lost;
      rest = [];
      order = rw chan (
          take_in f.delivered v.lost f.stream.data_ch (queued m) seen
            (ap (λ r. f.delivered ++ (v.lost ++ (f.stream.data_ch ++ r))) (sym nothing) ∙ v.order));
      counted = v.counted;
      kept = v.kept;
      complete = λ h. refl;
    }
registered-IsInOrder seen m f (y, reg) here (inr (chan, inl shut)) v = record {
  lost = v.lost;
  rest = v.rest ++ queued m;
  order = rw chan (extend f.delivered v.lost f.stream.data_ch v.rest (queued m) seen v.order);
  counted = v.counted;
  kept = v.kept;
  complete = λ h. absurd (cc);
}
registered-IsInOrder seen m f (y, reg) here (inr (chan, inr (nothing, same))) v = record {
  lost = v.lost;
  rest = v.rest ++ queued m;
  order = rw chan (extend f.delivered v.lost f.stream.data_ch v.rest (queued m) seen v.order);
  counted = v.counted;
  kept = v.kept;
  complete = λ h.
      let live : f.registered && not f.stream.closed ≡ true = ground arith in
      rw (nothing, v.complete live) refl;
}

arrived-IsInOrder :
    (seen : List Bytes) (m : TunnelMessage) (f : Flow)
    → IsInOrder seen f
    → IsInOrder (seen ++ queued m) (arrived m f)
unfolding arrived
arrived-IsInOrder seen m f v = elim (Bool-cases f.registered) [
  | inl here ↦
      rw here
        (registered-IsInOrder seen m f (on_message m f.stream) here (on_message-Takes m f.stream) v)
  | inr gone ↦ rw gone (record {
    lost = v.lost;
    rest = v.rest ++ queued m;
    order = extend f.delivered v.lost f.stream.data_ch v.rest (queued m) seen v.order;
    counted = v.counted;
    kept = v.kept;
    complete = λ h. absurd (cc);
  })
]

-- The head of the channel stands behind what was delivered, while the loop runs.
front :
    (seen c : List Bytes) (b : Bytes) (f : Flow)
    → f.running ≡ true
    → f.stream.data_ch ≡ b ∷ c
    → (v : IsInOrder seen f) → f.delivered ++ b ∷ (c ++ v.rest) ≡ seen
front seen c b f live chan v =
    ap (λ ch. f.delivered ++ (ch ++ v.rest)) (sym chan)
    ∙ ap (λ l. f.delivered ++ (l ++ (f.stream.data_ch ++ v.rest))) (sym (v.kept live))
    ∙ v.order

pub close_stream-shut :
    (x : Stream) → ((close_stream x).data_ch ≡ x.data_ch) × ((close_stream x).closed ≡ true)
unfolding close_stream
close_stream-shut x = ground arith

taken-IsInOrder :
    (seen : List Bytes) (ok : Bool) (c : List Bytes) (f : Flow)
    → f.running ≡ true
    → f.stream.data_ch ≡ c
    → IsInOrder seen f
    → IsInOrder seen (taken ok c f)
unfolding taken
taken-IsInOrder seen ok [] f live chan v = v
taken-IsInOrder seen true (b ∷ c) f live chan v = record {
  lost = [];
  rest = v.rest;
  order = append_assoc f.delivered (b ∷ []) (c ++ v.rest) ∙ front seen c b f live chan v;
  counted =
      let nothing = ap total (v.kept live) in
      omega (arith, total-append f.delivered (b ∷ []), v.counted);
  kept = λ h. refl;
  complete = v.complete;
}
taken-IsInOrder seen false (b ∷ c) f live chan v =
    let (same, shut) = close_stream-shut (record f.stream { data_ch = c }) in
    record {
      lost = b ∷ [];
      rest = v.rest;
      order = rw same (front seen c b f live chan v);
      counted = let nothing = ap total (v.kept live) in omega (arith, v.counted);
      kept = λ h. absurd (cc);
      complete = λ h. absurd (ground (arith, h, shut));
    }

step-IsInOrder :
    (seen : List Bytes) (e : Event) (f : Flow)
    → IsInOrder seen f
    → IsInOrder (seen ++ queued_by e) (step e f)
unfolding step
step-IsInOrder seen (arrive m) f v = arrived-IsInOrder seen m f v
step-IsInOrder seen (take_data ok) f v = rw (append-nil seen) (
    if_elim (IsInOrder seen) f.running (taken ok f.stream.data_ch f) f
      (λ live. taken-IsInOrder seen ok f.stream.data_ch f live refl v) (λ ended. v))
step-IsInOrder seen take_close f v = rw (append-nil seen) (
    if_case (IsInOrder seen) f.running _ f
      (if_case (IsInOrder seen) f.stream.closed (record f { running = false }) f
        (record {
          lost = v.lost;
          rest = v.rest;
          order = v.order;
          counted = v.counted;
          kept = λ h. absurd (cc);
          complete = v.complete;
        })
        v)
      v)
step-IsInOrder seen close_here f v =
    let (same, shut) = close_stream-shut f.stream in
    rw (append-nil seen) (record {
      lost = v.lost;
      rest = v.rest;
      order = ap (λ c. f.delivered ++ (v.lost ++ (c ++ v.rest))) same ∙ v.order;
      counted = v.counted;
      kept = v.kept;
      complete = λ h. absurd (ground (arith, h, shut));
    })

run-IsInOrder :
    (es : List Event) (seen : List Bytes) (f : Flow)
    → IsInOrder seen f
    → IsInOrder (seen ++ all_queued es) (run es f)
unfolding run
run-IsInOrder [] seen f v = rw (append-nil seen) v
run-IsInOrder (e ∷ es) seen f v =
    rw (← append_assoc seen (queued_by e) (all_queued es))
      (run-IsInOrder es (seen ++ queued_by e) (step e f) (step-IsInOrder seen e f v))

-- Whatever arrives for a new stream, whatever the `select` chooses and whenever the stream's other loop
-- closes it, what was written to the TCP connection is the beginning of what came for the stream, in
-- its order; and as long as the loop runs the traffic counter has been given the bytes that were
-- written.
pub run_in_order :
    (es : List Event) (s : Stream)
    → s.data_ch ≡ []
    → ((rest : List Bytes) × ((run es (start s)).delivered ++ rest ≡ all_queued es))
      × ((run es (start s)).running ≡ false
          ⊎ ((run es (start s)).bytes_in ≡ total (run es (start s)).delivered))
run_in_order es s empty =
    let v = run-IsInOrder es [] (start s) (record {
      lost = [];
      rest = [];
      order = rw empty refl;
      counted = refl;
      kept = λ h. refl;
      complete = λ h. refl;
    }) in
    let f = run es (start s) in
    (
      (v.lost ++ (f.stream.data_ch ++ v.rest), v.order),
      elim (Bool-cases f.running) [
        | inr ended ↦ inl ended
        | inl live ↦ inr (let nothing = ap total (v.kept live) in omega (arith, v.counted))
      ],
    )
