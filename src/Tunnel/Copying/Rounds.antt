-- ===== src/Tunnel/Copying/Rounds.antt =====
-- forwarder.go, copyAndCount: what one round keeps.
use message_boy.Base.{
  ℕ, ◌+◌, ◌%◌, ◌≡◌, ◌⊎◌, inl, inr, refl, sym, ap, ◌∙◌, arith, Bool, true, false, Bool-cases, List,
  [], ◌∷◌, ◌++◌, append-nil, append_assoc, none, some, Bytes, ◌==◌, ==_iff, ltb, ltb→le, if_elim,
  length, length-append, length-take, take, drop, take_all, append-take-drop,
}
use message_boy.Traffic.Counter.{RuleTraffic}
use message_boy.Tunnel.Copying.{
  CopyError, write_failed, short_write, ReadEnd, more, eof, failed, Round, Copy, counted,
  after_write, ended, round, IsWrite,
}

-- The rounds up to the first read that ends the loop.
abbrev pub until_end : List Round → List Round
until_end [] = []
until_end (r ∷ rs) = elim r.ending [ more ↦ r ∷ until_end rs | eof ↦ r ∷ [] | failed ↦ r ∷ [] ]

-- What was sent is the beginning of what was read, all of it as long as there was no error, and the
-- counter stands further by its length.
pub record IsCopy (is_in : Bool) (s : RuleTraffic) (seen : Bytes) (c : Copy) : Type 0 where
  pub rest : Bytes
  pub order : c.sent ++ rest ≡ seen
  pub measured : c.total ≡ length c.sent
  pub stat : c.stat ≡ counted is_in c.total s
  pub clean : (c.result ≡ none) ⊎ (c.result ≡ some none) → rest ≡ []

counted-add :
    (is_in : Bool) (a b : ℕ) (s : RuleTraffic)
    → counted is_in b (counted is_in a s) ≡ counted is_in (a + b) s
unfolding counted
counted-add true a b s =
    ap (λ n. record s { bytes_in = n })
      (let e : ((s.bytes_in + a) % 18446744073709551616 + b) % 18446744073709551616
            ≡ (s.bytes_in + (a + b)) % 18446744073709551616 =
          omega arith in
        e)
counted-add false a b s =
    ap (λ n. record s { bytes_out = n })
      (let e : ((s.bytes_out + a) % 18446744073709551616 + b) % 18446744073709551616
            ≡ (s.bytes_out + (a + b)) % 18446744073709551616 =
          omega arith in
        e)

-- A write leaves the rest of its bytes.
pub after_write-IsCopy :
    (is_in : Bool) (s : RuleTraffic) (seen : Bytes) (r : Round) (c : Copy)
    → IsWrite r
    → c.result ≡ none
    → IsCopy is_in s seen c
    → ((after_write is_in r c).sent ≡ seen ++ take r.written r.bytes)
      × ((after_write is_in r c).total ≡ length (after_write is_in r c).sent)
      × ((after_write is_in r c).stat ≡ counted is_in (after_write is_in r c).total s)
      × ((after_write is_in r c).result ≡ none)
unfolding after_write
after_write-IsCopy is_in s seen r c fits going v =
    let all : c.sent ≡ seen =
      sym (append-nil c.sent) ∙ ap (λ t. c.sent ++ t) (sym (v.clean (inl going))) ∙ v.order in
    elim (Bool-cases (ltb 0 r.written)) [
      | inl wrote ↦ rw wrote (
        ap (λ t. t ++ take r.written r.bytes) all,
        omega (
          arith,
          length-append c.sent (take r.written r.bytes),
          length-take r.written r.bytes,
          v.measured,
        ),
        ap (counted is_in r.written) v.stat ∙ counted-add is_in c.total r.written s,
        going,
      )
      | inr idle ↦
          let nothing : 0 ≡ r.written = let le = ltb→le 0 r.written idle in omega arith in
          rw idle (
            all ∙ sym (append-nil seen) ∙ ap (λ n. seen ++ take n r.bytes) nothing,
            v.measured,
            v.stat,
            going,
          )
    ]

no_bytes : (bytes : Bytes) → ltb 0 (length bytes) ≡ false → bytes ≡ []
no_bytes [] h = refl
no_bytes (b ∷ bytes) h = let le = ltb→le 0 (length (b ∷ bytes)) h in absurd (omega arith)

-- A loop that ended with an error, after a part of the bytes.
broken-IsCopy :
    (is_in : Bool) (s : RuleTraffic) (seen : Bytes) (r : Round) (c : Copy) (e : CopyError)
    → IsWrite r
    → c.result ≡ none
    → IsCopy is_in s seen c
    → IsCopy is_in s (seen ++ r.bytes) (record (after_write is_in r c) { result = some (some e) })
broken-IsCopy is_in s seen r c e fits going v =
    let (sent, total, stat, still) = after_write-IsCopy is_in s seen r c fits going v in
    record {
      rest = drop r.written r.bytes;
      order = rw sent (
          append_assoc seen (take r.written r.bytes) _
          ∙ ap (λ t. seen ++ t) (append-take-drop r.written r.bytes));
      measured = total;
      stat = stat;
      clean = λ h. elim h [ inl a ↦ absurd (cc) | inr b ↦ absurd (cc) ];
    }

-- A loop that goes on or comes to an end with everything sent.
ended-IsCopy :
    (is_in : Bool) (s : RuleTraffic) (seen : Bytes) (ending : ReadEnd) (c : Copy)
    → c.sent ≡ seen
    → c.total ≡ length c.sent
    → c.stat ≡ counted is_in c.total s
    → IsCopy is_in s seen (ended ending c)
unfolding ended
ended-IsCopy is_in s seen more c sent total stat = record {
  rest = [];
  order = append-nil c.sent ∙ sent;
  measured = total;
  stat = stat;
  clean = λ h. refl;
}
ended-IsCopy is_in s seen eof c sent total stat = record {
  rest = [];
  order = append-nil c.sent ∙ sent;
  measured = total;
  stat = stat;
  clean = λ h. refl;
}
ended-IsCopy is_in s seen failed c sent total stat = record {
  rest = [];
  order = append-nil c.sent ∙ sent;
  measured = total;
  stat = stat;
  clean = λ h. refl;
}

pub round-IsCopy :
    (is_in : Bool) (s : RuleTraffic) (seen : Bytes) (r : Round) (c : Copy)
    → IsWrite r
    → c.result ≡ none
    → IsCopy is_in s seen c
    → IsCopy is_in s (seen ++ r.bytes) (round is_in r c)
unfolding round
round-IsCopy is_in s seen r c fits going v =
    let (sent, total, stat, still) = after_write-IsCopy is_in s seen r c fits going v in
    if_elim (IsCopy is_in s (seen ++ r.bytes)) (ltb 0 (length r.bytes)) _ (ended r.ending c)
      (λ got.
        if_elim (IsCopy is_in s (seen ++ r.bytes)) r.write_error _ _
          (λ bad. broken-IsCopy is_in s seen r c write_failed fits going v)
          (λ fine.
            if_elim (IsCopy is_in s (seen ++ r.bytes)) (r.written == length r.bytes) _ _
              (λ full.
                let whole : take r.written r.bytes ≡ r.bytes =
                  take_all r.written r.bytes
                    (let e = (==_iff r.written (length r.bytes)).0 full in omega arith) in
                ended-IsCopy is_in s (seen ++ r.bytes) r.ending (after_write is_in r c)
                  (sent ∙ ap (λ t. seen ++ t) whole) total stat)
              (λ short. broken-IsCopy is_in s seen r c short_write fits going v)))
      (λ idle.
        let nothing = no_bytes r.bytes idle in
        let all : c.sent ≡ seen =
          sym (append-nil c.sent) ∙ ap (λ t. c.sent ++ t) (sym (v.clean (inl going))) ∙ v.order in
        ended-IsCopy is_in s (seen ++ r.bytes) r.ending c
          (all ∙ sym (append-nil seen) ∙ ap (λ t. seen ++ t) (sym nothing)) v.measured v.stat)
