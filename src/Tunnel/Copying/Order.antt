-- ===== src/Tunnel/Copying/Order.antt =====
-- forwarder.go, copyAndCount: the loop from its start to its end.
use message_boy.Base.{
  ◌≡◌, ◌⊎◌, inl, inr, refl, sym, ap, ◌∙◌, arith, Bool, List, [], ◌∷◌, ◌++◌, append-nil,
  append_assoc, Option, none, some, Bytes, ◌==◌, ltb, if_case, length, All,
}
use message_boy.Traffic.Counter.{RuleTraffic}
use message_boy.Tunnel.Copying.{
  CopyError, write_failed, short_write, read_failed, ReadEnd, more, eof, failed, Round, Copy,
  counted, after_write, ended, round, go_on, copy_and_count, copying, all_bytes, IsWrite,
}
use message_boy.Tunnel.Copying.Rounds.{until_end, IsCopy, round-IsCopy}

abbrev Ends : ReadEnd → Copy → Type 0
Ends more c = (c.result ≡ none) ⊎ ((x : CopyError) × (c.result ≡ some (some x)))
Ends eof c = (o : Option CopyError) × (c.result ≡ some o)
Ends failed c = (o : Option CopyError) × (c.result ≡ some o)

broken-Ends :
    (ending : ReadEnd) (c : Copy) (x : CopyError) → c.result ≡ some (some x) → Ends ending c
broken-Ends more c x e = inr (x, e)
broken-Ends eof c x e = (some x, e)
broken-Ends failed c x e = (some x, e)

ended-Ends : (ending : ReadEnd) (c : Copy) → c.result ≡ none → Ends ending (ended ending c)
unfolding ended
ended-Ends more c e = inl e
ended-Ends eof c e = (none, refl)
ended-Ends failed c e = (some read_failed, refl)

round-Ends :
    (is_in : Bool) (r : Round) (c : Copy) → c.result ≡ none → Ends r.ending (round is_in r c)
unfolding round after_write
round-Ends is_in r c going =
    let still : (after_write is_in r c).result ≡ none =
      if_case (λ (w : Copy). w.result ≡ none) (ltb 0 r.written) _ c going going in
    if_case (Ends r.ending) (ltb 0 (length r.bytes)) _ _
      (if_case (Ends r.ending) r.write_error _ _
        (broken-Ends r.ending (record (after_write is_in r c) { result = some (some write_failed) })
          write_failed refl)
        (if_case (Ends r.ending) (r.written == length r.bytes) _ _
          (ended-Ends r.ending (after_write is_in r c) still)
          (broken-Ends r.ending
            (record (after_write is_in r c) { result = some (some short_write) }) short_write
            refl)))
      (ended-Ends r.ending c going)

-- More bytes that were never read, after an error.
extend-IsCopy :
    (is_in : Bool) (s : RuleTraffic) (seen unread : Bytes) (c : Copy) (x : CopyError)
    → c.result ≡ some (some x)
    → IsCopy is_in s seen c
    → IsCopy is_in s (seen ++ unread) c
extend-IsCopy is_in s seen unread c x e v = record {
  rest = v.rest ++ unread;
  order = sym (append_assoc c.sent v.rest unread) ∙ ap (λ t. t ++ unread) v.order;
  measured = v.measured;
  stat = v.stat;
  clean = λ h. elim h [ inl a ↦ absurd (cc) | inr b ↦ absurd (cc) ];
}

all_bytes_at :
    (r : Round) (rs : List Round) (ending : ReadEnd)
    → r.ending ≡ ending
    → all_bytes (until_end (r ∷ rs))
      ≡ r.bytes ++ all_bytes (elim ending [ more ↦ until_end rs | eof ↦ [] | failed ↦ [] ])
all_bytes_at r rs more e = ground arith
all_bytes_at r rs eof e = ground arith
all_bytes_at r rs failed e = ground arith

go_on-none : (next c : Copy) → c.result ≡ none → go_on c.result next c ≡ next
unfolding go_on
go_on-none next c e = ap (λ o. go_on o next c) e

go_on-some : (next c : Copy) (o : Option CopyError) → c.result ≡ some o → go_on c.result next c ≡ c
unfolding go_on
go_on-some next c o e = ap (λ q. go_on q next c) e

module _ (is_in : Bool) (s : RuleTraffic) where
  abbrev Goes : Bytes → List Round → Copy → Type 0
  Goes seen rs c = IsCopy is_in s (seen ++ all_bytes (until_end rs)) c

  move :
      (seen seen' : Bytes) (c c' : Copy)
      → seen ≡ seen'
      → c ≡ c'
      → IsCopy is_in s seen c
      → IsCopy is_in s seen' c'
  move seen seen' c c' p q v = rw (← p, ← q) v

  -- The bytes seen with those of a round that ends the loop.
  last_seen :
      (seen : Bytes) (r : Round) (rs : List Round)
      → all_bytes (until_end (r ∷ rs)) ≡ r.bytes ++ []
      → seen ++ r.bytes ≡ seen ++ all_bytes (until_end (r ∷ rs))
  last_seen seen r rs e = ap (λ t. seen ++ t) (sym (append-nil r.bytes) ∙ sym e)

  -- What comes after a round, by how its read ended and by the result.
  next-IsCopy :
      (ending : ReadEnd) (seen : Bytes) (r : Round) (rs : List Round) (c next : Copy)
      → r.ending ≡ ending
      → Ends ending c
      → IsCopy is_in s (seen ++ r.bytes) c
      → (c.result ≡ none → Goes (seen ++ r.bytes) rs next)
      → Goes seen (r ∷ rs) (go_on c.result next c)
  next-IsCopy more seen r rs c next e (inl going) v go =
      move _ _ next _
        (append_assoc seen r.bytes (all_bytes (until_end rs))
          ∙ ap (λ t. seen ++ t) (sym (all_bytes_at r rs more e)))
        (sym (go_on-none next c going)) (go going)
  next-IsCopy more seen r rs c next e (inr (x, bad)) v go =
      move _ _ c _
        (append_assoc seen r.bytes (all_bytes (until_end rs))
          ∙ ap (λ t. seen ++ t) (sym (all_bytes_at r rs more e)))
        (sym (go_on-some next c (some x) bad))
        (extend-IsCopy is_in s (seen ++ r.bytes) (all_bytes (until_end rs)) c x bad v)
  next-IsCopy eof seen r rs c next e (o, over) v go =
      move _ _ c _ (last_seen seen r rs (all_bytes_at r rs eof e)) (sym (go_on-some next c o over))
        v
  next-IsCopy failed seen r rs c next e (o, over) v go =
      move _ _ c _ (last_seen seen r rs (all_bytes_at r rs failed e))
        (sym (go_on-some next c o over)) v

  copy-IsCopy :
      (rs : List Round) (seen : Bytes) (c : Copy)
      → All IsWrite rs
      → c.result ≡ none
      → IsCopy is_in s seen c
      → Goes seen rs (copy_and_count is_in rs c)
  unfolding copy_and_count
  copy-IsCopy [] seen c fits going v = rw (append-nil seen) v
  copy-IsCopy (r ∷ rs) seen c fits going v =
      let c' = round is_in r c in
      let v' = round-IsCopy is_in s seen r c fits.0 going v in
      next-IsCopy r.ending seen r rs c' (copy_and_count is_in rs c') refl
        (round-Ends is_in r c going) v'
        (λ still. copy-IsCopy rs (seen ++ r.bytes) c' fits.1 still v')

sent_or_error :
    (is_in : Bool) (s : RuleTraffic) (seen : Bytes) (c : Copy)
    → (v : IsCopy is_in s seen c) → (v.rest ≡ []) ⊎ ((x : CopyError) × (c.result ≡ some (some x)))
sent_or_error is_in s seen c v = go c.result refl
  where
    go :
        (o : Option (Option CopyError))
        → c.result ≡ o
        → (v.rest ≡ []) ⊎ ((x : CopyError) × (c.result ≡ some (some x)))
    go none e = inl (v.clean (inl e))
    go (some none) e = inl (v.clean (inr e))
    go (some (some x)) e = inr (x, e)

-- Whatever the connections do, what was sent is the beginning of what was read, in its order; the
-- total is its length, and the counter of the rule stands further by the total, in its direction only.
-- Unless the loop ended with an error, all was sent that was read.
pub copy_and_count_lem :
    (is_in : Bool) (s : RuleTraffic) (rs : List Round)
    → All IsWrite rs
    → counted is_in 0 s ≡ s
    → ((rest : Bytes) × ((copy_and_count is_in rs (copying s)).sent ++ rest
          ≡ all_bytes (until_end rs))
        × ((rest ≡ [])
            ⊎ ((x : CopyError) × ((copy_and_count is_in rs (copying s)).result ≡ some (some x)))))
      × ((copy_and_count is_in rs (copying s)).total
          ≡ length (copy_and_count is_in rs (copying s)).sent)
      × ((copy_and_count is_in rs (copying s)).stat
          ≡ counted is_in (copy_and_count is_in rs (copying s)).total s)
copy_and_count_lem is_in s rs fits word =
    let v =
      copy-IsCopy is_in s rs [] (copying s) fits refl
        (record { rest = []; order = refl; measured = refl; stat = sym word; clean = λ h. refl }) in
    ((v.rest, v.order, sent_or_error is_in s _ _ v), v.measured, v.stat)
