-- ===== src/Tunnel/Copying.antt =====
-- internal/client/forwarder.go, copyAndCount: the copy loop of a direct forwarder, over what the reads
-- and writes of the connections answer. Without a counter the source leaves the loop to `io.Copy`.
pub mod Rounds
pub mod Order
use message_boy.Base.{
  ℕ, zero, suc, ◌+◌, ◌-◌, ◌%◌, ◌≤◌, ◌<◌, ◌≡◌, ◌⊎◌, inl, inr, refl, sym, ap, ◌∙◌, arith, Bool, true,
  false, not, Bool-cases, List, [], ◌∷◌, ◌++◌, append-nil, append_assoc, Option, none, some, Bytes,
  ◌==◌, ==_iff, ltb, ltb→le, if◌then◌else◌, if_case, if_elim, length, length-append, length-take,
  take, drop, take_all, append-take-drop, All,
}
use message_boy.Traffic.{add_int64}
use message_boy.Traffic.Counter.{RuleTraffic, more_in, more_out}

pub data CopyError : Type 0 where
  write_failed short_write read_failed : CopyError

-- How a read ended beside its bytes: with nothing, with `io.EOF`, or with another error.
pub data ReadEnd : Type 0 where
  more eof failed : ReadEnd

-- One round: what `Read` returns, and what `Write` of those bytes would return.
pub record Round : Type 0 where
  pub bytes : Bytes
  pub ending : ReadEnd
  pub written : ℕ
  pub write_error : Bool

-- `sent` are the bytes that the destination took. `result` is `none` while the loop runs, and has the
-- error that it returns, or none at the end of the source.
pub record Copy : Type 0 where
  pub stat : RuleTraffic
  pub total : ℕ
  pub sent : Bytes
  pub result : Option (Option CopyError)

unfoldable pub counted : Bool → ℕ → RuleTraffic → RuleTraffic
counted is_in n s = if is_in then more_in n s else more_out n s

-- The write and its count.
unfoldable pub after_write : Bool → Round → Copy → Copy
unfolding counted
after_write is_in r c =
    if ltb 0 r.written
    then record c {
      stat = counted is_in r.written c.stat;
      total = c.total + r.written;
      sent = c.sent ++ take r.written r.bytes;
    }
    else c

unfoldable pub ended : ReadEnd → Copy → Copy
ended more c = c
ended eof c = record c { result = some none }
ended failed c = record c { result = some (some read_failed) }

unfoldable pub round : Bool → Round → Copy → Copy
unfolding after_write ended
round is_in r c =
    let w = after_write is_in r c in
    if ltb 0 (length r.bytes)
    then if r.write_error
      then record w { result = some (some write_failed) }
      else if r.written == length r.bytes
      then ended r.ending w
      else record w { result = some (some short_write) }
    else ended r.ending c

-- The loop goes on while there is no result.
unfoldable pub go_on : Option (Option CopyError) → Copy → Copy → Copy
go_on none next c = next
go_on (some e) next c = c

unfoldable pub copy_and_count : Bool → List Round → Copy → Copy
unfolding round go_on
copy_and_count is_in [] c = c
copy_and_count is_in (r ∷ rs) c =
    let c' = round is_in r c in go_on c'.result (copy_and_count is_in rs c') c'

abbrev pub copying : RuleTraffic → Copy
copying s = record { stat = s; total = 0; sent = []; result = none }

-- The bytes of all reads.
abbrev pub all_bytes : List Round → Bytes
all_bytes [] = []
all_bytes (r ∷ rs) = r.bytes ++ all_bytes rs

-- A write takes no more than it is given, as `io.Writer` demands.
abbrev pub IsWrite : Round → Type 0
IsWrite r = r.written ≤ length r.bytes
