-- ===== src/Traffic/Conservation.antt =====
-- traffic_counter.go: no byte is lost between the counters and the reports.
use message_boy.Base.{
  ℕ, ◌+◌, ◌≤◌, ◌<◌, ◌≡◌, refl, inl, inr, Bool, true, false, not, ◌&&◌, List, [], ◌∷◌, ◌++◌, arith,
  Bytes, if◌then◌else◌, Bool-cases, bytes_eq, lookup, insert, str_eq, str_eq_iff, str_eq_refl,
}
use message_boy.Traffic.Counter.{
  RuleTraffic, TrafficReport, TrafficCounter, new_rule_traffic, get_or_create, with_stat, more_in,
  more_out, opened_one, closed_one, add_bytes_in, add_bytes_out, increment_conn, decrement_conn,
  count_bytes, get_and_reset,
}

-- What the client does with its counters, in the order of its steps.
pub data Event : Type 0 where
  moved : Bool → Bytes → ℕ → Event
  opened : Bytes → Event
  closed : Bytes → Event
  reported : Event

-- The counters, and everything reported so far.
unfoldable pub step :
    Event → TrafficCounter × List TrafficReport → TrafficCounter × List TrafficReport
step (moved is_in rule n) (tc, reports) = (count_bytes is_in rule n tc, reports)
step (opened rule) (tc, reports) = (increment_conn rule tc, reports)
step (closed rule) (tc, reports) = (decrement_conn rule tc, reports)
step reported (tc, reports) =
    let (tc', new_reports) = get_and_reset tc in (tc', reports ++ new_reports)

unfoldable pub run :
    List Event → TrafficCounter × List TrafficReport → TrafficCounter × List TrafficReport
unfolding step
run [] x = x
run (e ∷ es) x = run es (step e x)

abbrev bytes : Bool → RuleTraffic → ℕ
bytes true s = s.bytes_in
bytes false s = s.bytes_out

-- The bytes of a rule in one direction that are counted but not reported.
unfoldable pub pending : Bool → Bytes → TrafficCounter → ℕ
pending is_in rule [] = 0
pending is_in rule ((k, s) ∷ tc) =
    (if str_eq k rule then bytes is_in s else 0) + pending is_in rule tc

abbrev report_bytes : Bool → TrafficReport → ℕ
report_bytes true r = r.bytes_in
report_bytes false r = r.bytes_out

-- Those that are reported.
pub reported_bytes : Bool → Bytes → List TrafficReport → ℕ
reported_bytes is_in rule [] = 0
reported_bytes is_in rule (r ∷ reports) =
    (if str_eq r.rule_id rule then report_bytes is_in r else 0) + reported_bytes is_in rule reports

abbrev same_way : Bool → Bool → Bool
same_way true d = d
same_way false d = not d

abbrev moved_bytes : Bool → Bytes → Event → ℕ
moved_bytes is_in rule (moved d k n) = if same_way is_in d && str_eq k rule then n else 0
moved_bytes is_in rule (opened k) = 0
moved_bytes is_in rule (closed k) = 0
moved_bytes is_in rule reported = 0

-- Those that went through the client.
unfoldable pub total_moved : Bool → Bytes → List Event → ℕ
total_moved is_in rule [] = 0
total_moved is_in rule (e ∷ es) = moved_bytes is_in rule e + total_moved is_in rule es

bytes_new : (is_in : Bool) (k : Bytes) → bytes is_in (new_rule_traffic k) ≡ 0
bytes_new true k = refl
bytes_new false k = refl

-- A step on one entry changes what is pending for its rule only, by what it adds to the entry.
pending-with_stat :
    (is_in : Bool) (rule : Bytes) (f : RuleTraffic → RuleTraffic) (n : ℕ) (tc : TrafficCounter)
    → ((s : RuleTraffic)
        → bytes is_in s ≤ pending is_in rule tc
        → bytes is_in (f s) ≡ bytes is_in s + n)
    → pending is_in rule (with_stat rule f tc) ≡ pending is_in rule tc + n
unfolding pending with_stat get_or_create lookup insert
pending-with_stat is_in rule f n [] h =
    let fresh = bytes_new is_in rule in
    let made = h (new_rule_traffic rule) (omega arith) in let own = str_eq_refl rule in ground arith
pending-with_stat is_in rule f n ((j, s) ∷ tc) h = elim (Bool-cases (str_eq j rule)) [
  | inl here ↦ let own = str_eq_refl rule in let made = h s (ground arith) in ground arith
  | inr there ↦
      let rest = pending-with_stat is_in rule f n tc (λ x less. h x (ground arith)) in ground arith
]

pending-with_stat_other :
    (is_in : Bool) (rule k : Bytes) (f : RuleTraffic → RuleTraffic) (tc : TrafficCounter)
    → str_eq k rule ≡ false
    → pending is_in rule (with_stat k f tc) ≡ pending is_in rule tc
unfolding pending with_stat get_or_create lookup insert
pending-with_stat_other is_in rule k f [] other = ground arith
pending-with_stat_other is_in rule k f ((j, s) ∷ tc) other = elim (Bool-cases (str_eq j k)) [
  | inl here ↦ let same = (str_eq_iff j k).0 here in rw (here, same, other) refl
  | inr there ↦ let rest = pending-with_stat_other is_in rule k f tc other in ground arith
]

pending-with_stat_any :
    (is_in : Bool) (rule k : Bytes) (f : RuleTraffic → RuleTraffic) (n : ℕ) (tc : TrafficCounter)
    → (str_eq k rule ≡ true
        → (s : RuleTraffic) → bytes is_in s ≤ pending is_in rule tc
        → bytes is_in (f s) ≡ bytes is_in s + n)
    → pending is_in rule (with_stat k f tc)
      ≡ pending is_in rule tc + (if str_eq k rule then n else 0)
pending-with_stat_any is_in rule k f n tc h = elim (Bool-cases (str_eq k rule)) [
  | inl here ↦
      let same : k ≡ rule = (str_eq_iff k rule).0 here in
      rw (here, same) (pending-with_stat is_in rule f n tc (h here))
  | inr other ↦ let rest = pending-with_stat_other is_in rule k f tc other in ground arith
]

reported_bytes-append :
    (is_in : Bool) (rule : Bytes) (xs ys : List TrafficReport)
    → reported_bytes is_in rule (xs ++ ys)
      ≡ reported_bytes is_in rule xs + reported_bytes is_in rule ys
unfolding reported_bytes
reported_bytes-append is_in rule [] ys = omega arith
reported_bytes-append is_in rule (x ∷ xs) ys =
    ground (arith, reported_bytes-append is_in rule xs ys)

-- A report takes over what was pending.
get_and_reset-pending :
    (is_in : Bool) (rule : Bytes) (tc : TrafficCounter)
    → pending is_in rule tc < 9223372036854775808
    → (pending is_in rule (get_and_reset tc).0 ≡ 0)
      × (reported_bytes is_in rule (get_and_reset tc).1 ≡ pending is_in rule tc)
unfolding pending reported_bytes get_and_reset
get_and_reset-pending is_in rule [] h = (refl, refl)
get_and_reset-pending true rule ((k, s) ∷ tc) h = ground (arith, get_and_reset-pending true rule tc)
get_and_reset-pending false rule ((k, s) ∷ tc) h =
    ground (arith, get_and_reset-pending false rule tc)

opened_bytes : (is_in : Bool) (s : RuleTraffic) → bytes is_in (opened_one s) ≡ bytes is_in s + 0
opened_bytes true s = omega arith
opened_bytes false s = omega arith

closed_bytes : (is_in : Bool) (s : RuleTraffic) → bytes is_in (closed_one s) ≡ bytes is_in s + 0
closed_bytes true s = ground arith
closed_bytes false s = ground arith

count_bytes-pending :
    (is_in d : Bool) (rule k : Bytes) (n : ℕ) (tc : TrafficCounter)
    → pending is_in rule tc + moved_bytes is_in rule (moved d k n) < 9223372036854775808
    → pending is_in rule (count_bytes d k n tc)
      ≡ pending is_in rule tc + moved_bytes is_in rule (moved d k n)
unfolding count_bytes add_bytes_in add_bytes_out
count_bytes-pending true true rule k n tc h =
    let counted = pending-with_stat_any true rule k (more_in n) n tc (λ e s less. ground arith) in
    ground arith
count_bytes-pending false false rule k n tc h =
    let counted = pending-with_stat_any false rule k (more_out n) n tc (λ e s less. ground arith) in
    ground arith
count_bytes-pending true false rule k n tc h =
    let counted = pending-with_stat_any true rule k (more_out n) 0 tc (λ e s less. omega arith) in
    ground arith
count_bytes-pending false true rule k n tc h =
    let counted = pending-with_stat_any false rule k (more_in n) 0 tc (λ e s less. omega arith) in
    ground arith

-- One step moves bytes from the wire to the counters or from the counters to the reports.
step_conserves :
    (is_in : Bool) (rule : Bytes) (e : Event) (tc : TrafficCounter) (reports : List TrafficReport)
    → pending is_in rule tc + moved_bytes is_in rule e < 9223372036854775808
    → let x = step e (tc, reports) in
      (pending is_in rule x.0 + reported_bytes is_in rule x.1
        ≡ pending is_in rule tc + reported_bytes is_in rule reports + moved_bytes is_in rule e)
      × (pending is_in rule x.0 ≤ pending is_in rule tc + moved_bytes is_in rule e)
unfolding step increment_conn decrement_conn
step_conserves is_in rule (moved d k n) tc reports h =
    let counted = count_bytes-pending is_in d rule k n tc (omega arith) in
    (omega arith, omega arith)
step_conserves is_in rule (opened k) tc reports h =
    let counted =
      pending-with_stat_any is_in rule k opened_one 0 tc (λ e s less. opened_bytes is_in s) in
    (ground arith, ground arith)
step_conserves is_in rule (closed k) tc reports h =
    let counted =
      pending-with_stat_any is_in rule k closed_one 0 tc (λ e s less. closed_bytes is_in s) in
    (ground arith, ground arith)
step_conserves is_in rule reported tc reports h =
    let (kept, taken) = get_and_reset-pending is_in rule tc (omega arith) in
    let sum = reported_bytes-append is_in rule reports (get_and_reset tc).1 in
    (ground arith, ground arith)

-- No byte is lost or counted twice on the way from the wire to the reports: whatever the order of the
-- steps, and whatever happens to other rules, what is reported for a rule and what is still pending
-- are together what went through it, as long as that stays below 2^63.
pub run_conserves :
    (is_in : Bool) (rule : Bytes) (es : List Event) (tc : TrafficCounter)
    (reports : List TrafficReport)
    → pending is_in rule tc + total_moved is_in rule es < 9223372036854775808
    → let x = run es (tc, reports) in
      pending is_in rule x.0 + reported_bytes is_in rule x.1
      ≡ pending is_in rule tc + reported_bytes is_in rule reports + total_moved is_in rule es
unfolding run total_moved
run_conserves is_in rule [] tc reports h = omega arith
run_conserves is_in rule (e ∷ es) tc reports h =
    let x = step e (tc, reports) in
    let (one, below) = step_conserves is_in rule e tc reports (omega arith) in
    let rest = run_conserves is_in rule es x.0 x.1 (omega arith) in omega arith
