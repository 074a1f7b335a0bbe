-- ===== src/Traffic/Counter.antt =====
-- internal/client/traffic_counter.go. The entries of the `sync.Map` are never removed, so a pointer to
-- an entry is its key; every operation is one atomic step on one entry.
use message_boy.Base.{
  ℕ, ◌-◌, Bool, ◌||◌, List, [], ◌∷◌, none, some, Bytes, ltb, if◌then◌else◌, Map, bytes_eq, lookup,
  insert,
}
use message_boy.Traffic.{add_int64, add_int32, is_positive_int64, is_positive_int32}

pub record RuleTraffic : Type 0 where
  pub rule_id : Bytes
  pub bytes_in : ℕ
  pub bytes_out : ℕ
  pub connections : ℕ
  pub active_conns : ℕ

pub record TrafficReport : Type 0 where
  pub rule_id : Bytes
  pub bytes_in : ℕ
  pub bytes_out : ℕ
  pub connections : ℕ
  pub active_conns : ℕ

-- The field `stats`.
abbrev pub TrafficCounter : Type 0
TrafficCounter = Map Bytes RuleTraffic

abbrev pub new_rule_traffic : Bytes → RuleTraffic
new_rule_traffic rule = record {
  rule_id = rule;
  bytes_in = 0;
  bytes_out = 0;
  connections = 0;
  active_conns = 0;
}

unfoldable pub get_or_create : Bytes → TrafficCounter → RuleTraffic
get_or_create rule tc = elim (lookup rule tc) [ none ↦ new_rule_traffic rule | some s ↦ s ]

-- A step on the entry of a rule, which is made first if it is not there.
unfoldable pub with_stat : Bytes → (RuleTraffic → RuleTraffic) → TrafficCounter → TrafficCounter
unfolding get_or_create
with_stat rule f tc = insert rule (f (get_or_create rule tc)) tc

abbrev pub more_in : ℕ → RuleTraffic → RuleTraffic
more_in n s = record s { bytes_in = add_int64 s.bytes_in n }

abbrev pub more_out : ℕ → RuleTraffic → RuleTraffic
more_out n s = record s { bytes_out = add_int64 s.bytes_out n }

abbrev pub opened_one : RuleTraffic → RuleTraffic
opened_one s = record s {
  connections = add_int64 s.connections 1;
  active_conns = add_int32 s.active_conns 1;
}

-- The loop ends in its first round, since a step is not interrupted.
abbrev pub closed_one : RuleTraffic → RuleTraffic
closed_one s =
    if is_positive_int32 s.active_conns then record s { active_conns = s.active_conns - 1 } else s

unfoldable pub add_bytes_in : Bytes → ℕ → TrafficCounter → TrafficCounter
unfolding with_stat
add_bytes_in rule n tc = with_stat rule (more_in n) tc

unfoldable pub add_bytes_out : Bytes → ℕ → TrafficCounter → TrafficCounter
unfolding with_stat
add_bytes_out rule n tc = with_stat rule (more_out n) tc

unfoldable pub increment_conn : Bytes → TrafficCounter → TrafficCounter
unfolding with_stat
increment_conn rule tc = with_stat rule opened_one tc

unfoldable pub decrement_conn : Bytes → TrafficCounter → TrafficCounter
unfolding with_stat
decrement_conn rule tc = with_stat rule closed_one tc

-- `CountingReader.Read` and `CountingWriter.Write`, after `n` bytes went through.
unfoldable pub count_bytes : Bool → Bytes → ℕ → TrafficCounter → TrafficCounter
unfolding add_bytes_in add_bytes_out
count_bytes is_in rule n tc =
    if ltb 0 n then if is_in then add_bytes_in rule n tc else add_bytes_out rule n tc else tc

abbrev pub reset : RuleTraffic → RuleTraffic
reset s = record s { bytes_in = 0; bytes_out = 0; connections = 0 }

abbrev pub report_of : Bytes → RuleTraffic → TrafficReport
report_of rule s = record {
  rule_id = rule;
  bytes_in = s.bytes_in;
  bytes_out = s.bytes_out;
  connections = s.connections;
  active_conns = s.active_conns;
}

abbrev pub is_reported : RuleTraffic → Bool
is_reported s =
    is_positive_int64 s.bytes_in
    || is_positive_int64 s.bytes_out
    || is_positive_int64 s.connections
    || is_positive_int32 s.active_conns

unfoldable pub get_and_reset : TrafficCounter → TrafficCounter × List TrafficReport
get_and_reset [] = ([], [])
get_and_reset ((rule, s) ∷ tc) =
    let (tc', reports) = get_and_reset tc in
    ((rule, reset s) ∷ tc', if is_reported s then report_of rule s ∷ reports else reports)
