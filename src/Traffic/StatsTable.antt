-- ===== src/Traffic/StatsTable.antt =====
-- traffic_repo.go: the table of statistics behind FlushToDatabase's statements.
use message_boy.Base.{
  ℕ, ◌+◌, Bool, true, false, ◌&&◌, ◌==◌, List, [], ◌∷◌, ◌++◌, some, Bytes, if◌then◌else◌, str_eq,
}
use message_boy.Traffic.Repository.{RealtimeTraffic, TrafficStats, found, not_found, TrafficDb}

-- The table of statistics: a row is looked up by its rule, client and day.
abbrev pub is_row : RealtimeTraffic → ℕ → TrafficStats → Bool
is_row s today r =
    str_eq r.rule_id s.rule_id && str_eq r.client_id s.client_id && r.period_start == today

unfoldable pub first_row : RealtimeTraffic → ℕ → List TrafficStats → Bool
first_row s today [] = false
first_row s today (r ∷ rows) = if is_row s today r then true else first_row s today rows

abbrev pub with_copy : RealtimeTraffic → TrafficStats → TrafficStats
with_copy s r = record r {
  bytes_in = r.bytes_in + s.bytes_in;
  bytes_out = r.bytes_out + s.bytes_out;
  total_bytes = r.total_bytes + (s.bytes_in + s.bytes_out);
  active_conns = s.active_conns;
}

unfoldable pub update_row : RealtimeTraffic → ℕ → List TrafficStats → List TrafficStats
update_row s today [] = []
update_row s today (r ∷ rows) =
    if is_row s today r then with_copy s r ∷ rows else r ∷ update_row s today rows

abbrev pub key_only : Bytes → Bytes → RealtimeTraffic
key_only rule client = record {
  rule_id = rule;
  client_id = client;
  bytes_in = 0;
  bytes_out = 0;
  active_conns = 0;
  total_bytes_in = 0;
  total_bytes_out = 0;
}

-- A table that answers every statement.
abbrev pub stats_table : TrafficDb
stats_table = record {
  Rows = List TrafficStats;
  first = λ rule client today rows.
      if first_row (key_only rule client) today rows then found else not_found;
  create = λ r rows. some (rows ++ r ∷ []);
  update = λ s today rows. some (update_row s today rows);
}
