-- ===== src/Traffic/Repository.antt =====
-- internal/storage/traffic_repo.go: the counters in memory, and FlushToDatabase. The database's calls
-- are an interface; the bandwidth figures are left out.
use message_boy.Base.{
  ℕ, Bool, true, false, ◌||◌, List, [], ◌∷◌, ◌++◌, Option, none, some, Bytes, if◌then◌else◌, Map,
  bytes_eq, lookup, insert,
}
use message_boy.Traffic.{add_int64, add_int32, is_positive_int64}

pub record RealtimeTraffic : Type 0 where
  pub rule_id : Bytes
  pub client_id : Bytes
  pub bytes_in : ℕ
  pub bytes_out : ℕ
  pub active_conns : ℕ
  pub total_bytes_in : ℕ
  pub total_bytes_out : ℕ

-- The field `realtimeStats`.
abbrev pub TrafficRepository : Type 0
TrafficRepository = Map Bytes RealtimeTraffic

abbrev pub stats_key : Bytes → Bytes → Bytes
stats_key rule client = rule ++ 58 ∷ client

abbrev pub new_realtime_traffic : Bytes → Bytes → RealtimeTraffic
new_realtime_traffic rule client = record {
  rule_id = rule;
  client_id = client;
  bytes_in = 0;
  bytes_out = 0;
  active_conns = 0;
  total_bytes_in = 0;
  total_bytes_out = 0;
}

unfoldable pub get_or_create_stats : Bytes → Bytes → TrafficRepository → RealtimeTraffic
get_or_create_stats rule client repo = elim (lookup (stats_key rule client) repo) [
  | none ↦ new_realtime_traffic rule client
  | some s ↦ s
]

unfoldable pub with_stats :
    Bytes → Bytes → (RealtimeTraffic → RealtimeTraffic) → TrafficRepository → TrafficRepository
unfolding get_or_create_stats
with_stats rule client f repo =
    insert (stats_key rule client) (f (get_or_create_stats rule client repo)) repo

unfoldable pub add_bytes_in : Bytes → Bytes → ℕ → TrafficRepository → TrafficRepository
unfolding with_stats
add_bytes_in rule client n repo =
    with_stats rule client
      (λ (s : RealtimeTraffic). record s {
        bytes_in = add_int64 s.bytes_in n;
        total_bytes_in = add_int64 s.total_bytes_in n;
      })
      repo

unfoldable pub add_bytes_out : Bytes → Bytes → ℕ → TrafficRepository → TrafficRepository
unfolding with_stats
add_bytes_out rule client n repo =
    with_stats rule client
      (λ (s : RealtimeTraffic). record s {
        bytes_out = add_int64 s.bytes_out n;
        total_bytes_out = add_int64 s.total_bytes_out n;
      })
      repo

unfoldable pub increment_conn : Bytes → Bytes → TrafficRepository → TrafficRepository
unfolding with_stats
increment_conn rule client repo =
    with_stats rule client
      (λ (s : RealtimeTraffic). record s { active_conns = add_int32 s.active_conns 1 }) repo

-- Minus one is 2^32 - 1: there is no guard here.
unfoldable pub decrement_conn : Bytes → Bytes → TrafficRepository → TrafficRepository
unfolding with_stats
decrement_conn rule client repo =
    with_stats rule client
      (λ (s : RealtimeTraffic). record s { active_conns = add_int32 s.active_conns 4294967295 })
      repo

unfoldable pub set_active_conns : Bytes → Bytes → ℕ → TrafficRepository → TrafficRepository
unfolding with_stats
set_active_conns rule client count repo =
    with_stats rule client (λ (s : RealtimeTraffic). record s { active_conns = count }) repo

unfoldable pub get_realtime_active_conns : TrafficRepository → ℕ
get_realtime_active_conns [] = 0
get_realtime_active_conns ((k, s) ∷ repo) =
    add_int32 s.active_conns (get_realtime_active_conns repo)

-- One report of a client, ClientReportTrafficMethod's loop.
pub record TrafficReportItem : Type 0 where
  pub rule_id : Bytes
  pub bytes_in : ℕ
  pub bytes_out : ℕ
  pub connections : ℕ
  pub active_conns : ℕ

unfoldable pub report_item : Bytes → TrafficReportItem → TrafficRepository → TrafficRepository
unfolding add_bytes_in add_bytes_out set_active_conns
report_item client r repo =
    let with_in =
      if is_positive_int64 r.bytes_in
      then add_bytes_in r.rule_id client r.bytes_in repo
      else repo in
    let with_out =
      if is_positive_int64 r.bytes_out
      then add_bytes_out r.rule_id client r.bytes_out with_in
      else with_in in
    set_active_conns r.rule_id client r.active_conns with_out

unfoldable pub report_traffic :
    Bytes → List TrafficReportItem → TrafficRepository → TrafficRepository
unfolding report_item
report_traffic client [] repo = repo
report_traffic client (r ∷ rest) repo = report_traffic client rest (report_item client r repo)

abbrev pub swapped : RealtimeTraffic → RealtimeTraffic
swapped s = record s { bytes_in = 0; bytes_out = 0 }

-- The first loop of `FlushToDatabase`: the copies to flush.
unfoldable pub swap_out : TrafficRepository → TrafficRepository × List RealtimeTraffic
swap_out [] = ([], [])
swap_out ((k, s) ∷ repo) =
    let (repo', copies) = swap_out repo in
    (
      (k, swapped s) ∷ repo',
      if is_positive_int64 s.bytes_in || is_positive_int64 s.bytes_out then s ∷ copies else copies,
    )

pub record TrafficStats : Type 0 where
  pub rule_id : Bytes
  pub client_id : Bytes
  pub bytes_in : ℕ
  pub bytes_out : ℕ
  pub total_bytes : ℕ
  pub active_conns : ℕ
  pub period_start : ℕ

pub data QueryResult : Type 0 where
  found not_found query_failed : QueryResult

-- The statements of the loop; `none` is an error. `first` and `update` name a row by its rule, client
-- and day, and `update` adds the copy's bytes to it.
pub record TrafficDb : Type 1 where
  pub Rows : Type 0
  pub first : Bytes → Bytes → ℕ → Rows → QueryResult
  pub create : TrafficStats → Rows → Option Rows
  pub update : RealtimeTraffic → ℕ → Rows → Option Rows

abbrev pub new_stats : RealtimeTraffic → ℕ → TrafficStats
new_stats s today = record {
  rule_id = s.rule_id;
  client_id = s.client_id;
  bytes_in = s.bytes_in;
  bytes_out = s.bytes_out;
  total_bytes = add_int64 s.bytes_in s.bytes_out;
  active_conns = s.active_conns;
  period_start = today;
}

module _ (db : TrafficDb) where
  unfoldable pub flush_row : ℕ → RealtimeTraffic → QueryResult → db.Rows → Option db.Rows
  flush_row today s not_found rows = db.create (new_stats s today) rows
  flush_row today s found rows = db.update s today rows
  flush_row today s query_failed rows = none

  -- The second loop, which the first error ends; `false` is the error.
  unfoldable pub flush_rows : ℕ → List RealtimeTraffic → db.Rows → db.Rows × Bool
  unfolding flush_row
  flush_rows today [] rows = (rows, true)
  flush_rows today (s ∷ rest) rows =
      elim (flush_row today s (db.first s.rule_id s.client_id today rows) rows) [
        | none ↦ (rows, false)
        | some rows' ↦ flush_rows today rest rows'
      ]

  unfoldable pub flush_to_database :
      ℕ → TrafficRepository → db.Rows → TrafficRepository × db.Rows × Bool
  unfolding flush_rows swap_out
  flush_to_database today repo rows =
      let (repo', copies) = swap_out repo in
      let (rows', done) = flush_rows today copies rows in (repo', rows', done)
