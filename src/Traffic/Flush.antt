-- ===== src/Traffic/Flush.antt =====
-- traffic_repo.go: what FlushToDatabase does to the bytes of a rule and a client.
use message_boy.Base.{
  ℕ, ◌+◌, ◌<◌, ◌≡◌, refl, ap, ◌∙◌, inl, inr, Bool, true, false, ◌&&◌, List, [], ◌∷◌, ◌++◌, some,
  arith, Bytes, if◌then◌else◌, Bool-cases, str_eq, str_eq_iff,
}
use message_boy.Traffic.Repository.{
  RealtimeTraffic, TrafficRepository, TrafficStats, QueryResult, query_failed, TrafficDb, new_stats,
  swap_out, flush_row, flush_rows, flush_to_database,
}
use message_boy.Traffic.StatsTable.{is_row, first_row, update_row, key_only, stats_table}

abbrev bytes : Bool → RealtimeTraffic → ℕ
bytes true s = s.bytes_in
bytes false s = s.bytes_out

abbrev row_bytes : Bool → TrafficStats → ℕ
row_bytes true r = r.bytes_in
row_bytes false r = r.bytes_out

-- The bytes of a rule and a client in one direction: in memory, among the copies, and in the table.
pub in_copies : Bool → Bytes → Bytes → List RealtimeTraffic → ℕ
in_copies is_in rule client [] = 0
in_copies is_in rule client (s ∷ copies) =
    (if str_eq s.rule_id rule && str_eq s.client_id client then bytes is_in s else 0)
    + in_copies is_in rule client copies

unfoldable pub in_memory : Bool → Bytes → Bytes → TrafficRepository → ℕ
in_memory is_in rule client [] = 0
in_memory is_in rule client ((k, s) ∷ repo) =
    (if str_eq s.rule_id rule && str_eq s.client_id client then bytes is_in s else 0)
    + in_memory is_in rule client repo

pub in_table : Bool → Bytes → Bytes → List TrafficStats → ℕ
in_table is_in rule client [] = 0
in_table is_in rule client (r ∷ rows) =
    (if str_eq r.rule_id rule && str_eq r.client_id client then row_bytes is_in r else 0)
    + in_table is_in rule client rows

swap_out_lem :
    (is_in : Bool) (rule client : Bytes) (repo : TrafficRepository)
    → in_memory is_in rule client repo < 9223372036854775808
    → (in_memory is_in rule client (swap_out repo).0 ≡ 0)
      × (in_copies is_in rule client (swap_out repo).1 ≡ in_memory is_in rule client repo)
unfolding in_memory in_copies swap_out
swap_out_lem is_in rule client [] h = (refl, refl)
swap_out_lem true rule client ((k, s) ∷ repo) h = ground (arith, swap_out_lem true rule client repo)
swap_out_lem false rule client ((k, s) ∷ repo) h =
    ground (arith, swap_out_lem false rule client repo)

in_table-append :
    (is_in : Bool) (rule client : Bytes) (rows more : List TrafficStats)
    → in_table is_in rule client (rows ++ more)
      ≡ in_table is_in rule client rows + in_table is_in rule client more
unfolding in_table
in_table-append is_in rule client [] more = omega arith
in_table-append is_in rule client (r ∷ rows) more =
    ground (arith, in_table-append is_in rule client rows more)

in_table-update_row :
    (is_in : Bool) (rule client : Bytes) (s : RealtimeTraffic) (today : ℕ)
    (rows : List TrafficStats)
    → first_row s today rows ≡ true
    → in_table is_in rule client (update_row s today rows)
      ≡ in_table is_in rule client rows + in_copies is_in rule client (s ∷ [])
unfolding in_table in_copies update_row first_row
in_table-update_row is_in rule client s today [] h = absurd (cc)
in_table-update_row true rule client s today (r ∷ rows) h = ground (
  arith,
  str_eq_iff r.rule_id s.rule_id,
  str_eq_iff r.client_id s.client_id,
  in_table-update_row true rule client s today rows,
)
in_table-update_row false rule client s today (r ∷ rows) h = ground (
  arith,
  str_eq_iff r.rule_id s.rule_id,
  str_eq_iff r.client_id s.client_id,
  in_table-update_row false rule client s today rows,
)

first_row-key_only :
    (s : RealtimeTraffic) (today : ℕ) (rows : List TrafficStats)
    → first_row (key_only s.rule_id s.client_id) today rows ≡ first_row s today rows
unfolding first_row
first_row-key_only s today [] = refl
first_row-key_only s today (r ∷ rows) =
    ap (λ b. if is_row s today r then true else b) (first_row-key_only s today rows)

in_table-new_stats :
    (is_in : Bool) (rule client : Bytes) (s : RealtimeTraffic) (today : ℕ)
    → in_table is_in rule client (new_stats s today ∷ []) ≡ in_copies is_in rule client (s ∷ [])
unfolding in_table in_copies
in_table-new_stats true rule client s today = refl
in_table-new_stats false rule client s today = refl

abbrev query : RealtimeTraffic → ℕ → List TrafficStats → QueryResult
query s today rows = stats_table.first s.rule_id s.client_id today rows

flush_row_lem :
    (is_in : Bool) (rule client : Bytes) (s : RealtimeTraffic) (today : ℕ)
    (rows : List TrafficStats)
    → (rows' : List TrafficStats) × (flush_row stats_table today s (query s today rows) rows
        ≡ some rows')
      × (in_table is_in rule client rows'
          ≡ in_table is_in rule client rows + in_copies is_in rule client (s ∷ []))
unfolding flush_row
flush_row_lem is_in rule client s today rows = elim (Bool-cases (first_row s today rows)) [
  | inl there ↦ (
    update_row s today rows,
    rw (first_row-key_only s today rows, there) refl,
    in_table-update_row is_in rule client s today rows there,
  )
  | inr missing ↦ (
    rows ++ new_stats s today ∷ [],
    rw (first_row-key_only s today rows, missing) refl,
    in_table-append is_in rule client rows (new_stats s today ∷ [])
        ∙ ap (λ n. in_table is_in rule client rows + n)
            (in_table-new_stats is_in rule client s today),
  )
]

flush_rows_next :
    (s : RealtimeTraffic) (today : ℕ) (copies : List RealtimeTraffic)
    (rows rows' : List TrafficStats)
    → flush_row stats_table today s (query s today rows) rows ≡ some rows'
    → flush_rows stats_table today (s ∷ copies) rows ≡ flush_rows stats_table today copies rows'
unfolding flush_rows
flush_rows_next s today copies rows rows' e = rw (e, flush_rows) refl

flush_rows_lem :
    (is_in : Bool) (rule client : Bytes) (today : ℕ) (copies : List RealtimeTraffic)
    (rows : List TrafficStats)
    → ((flush_rows stats_table today copies rows).1 ≡ true)
      × (in_table is_in rule client (flush_rows stats_table today copies rows).0
          ≡ in_table is_in rule client rows + in_copies is_in rule client copies)
unfolding flush_rows in_copies
flush_rows_lem is_in rule client today [] rows = (refl, omega arith)
flush_rows_lem is_in rule client today (s ∷ copies) rows =
    let (rows', e, one) = flush_row_lem is_in rule client s today rows in
    let (done, rest) = flush_rows_lem is_in rule client today copies rows' in
    let next = flush_rows_next s today copies rows rows' e in
    (
      ap (λ x. x.1) next ∙ done,
      ap (λ x. in_table is_in rule client x.0) next
          ∙ (let sum : in_table is_in rule client (flush_rows stats_table today copies rows').0
                  ≡ in_table is_in rule client rows + in_copies is_in rule client (s ∷ copies) =
                omega arith in
              sum),
    )

-- With a database that answers, a flush succeeds and moves what is counted in memory into the table:
-- for every rule and client the sum of both stays what it was, and nothing of it stays in memory, as
-- long as the amount in memory is below 2^63.
pub flush_conserves :
    (is_in : Bool) (rule client : Bytes) (today : ℕ) (repo : TrafficRepository)
    (rows : List TrafficStats)
    → in_memory is_in rule client repo < 9223372036854775808
    → let x = flush_to_database stats_table today repo rows in
      (x.2 ≡ true)
      × (in_memory is_in rule client x.0 ≡ 0)
      × (in_table is_in rule client x.1
          ≡ in_table is_in rule client rows + in_memory is_in rule client repo)
unfolding flush_to_database
flush_conserves is_in rule client today repo rows h =
    let (emptied, copied) = swap_out_lem is_in rule client repo h in
    let (done, stored) = flush_rows_lem is_in rule client today (swap_out repo).1 rows in
    (done, emptied, stored ∙ ap (λ n. in_table is_in rule client rows + n) copied)

flush_rows_failed :
    (db : TrafficDb) (is_in : Bool) (rule client : Bytes) (today : ℕ)
    (copies : List RealtimeTraffic) (rows : db.Rows)
    → 0 < in_copies is_in rule client copies
    → ((r c : Bytes) (t : ℕ) → db.first r c t rows ≡ query_failed)
    → flush_rows db today copies rows ≡ (rows, false)
unfolding flush_rows flush_row in_copies
flush_rows_failed db is_in rule client today [] rows h fails = absurd (omega arith)
flush_rows_failed db is_in rule client today (s ∷ copies) rows h fails =
    rw (fails s.rule_id s.client_id today, flush_rows) refl

-- When the first query of a flush fails, nothing is written, but the counters in memory have been
-- emptied all the same: the bytes counted since the last flush are lost.
pub flush_failed :
    (db : TrafficDb) (is_in : Bool) (rule client : Bytes) (today : ℕ) (repo : TrafficRepository)
    (rows : db.Rows)
    → in_memory is_in rule client repo < 9223372036854775808
    → 0 < in_memory is_in rule client repo
    → ((r c : Bytes) (t : ℕ) → db.first r c t rows ≡ query_failed)
    → let x = flush_to_database db today repo rows in
      (x.2 ≡ false) × (in_memory is_in rule client x.0 ≡ 0) × (x.1 ≡ rows)
unfolding flush_to_database
flush_failed db is_in rule client today repo rows h some_bytes fails =
    let (emptied, copied) = swap_out_lem is_in rule client repo h in
    let stopped =
      flush_rows_failed db is_in rule client today (swap_out repo).1 rows (omega arith) fails in
    (ap (λ x. x.1) stopped, emptied, ap (λ x. x.0) stopped)
