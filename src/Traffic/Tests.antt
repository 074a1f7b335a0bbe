-- ===== src/Traffic/Tests.antt =====
-- The theorems about traffic at small counters.
use message_boy.Base.{◌+◌, ◌≡◌, true, List, [], ◌∷◌, arith, Bytes, codes, str_eq}
use message_boy.Traffic.Conservation.{
  Event, moved, opened, closed, reported, run, pending, reported_bytes, total_moved, run_conserves,
}
use message_boy.Traffic.Repository.{TrafficRepository, stats_key, flush_to_database}
use message_boy.Traffic.StatsTable.{stats_table}
use message_boy.Traffic.Flush.{in_memory, in_table, flush_conserves}

abbrev rule : Bytes
rule = codes "r1"

abbrev events : List Event
events =
    opened rule
    ∷ moved true rule 100
    ∷ reported
    ∷ closed rule
    ∷ moved true rule 20
    ∷ closed rule
    ∷ []

run_conserves_example :
    pending true rule (run events ([], [])).0 + reported_bytes true rule (run events ([], [])).1
    ≡ pending true rule [] + reported_bytes true rule [] + total_moved true rule events
unfolding pending total_moved str_eq
run_conserves_example = run_conserves true rule events [] [] (omega arith)

abbrev client : Bytes
client = codes "alice"

abbrev memory : TrafficRepository
memory =
    (
      stats_key rule client,
      record {
        rule_id = rule;
        client_id = client;
        bytes_in = 40;
        bytes_out = 7;
        active_conns = 1;
        total_bytes_in = 40;
        total_bytes_out = 7;
      },
    )
    ∷ []

flush_conserves_example :
    ((flush_to_database stats_table 5 memory []).2 ≡ true)
    × (in_memory true rule client (flush_to_database stats_table 5 memory []).0 ≡ 0)
    × (in_table true rule client (flush_to_database stats_table 5 memory []).1
        ≡ in_table true rule client [] + in_memory true rule client memory)
unfolding in_memory str_eq
flush_conserves_example = flush_conserves true rule client 5 memory [] (omega arith)
