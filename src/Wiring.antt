-- ===== src/Wiring.antt =====
-- cmd/server/main.go: the relay server with the balancer over the tables of groups and with the traffic
-- counters of the storage. The relay server's side of both is the record `Services`.
mod Tests
use mathlib.Core.Option
use message_boy.Base.{
  ℕ, ◌*◌, Bool, false, ◌&&◌, List, [], ◌∷◌, Option, none, some, Bytes, codes, if◌then◌else◌, map,
  Map, bytes_eq,
}
use message_boy.Wire.{TunnelMessage}
use message_boy.Wire.Pool.{BufferPool}
use message_boy.Hub.{Resolution, resolved, failed, Services, send_msg_to_client}
use message_boy.Proxy.Balancer.{
  LbError, err_no_healthy_nodes, err_group_not_found, LoadBalancer, Target, target_of, no_target,
  target_panic, resolve_target, increment_connections, decrement_connections,
}
use message_boy.Proxy.Tables.{ProxyTables, tables_reader}
use message_boy.Traffic.{is_positive_int64}
use message_boy.Traffic.Repository.{
  TrafficRepository, TrafficReportItem, new_realtime_traffic, add_bytes_in, add_bytes_out,
  increment_conn, decrement_conn, report_traffic,
}
use message_boy.Traffic.Flush.{in_memory}
use message_boy.Traffic.Counter
use message_boy.Traffic.Counter.{TrafficReport, get_and_reset}
use message_boy.Conn.Sealing.{tag_size}
use message_boy.Tunnel.Forwarding.{forward_to_tunnel}

abbrev pub lb_error_text : LbError → Bytes
lb_error_text err_no_healthy_nodes = codes "no healthy nodes available"
lb_error_text err_group_not_found = codes "proxy group not found"

-- A panic would end the server.
abbrev pub to_resolution : Target → Resolution
to_resolution (target_of client node) = resolved client node
to_resolution (no_target e) = failed (lb_error_text e)
to_resolution target_panic = failed []

module _ (pool : BufferPool) {Seed : Type 0} (intn : ℕ → Seed → Seed × ℕ) where
  abbrev pub relay_services : Services
  relay_services = record {
    Balancer = LoadBalancer (tables_reader intn);
    Counter = TrafficRepository;
    resolve_target = λ target client lb.
        ((resolve_target target client lb).0, to_resolution (resolve_target target client lb).1);
    increment_connections = λ node lb. (increment_connections node lb).0;
    decrement_connections = λ node lb. (decrement_connections node lb).0;
    add_bytes_in = add_bytes_in;
    add_bytes_out = add_bytes_out;
    increment_conn = increment_conn;
    decrement_conn = decrement_conn;
    pool = pool;
  }

-- A report as the server decodes it: both sides name the fields alike.
abbrev pub to_item : TrafficReport → TrafficReportItem
to_item r = record {
  rule_id = r.rule_id;
  bytes_in = r.bytes_in;
  bytes_out = r.bytes_out;
  connections = r.connections;
  active_conns = r.active_conns;
}

-- What a client reports that has one connection for the rule, from which `text` was read.
abbrev pub client_items :
    {S : Type 0} → (TunnelMessage → S → S × Bool) → Bytes → ℕ → Bytes → S → List TrafficReportItem
client_items send rule stream text s =
    map to_item
      (get_and_reset
        (forward_to_tunnel send rule stream (some text ∷ [])
          (Counter.increment_conn rule [], s)).0).1

-- The bytes sent that are in memory once the report is in.
abbrev pub after_report : Bytes → Bytes → List TrafficReportItem → TrafficRepository → ℕ
after_report rule client items repo = in_memory false rule client (report_traffic client items repo)

one_report : Bytes → ℕ → TrafficReportItem
one_report rule n = record {
  rule_id = rule;
  bytes_in = 0;
  bytes_out = n;
  connections = 1;
  active_conns = 1;
}
