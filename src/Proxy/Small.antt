-- ===== src/Proxy/Small.antt =====
-- proxy_group_repo.go: how many healthy nodes a group of the tables can have.
use message_boy.Base.{
  ℕ, ◌≤◌, ◌<◌, ◌≡◌, ap, arith, List, Option, none, some, Bytes, length, filter, length-order_by,
  length-filter,
}
use message_boy.Proxy.{ProxyGroupNode}
use message_boy.Proxy.Selecting.{IsSmall}
use message_boy.Proxy.Tables.{
  ProxyTables, healthy_in_group, by_priority_and_conns, get_healthy_nodes_by_group_id,
  tables_reader,
}

few_healthy :
    (group : Bytes) (db : ProxyTables)
    → length (get_healthy_nodes_by_group_id group db) ≤ length db.nodes
unfolding get_healthy_nodes_by_group_id
few_healthy group db =
    let sorted = length-order_by by_priority_and_conns (filter (healthy_in_group group) db.nodes) in
    let bound = length-filter (healthy_in_group group) db.nodes in omega (arith, sorted, bound)

abbrev or_no_rows : Option (List ProxyGroupNode) → ℕ
or_no_rows (some nodes) = length nodes
or_no_rows none = 0

-- A table of fewer than 2^32 nodes is small.
pub tables_reader-IsSmall :
    {Seed : Type 0} (intn : ℕ → Seed → Seed × ℕ) (db : ProxyTables)
    → length db.nodes < 4294967296
    → IsSmall (tables_reader intn) db
tables_reader-IsSmall intn db few group nodes e =
    let size : length (get_healthy_nodes_by_group_id group db) ≡ length nodes = ap or_no_rows e in
    let bound = few_healthy group db in omega (arith, size, bound, few)
