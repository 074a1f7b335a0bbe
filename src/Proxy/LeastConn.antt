-- ===== src/Proxy/LeastConn.antt =====
-- load_balancer.go, selectLeastConn, over the order of GetHealthyNodesByGroupID.
use message_boy.Base.{
  ◌≤◌, ◌≡◌, true, List, [], ◌∷◌, arith, Bytes, All, filter, order_by, IsPreorder, IsLeast,
  order_by-IsLeast, get_elem?,
}
use message_boy.Proxy.{ProxyGroupNode}
use message_boy.Proxy.Balancer.{selected, from_index, select_least_conn}
use message_boy.Proxy.Tables.{
  ProxyTables, healthy_in_group, by_priority_and_conns, get_healthy_nodes_by_group_id,
}

by_priority_and_conns-IsPreorder : IsPreorder by_priority_and_conns
by_priority_and_conns-IsPreorder = ((λ x y. ground arith), (λ x y z h h'. ground arith))

-- Least by priority, and among those of its priority least by connections.
abbrev pub IsPreferred : ProxyGroupNode → ProxyGroupNode → Type 0
IsPreferred a b =
    (a.priority ≤ b.priority) × (a.priority ≡ b.priority → a.active_conns ≤ b.active_conns)

preferred : (a b : ProxyGroupNode) → by_priority_and_conns a b ≡ true → IsPreferred a b
preferred a b h = ground arith

All-IsPreferred :
    (a : ProxyGroupNode) (nodes : List ProxyGroupNode)
    → All (λ b. by_priority_and_conns a b ≡ true) nodes
    → All (IsPreferred a) nodes
All-IsPreferred a [] h = tt
All-IsPreferred a (b ∷ nodes) h = (preferred a b h.0, All-IsPreferred a nodes h.1)

-- The least-connections method chooses, among the group's healthy nodes, one of the smallest
-- priority, and only among those of that priority one with the fewest connections.
pub select_least_conn_lem :
    (group : Bytes) (db : ProxyTables) (node : ProxyGroupNode)
    → select_least_conn (get_healthy_nodes_by_group_id group db) ≡ selected node
    → All (IsPreferred node) (filter (healthy_in_group group) db.nodes)
unfolding select_least_conn get_healthy_nodes_by_group_id from_index
select_least_conn_lem group db node e =
    go (order_by by_priority_and_conns (filter (healthy_in_group group) db.nodes)) e (
      order_by-IsLeast by_priority_and_conns (filter (healthy_in_group group) db.nodes)
        by_priority_and_conns-IsPreorder)
  where
    go :
        (l : List ProxyGroupNode)
        → from_index (get_elem? l 0) ≡ selected node
        → IsLeast by_priority_and_conns (filter (healthy_in_group group) db.nodes) l
        → All (IsPreferred node) (filter (healthy_in_group group) db.nodes)
    go [] e h = absurd (cc)
    go (first ∷ rest) e h =
        let same : first ≡ node = cc in
        rw (← same) (All-IsPreferred first (filter (healthy_in_group group) db.nodes) h)
