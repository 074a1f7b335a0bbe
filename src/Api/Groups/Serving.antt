-- ===== src/Api/Groups/Serving.antt =====
-- internal/api/proxy_group_rpc.go with load_balancer.go over the same tables: what a change of a group
-- means for the connections that come for it.
use message_boy.Base.{
  ℕ, ◌+◌, ◌<◌, ◌≡◌, refl, ap, ◌∙◌, arith, Bool, true, false, List, [], ◌∷◌, ◌++◌, some, Bytes,
  if_case, str_eq, str_eq_refl, is_empty, filter, length, length-append, length-order_by,
  length-filter,
}
use message_boy.Storage.{ClientRow, client_status_online}
use message_boy.Storage.Clients
use message_boy.Proxy.{ProxyGroup, ProxyGroupNode, node_status_healthy}
use message_boy.Proxy.Balancer.{LoadBalancer, select_node, select_healthy}
use message_boy.Proxy.Selecting.{IsChosen, select_by-IsChosen}
use message_boy.Proxy.Tables
use message_boy.Proxy.Tables.{
  ProxyTables, healthy_in_group, by_priority_and_conns, get_nodes_by_group_id,
  get_healthy_nodes_by_group_id, tables_reader,
}
use message_boy.Api.{reply}
use message_boy.Api.Groups.{AddProxyGroupNodeParams, new_node, has_client}
use message_boy.Api.Groups.Nodes.{
  add_new, add_to, add_for_client, add_for_group, add_proxy_group_node,
}
use message_boy.Api.Groups.Tables.{GroupSite, group_backend}

-- A row at the end that passes.
filter-last :
    (q : ProxyGroupNode → Bool) (n : ProxyGroupNode) (nodes : List ProxyGroupNode)
    → q n ≡ true
    → 0 < length (filter q (nodes ++ n ∷ []))
unfolding filter
filter-last q n [] e = rw e (omega arith)
filter-last q n (x ∷ nodes) e =
    let rest = filter-last q n nodes e in
    if_case (λ (l : List ProxyGroupNode). 0 < length l) (q x) (x ∷ filter q (nodes ++ n ∷ [])) _
      (omega arith) rest

module _ {Seed : Type 0} (intn : ℕ → Seed → Seed × ℕ) where
  -- SelectNode over tables in which the group and a healthy node of it are.
  select_node-IsChosen :
      (group client_ip : Bytes) (g : ProxyGroup) (lb : LoadBalancer (tables_reader intn))
      → ((n : ℕ) (seed : Seed) → 0 < n → (intn n seed).1 < n)
      → Tables.get_by_id group lb.store ≡ some g
      → 0 < length (get_healthy_nodes_by_group_id group lb.store)
      → length (get_healthy_nodes_by_group_id group lb.store) < 4294967296
      → IsChosen (get_healthy_nodes_by_group_id group lb.store) (select_node group client_ip lb).1
  unfolding select_node select_healthy
  select_node-IsChosen group client_ip g lb h e some_healthy few =
      rw (e, select_node) (go (get_healthy_nodes_by_group_id group lb.store) some_healthy few)
    where
      go :
          (nodes : List ProxyGroupNode)
          → 0 < length nodes
          → length nodes < 4294967296
          → IsChosen nodes
              (select_healthy {reader = tables_reader intn} g.load_balance_method group
                (some nodes)
                client_ip
                lb).1
      go [] pos few = absurd (omega arith)
      go (n ∷ nodes) pos few =
          select_by-IsChosen g.load_balance_method group client_ip (n ∷ nodes) lb h pos few

module _ (contains : Bytes → Bytes → Bool) (uuid : ℕ → Bytes) where
  -- Where all checks pass the method adds the row.
  add_proxy_group_node_added :
      (p : AddProxyGroupNodeParams) (g : ProxyGroup) (c : ClientRow) (s : GroupSite)
      → is_empty p.group_id ≡ false
      → is_empty p.client_id ≡ false
      → Tables.get_by_id p.group_id s.tables ≡ some g
      → Clients.get_by_id p.client_id s.clients ≡ some c
      → has_client p.client_id (get_nodes_by_group_id p.group_id s.tables) ≡ false
      → add_proxy_group_node (group_backend contains uuid) (some p) s ≡ (
        record s {
          tables = Tables.add_node (new_node (uuid s.drawn) p c) s.tables;
          drawn = s.drawn + 1;
        },
        reply (uuid s.drawn, p.group_id, p.client_id),
      )
  unfolding add_proxy_group_node add_for_group add_for_client add_to add_new
  add_proxy_group_node_added p g c s named assigned group client free =
      rw (named, assigned, group, client, free) refl

  -- A client that is online is added to a group: whatever the group's method, the balancer now finds a
  -- healthy node for every connection to the group, given the contract of `rand.Intn` and fewer than
  -- 2^32 nodes.
  pub add_proxy_group_node_serves :
      {Seed : Type 0} (intn : ℕ → Seed → Seed × ℕ) (p : AddProxyGroupNodeParams) (g : ProxyGroup)
      (c : ClientRow) (s : GroupSite) (client_ip : Bytes) (lb : LoadBalancer (tables_reader intn))
      → ((n : ℕ) (seed : Seed) → 0 < n → (intn n seed).1 < n)
      → is_empty p.group_id ≡ false
      → is_empty p.client_id ≡ false
      → Tables.get_by_id p.group_id s.tables ≡ some g
      → Clients.get_by_id p.client_id s.clients ≡ some c
      → has_client p.client_id (get_nodes_by_group_id p.group_id s.tables) ≡ false
      → str_eq c.status client_status_online ≡ true
      → length s.tables.nodes + 1 < 4294967296
      → lb.store ≡ (add_proxy_group_node (group_backend contains uuid) (some p) s).0.tables
      → IsChosen
          (get_healthy_nodes_by_group_id p.group_id lb.store)
          (select_node p.group_id client_ip lb).1
  unfolding get_healthy_nodes_by_group_id Tables.add_node new_node Tables.get_by_id
  add_proxy_group_node_serves intn p g c s client_ip lb h named assigned group client free online
        few at =
      let n = new_node (uuid s.drawn) p c in
      let healthy = healthy_in_group p.group_id in
      let added =
        ap (λ x. x.0.tables)
          (add_proxy_group_node_added p g c s named assigned group client free) in
      let store : lb.store ≡ Tables.add_node n s.tables = at ∙ added in
      let passes : healthy n ≡ true =
        rw (online, str_eq_refl p.group_id, str_eq_refl node_status_healthy) refl in
      let sorted =
        length-order_by by_priority_and_conns (filter healthy (s.tables.nodes ++ n ∷ [])) in
      let some_healthy = filter-last healthy n s.tables.nodes passes in
      let bound = length-filter healthy (s.tables.nodes ++ n ∷ []) in
      let total = length-append s.tables.nodes (n ∷ []) in
      let size = ap (λ db. length (get_healthy_nodes_by_group_id p.group_id db)) store ∙ sorted in
      select_node-IsChosen intn p.group_id client_ip g lb h
        (ap (Tables.get_by_id p.group_id) store ∙ group) (omega (arith, size, some_healthy))
        (omega (arith, size, bound, total))
