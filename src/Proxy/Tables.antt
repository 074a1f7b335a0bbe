-- ===== src/Proxy/Tables.antt =====
-- internal/storage/proxy_group_repo.go: the queries and updates on the tables of groups and nodes, as
-- the database executes them. Time stamps and the clients joined to the nodes are left out, and so are
-- the errors of the connection to the database; ties of an ORDER BY keep the order of the table.
use mathlib.Core.List.{reverse}
use message_boy.Base.{
  ℕ, ◌+◌, ◌-◌, ◌*◌, Bool, true, false, ◌&&◌, ◌||◌, not, List, [], ◌∷◌, ◌++◌, Option, some, Bytes,
  ◌==◌, ltb, leb, str_eq, find, filter, update_where, order_by, take, drop, if◌then◌else◌,
}
use message_boy.Proxy.{
  ProxyGroup, ProxyGroupNode, ProxyGroupReader, ProxyGroupStore, node_status_healthy,
  node_status_unhealthy,
}

pub record ProxyTables : Type 0 where
  pub groups : List ProxyGroup
  pub nodes : List ProxyGroupNode

-- The conditions of the queries.
abbrev pub has_id : Bytes → ProxyGroupNode → Bool
has_id id node = str_eq node.id id

abbrev pub in_group : Bytes → ProxyGroupNode → Bool
in_group group node = str_eq node.group_id group

abbrev pub healthy_in_group : Bytes → ProxyGroupNode → Bool
healthy_in_group group node = str_eq node.group_id group && str_eq node.status node_status_healthy

-- "priority ASC, active_conns ASC".
abbrev pub by_priority_and_conns : ProxyGroupNode → ProxyGroupNode → Bool
by_priority_and_conns a b =
    ltb a.priority b.priority || (a.priority == b.priority && leb a.active_conns b.active_conns)

abbrev pub by_priority : ProxyGroupNode → ProxyGroupNode → Bool
by_priority a b = leb a.priority b.priority

unfoldable pub get_by_id : Bytes → ProxyTables → Option ProxyGroup
get_by_id id db = find (λ (g : ProxyGroup). str_eq g.id id) db.groups

unfoldable pub get_by_name : Bytes → ProxyTables → Option ProxyGroup
get_by_name name db = find (λ (g : ProxyGroup). str_eq g.name name) db.groups

-- `List` without a search, newest first.
unfoldable pub list_groups : ℕ → ℕ → ProxyTables → List ProxyGroup
list_groups page limit db = take limit (drop ((page - 1) * limit) (reverse db.groups))

unfoldable pub create_group : ProxyGroup → ProxyTables → ProxyTables
create_group group db = record db { groups = db.groups ++ group ∷ [] }

-- `Save` writes the whole row of the id, and inserts the row if there is none.
unfoldable pub save_group : ProxyGroup → List ProxyGroup → List ProxyGroup
save_group group [] = group ∷ []
save_group group (g ∷ groups) =
    if str_eq g.id group.id then group ∷ groups else g ∷ save_group group groups

unfoldable pub update_group : ProxyGroup → ProxyTables → ProxyTables
unfolding save_group
update_group group db = record db { groups = save_group group db.groups }

unfoldable pub delete_group : Bytes → ProxyTables → ProxyTables
delete_group id db = record {
  groups = filter (λ (g : ProxyGroup). not (str_eq g.id id)) db.groups;
  nodes = filter (λ (n : ProxyGroupNode). not (str_eq n.group_id id)) db.nodes;
}

unfoldable pub add_node : ProxyGroupNode → ProxyTables → ProxyTables
add_node node db = record db { nodes = db.nodes ++ node ∷ [] }

unfoldable pub get_node : Bytes → ProxyTables → Option ProxyGroupNode
get_node id db = find (has_id id) db.nodes

unfoldable pub save_node : ProxyGroupNode → List ProxyGroupNode → List ProxyGroupNode
save_node node [] = node ∷ []
save_node node (n ∷ nodes) = if str_eq n.id node.id then node ∷ nodes else n ∷ save_node node nodes

unfoldable pub update_node : ProxyGroupNode → ProxyTables → ProxyTables
unfolding save_node
update_node node db = record db { nodes = save_node node db.nodes }

-- Rows are taken to stand in the order of their creation.
unfoldable pub get_nodes_by_group_id : Bytes → ProxyTables → List ProxyGroupNode
get_nodes_by_group_id group db = order_by by_priority (filter (in_group group) db.nodes)

unfoldable pub get_healthy_nodes_by_group_id : Bytes → ProxyTables → List ProxyGroupNode
get_healthy_nodes_by_group_id group db =
    order_by by_priority_and_conns (filter (healthy_in_group group) db.nodes)

unfoldable pub remove_node : Bytes → ProxyTables → ProxyTables
remove_node id db = record db {
  nodes = filter (λ (n : ProxyGroupNode). not (str_eq n.id id)) db.nodes;
}

unfoldable pub remove_node_by_client_id : Bytes → Bytes → ProxyTables → ProxyTables
remove_node_by_client_id group client db = record db {
  nodes =
      filter (λ (n : ProxyGroupNode). not (str_eq n.group_id group && str_eq n.client_id client))
        db.nodes;
}

abbrev pub with_health : Bool → ProxyGroupNode → ProxyGroupNode
with_health true node = record node {
  last_check_ok = true;
  status = node_status_healthy;
  fail_count = 0;
}
with_health false node = record node { last_check_ok = false; fail_count = node.fail_count + 1 }

abbrev pub with_unhealthy : ProxyGroupNode → ProxyGroupNode
with_unhealthy node = record node { status = node_status_unhealthy }

unfoldable pub update_node_health : Bytes → Bool → ProxyTables → ProxyTables
update_node_health id healthy db = record db {
  nodes = update_where (has_id id) (with_health healthy) db.nodes;
}

unfoldable pub mark_node_unhealthy : Bytes → ProxyTables → ProxyTables
mark_node_unhealthy id db = record db { nodes = update_where (has_id id) with_unhealthy db.nodes }

abbrev pub one_more : ProxyGroupNode → ProxyGroupNode
one_more node = record node { active_conns = node.active_conns + 1 }

abbrev pub one_less : ProxyGroupNode → ProxyGroupNode
one_less node = record node { active_conns = node.active_conns - 1 }

unfoldable pub increment_node_conns : Bytes → ProxyTables → ProxyTables
increment_node_conns id db = record db { nodes = update_where (has_id id) one_more db.nodes }

unfoldable pub decrement_node_conns : Bytes → ProxyTables → ProxyTables
decrement_node_conns id db = record db {
  nodes =
      update_where (λ (n : ProxyGroupNode). has_id id n && ltb 0 n.active_conns) one_less db.nodes;
}

-- The tables behind the balancer, with the random numbers given.
abbrev pub tables_reader : {Seed : Type 0} → (ℕ → Seed → Seed × ℕ) → ProxyGroupReader
tables_reader {Seed = Seed} intn = record {
  Store = ProxyTables;
  get_by_id = get_by_id;
  get_by_name = get_by_name;
  get_healthy_nodes_by_group_id = λ group db. some (get_healthy_nodes_by_group_id group db);
  increment_node_conns = λ id db. (increment_node_conns id db, true);
  decrement_node_conns = λ id db. (decrement_node_conns id db, true);
  Seed = Seed;
  intn = intn;
}

-- The tables behind the health checker, which asks for the first thousand groups.
abbrev pub tables_store : ProxyGroupStore
tables_store = record {
  Store = ProxyTables;
  list = λ db. some (list_groups 1 1000 db);
  get_nodes_by_group_id = λ group db. some (get_nodes_by_group_id group db);
  get_node = get_node;
  get_by_id = get_by_id;
  update_node_health = λ id healthy db. (update_node_health id healthy db, true);
  mark_node_unhealthy = mark_node_unhealthy;
}
