-- ===== src/Proxy/Tests.antt =====
-- The theorems about groups at a group of two nodes.
use message_boy.Base.{
  ℕ, ◌<◌, ◌≡◌, refl, ◌⊎◌, Bool, true, false, [], ◌∷◌, some, arith, Bytes, codes, get_elem?, find,
  filter, order_by, insert_sorted, lookup, str_eq,
}
use message_boy.Proxy.{ProxyGroup, ProxyGroupNode, load_balance_round_robin, node_status_healthy}
use message_boy.Proxy.Balancer.{
  from_index, LoadBalancer, rr_counter, select_node, target_of, resolve_target, is_group_reference,
}
use message_boy.Proxy.Fairness.{turns, IsRoundRobin, select_node_round_robin}
use message_boy.Proxy.Selecting.{IsIntn, IsSmall, IsSelection, select_node-IsSelection}
use message_boy.Proxy.Resolving.{IsResolution, resolve_target_lem}
use message_boy.Proxy.Tables.{
  ProxyTables, get_by_id, get_by_name, get_node, get_healthy_nodes_by_group_id, tables_reader,
}
use message_boy.Proxy.Small.{tables_reader-IsSmall}
use message_boy.Proxy.Outage.{checks, after_failures, checks_offline}

abbrev group : ProxyGroup
group = record {
  id = codes "g1";
  name = codes "eu";
  description = [];
  load_balance_method = load_balance_round_robin;
  health_check_enabled = true;
  health_check_interval = 30;
  health_check_timeout = 5;
  health_check_retries = 3;
}

abbrev node_of : Bytes → Bytes → ℕ → ProxyGroupNode
node_of id client conns = record {
  id = id;
  group_id = codes "g1";
  client_id = client;
  priority = 100;
  weight = 100;
  status = node_status_healthy;
  last_check_ok = true;
  fail_count = 0;
  active_conns = conns;
}

abbrev first_node : ProxyGroupNode
first_node = node_of (codes "n1") (codes "alice") 4

abbrev second_node : ProxyGroupNode
second_node = node_of (codes "n2") (codes "bob") 1

abbrev tables : ProxyTables
tables = record { groups = group ∷ []; nodes = first_node ∷ second_node ∷ [] }

-- The generator always answers 0.
abbrev intn : ℕ → ℕ → ℕ × ℕ
intn n seed = (seed, 0)

abbrev balancer : LoadBalancer (tables_reader intn)
balancer = record { store = tables; rr_counters = []; seed = 1 }

intn-IsIntn : IsIntn (tables_reader intn)
intn-IsIntn n seed h = h

tables-IsSmall : IsSmall (tables_reader intn) tables
tables-IsSmall = tables_reader-IsSmall intn tables (omega arith)

select_node-IsSelection_example :
    IsSelection
      (get_by_id (codes "g1") tables)
      (some (get_healthy_nodes_by_group_id (codes "g1") tables))
      (select_node (codes "g1") (codes "1.2.3.4") balancer).1
select_node-IsSelection_example =
    select_node-IsSelection (codes "g1") (codes "1.2.3.4") balancer intn-IsIntn tables-IsSmall

resolve_target_lem_example :
    ((is_group_reference (codes "@eu") ≡ false)
      × (resolve_target (codes "@eu") (codes "carol") balancer
          ≡ (balancer, target_of (codes "@eu") [])))
    ⊎ ((is_group_reference (codes "@eu") ≡ true)
        × IsResolution balancer
            (codes "eu")
            (get_by_id (codes "eu") tables)
            (get_by_name (codes "eu") tables)
            (resolve_target (codes "@eu") (codes "carol") balancer).1)
resolve_target_lem_example =
    resolve_target_lem (codes "@eu") (codes "carol") balancer intn-IsIntn tables-IsSmall

-- The node with fewer connections comes first.
tables-IsRoundRobin :
    IsRoundRobin (tables_reader intn) (codes "g1") (second_node ∷ first_node ∷ []) tables
unfolding get_by_id get_healthy_nodes_by_group_id find filter order_by insert_sorted str_eq
tables-IsRoundRobin = (group, refl, refl, refl)

select_node_round_robin_example :
    (j : ℕ) × (j < 2)
    × (get_elem? (turns 2 (codes "g1") (codes "carol") balancer) j
        ≡ some (from_index (get_elem? (second_node ∷ first_node ∷ []) 1)))
unfolding rr_counter lookup
select_node_round_robin_example =
    select_node_round_robin (codes "g1") (codes "carol") second_node (first_node ∷ []) balancer 1
      tables-IsRoundRobin (omega arith) (omega arith)

abbrev nobody : Bytes → Bool
nobody client = false

checks_offline_example :
    get_node (codes "n1") (checks nobody group first_node 3 tables)
    ≡ some (after_failures group 3 first_node)
unfolding get_node find str_eq
checks_offline_example = checks_offline nobody group first_node first_node tables 2 refl refl
