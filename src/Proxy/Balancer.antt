-- ===== src/Proxy/Balancer.antt =====
-- internal/proxy/load_balancer.go, and the references of internal/storage/proxy_group_repo.go.
use Prim.Native.Nat.{bit_xor}
use message_boy.Base.{
  ℕ, ◌+◌, ◌*◌, ◌%◌, Bool, ◌&&◌, List, [], ◌∷◌, Option, none, some, Bytes, ◌==◌, ltb, if◌then◌else◌,
  length, get_elem?, get_or, drop, Map, bytes_eq, lookup, insert, str_eq,
}
use message_boy.Proxy.{
  ProxyGroupNode, ProxyGroupReader, load_balance_round_robin, load_balance_random,
  load_balance_least_conn, load_balance_ip_hash,
}

pub data LbError : Type 0 where
  err_no_healthy_nodes err_group_not_found : LbError

-- A node, an error, or the panic of an index out of range or of a division by zero.
pub data Selection : Type 0 where
  selected : ProxyGroupNode → Selection
  refused : LbError → Selection
  index_panic : Selection

-- `IsGroupReference`.
unfoldable pub is_group_reference : Bytes → Bool
is_group_reference s = ltb 1 (length s) && get_or s 0 0 == b'@'

unfoldable pub parse_group_reference : Bytes → Bytes
unfolding is_group_reference
parse_group_reference s = if is_group_reference s then drop 1 s else s

-- FNV-1a of 32 bits, from the state `h`.
unfoldable pub fnv32a : ℕ → Bytes → ℕ
fnv32a h [] = h
fnv32a h (b ∷ s) = fnv32a (bit_xor h b * 16777619 % 4294967296) s

unfoldable pub sum32 : Bytes → ℕ
unfolding fnv32a
sum32 s = fnv32a 2166136261 s

unfoldable pub from_index : Option ProxyGroupNode → Selection
from_index none = index_panic
from_index (some node) = selected node

-- `nodes[n % m]`.
unfoldable pub at_mod : List ProxyGroupNode → ℕ → ℕ → Selection
unfolding from_index
at_mod nodes n m = if m == 0 then index_panic else from_index (get_elem? nodes (n % m))

unfoldable pub select_least_conn : List ProxyGroupNode → Selection
unfolding from_index
select_least_conn nodes = from_index (get_elem? nodes 0)

unfoldable pub select_ip_hash : List ProxyGroupNode → Bytes → Selection
unfolding at_mod sum32
select_ip_hash nodes client_ip = at_mod nodes (sum32 client_ip) (length nodes % 4294967296)

module _ (reader : ProxyGroupReader) where
  -- `rr_counters` leads from a group's id to its counter.
  pub record LoadBalancer : Type 0 where
    pub store : reader.Store
    pub rr_counters : Map Bytes ℕ
    pub seed : reader.Seed

module _ {reader : ProxyGroupReader} where
  pub new_load_balancer : reader.Store → reader.Seed → LoadBalancer reader
  new_load_balancer store seed = record { store = store; rr_counters = []; seed = seed }

  -- A counter that is not there starts at 0.
  unfoldable pub rr_counter : Bytes → LoadBalancer reader → ℕ
  rr_counter group lb = elim (lookup group lb.rr_counters) [ none ↦ 0 | some c ↦ c ]

  unfoldable pub select_round_robin :
      Bytes → List ProxyGroupNode → LoadBalancer reader → LoadBalancer reader × Selection
  unfolding at_mod rr_counter
  select_round_robin group nodes lb =
      let c = (rr_counter group lb + 1) % 18446744073709551616 in
      (
        record lb { rr_counters = insert group c lb.rr_counters },
        at_mod nodes c (length nodes % 18446744073709551616),
      )

  unfoldable pub select_random :
      List ProxyGroupNode → LoadBalancer reader → LoadBalancer reader × Selection
  unfolding from_index
  select_random nodes lb =
      let (seed', idx) = reader.intn (length nodes) lb.seed in
      (record lb { seed = seed' }, from_index (get_elem? nodes idx))

  -- The switch of `SelectNode`.
  unfoldable pub select_by :
      Bytes
      → Bytes
      → List ProxyGroupNode
      → Bytes
      → LoadBalancer reader
      → LoadBalancer reader × Selection
  unfolding select_round_robin select_random select_least_conn select_ip_hash
  select_by method group nodes client_ip lb =
      if str_eq method load_balance_round_robin
      then select_round_robin group nodes lb
      else if str_eq method load_balance_random
      then select_random nodes lb
      else if str_eq method load_balance_least_conn
      then (lb, select_least_conn nodes)
      else if str_eq method load_balance_ip_hash
      then (lb, select_ip_hash nodes client_ip)
      else select_round_robin group nodes lb

  unfoldable pub select_healthy :
      Bytes
      → Bytes
      → Option (List ProxyGroupNode)
      → Bytes
      → LoadBalancer reader
      → LoadBalancer reader × Selection
  unfolding select_by
  select_healthy method group none client_ip lb = (lb, refused err_no_healthy_nodes)
  select_healthy method group (some []) client_ip lb = (lb, refused err_no_healthy_nodes)
  select_healthy method group (some (node ∷ rest)) client_ip lb =
      select_by method group (node ∷ rest) client_ip lb

  unfoldable pub select_node : Bytes → Bytes → LoadBalancer reader → LoadBalancer reader × Selection
  unfolding select_healthy
  select_node group client_ip lb = elim (reader.get_by_id group lb.store) [
    | none ↦ (lb, refused err_group_not_found)
    | some g ↦
        select_healthy g.load_balance_method group
          (reader.get_healthy_nodes_by_group_id group lb.store) client_ip lb
  ]

  unfoldable pub select_node_by_group_name :
      Bytes → Bytes → LoadBalancer reader → LoadBalancer reader × Selection
  select_node_by_group_name name client_ip lb = elim (reader.get_by_name name lb.store) [
    | none ↦ (lb, refused err_group_not_found)
    | some g ↦ select_node g.id client_ip lb
  ]

  pub increment_connections : Bytes → LoadBalancer reader → LoadBalancer reader × Bool
  increment_connections node lb =
      let (store', done) = reader.increment_node_conns node lb.store in
      (record lb { store = store' }, done)

  pub decrement_connections : Bytes → LoadBalancer reader → LoadBalancer reader × Bool
  decrement_connections node lb =
      let (store', done) = reader.decrement_node_conns node lb.store in
      (record lb { store = store' }, done)

  pub get_group_id_by_name : Bytes → LoadBalancer reader → Option Bytes
  get_group_id_by_name name lb = elim (reader.get_by_name name lb.store) [
    | none ↦ none
    | some g ↦ some g.id
  ]

-- What `ResolveTarget` returns: a client and a node, an error, or a panic on the way.
pub data Target : Type 0 where
  target_of : Bytes → Bytes → Target
  no_target : LbError → Target
  target_panic : Target

unfoldable pub to_target : Selection → Target
to_target (selected node) = target_of node.client_id node.id
to_target (refused e) = no_target e
to_target index_panic = target_panic

module _ {reader : ProxyGroupReader} where
  -- The second attempt, by name, is made only if the first found no group.
  unfoldable pub or_by_name :
      Bytes → Bytes → LoadBalancer reader × Selection → LoadBalancer reader × Selection
  unfolding select_node_by_group_name
  or_by_name ref client_ip (lb, refused err_group_not_found) =
      select_node_by_group_name ref client_ip lb
  or_by_name ref client_ip (lb, refused err_no_healthy_nodes) = (lb, refused err_no_healthy_nodes)
  or_by_name ref client_ip (lb, selected node) = (lb, selected node)
  or_by_name ref client_ip (lb, index_panic) = (lb, index_panic)

  unfoldable pub resolve_target : Bytes → Bytes → LoadBalancer reader → LoadBalancer reader × Target
  unfolding or_by_name to_target
  resolve_target target client_ip lb =
      if is_group_reference target
      then (let ref = parse_group_reference target in
          let (lb', selection) = or_by_name ref client_ip (select_node ref client_ip lb) in
          (lb', to_target selection))
      else (lb, target_of target [])
