-- ===== src/Proxy/Selecting.antt =====
-- load_balancer.go: whom SelectNode chooses.
use mathlib.Core.Path.{subst}
use native.Mathlib.Nat.{mod-lt}
use message_boy.Base.{
  ℕ, ◌+◌, ◌%◌, ◌<◌, ◌≡◌, refl, false, List, [], ◌∷◌, Option, none, some, arith, Bytes, ◌==◌,
  if_case, length, get_elem?, get_elem?-bound,
}
use message_boy.Proxy.{ProxyGroup, ProxyGroupNode, ProxyGroupReader}
use message_boy.Proxy.Balancer.{
  err_no_healthy_nodes, err_group_not_found, Selection, selected, refused, at_mod, from_index,
  select_least_conn, select_ip_hash, LoadBalancer, rr_counter, select_round_robin, select_random,
  select_by, select_healthy, select_node, sum32,
}

-- The node stands somewhere in the list.
abbrev pub Occurs : ProxyGroupNode → List ProxyGroupNode → Type 0
Occurs node nodes = (i : ℕ) × (get_elem? nodes i ≡ some node)

abbrev pub IsChosen : List ProxyGroupNode → Selection → Type 0
IsChosen nodes sel = (node : ProxyGroupNode) × (sel ≡ selected node) × Occurs node nodes

-- What SelectNode owes for a group's row and its healthy nodes.
abbrev pub IsSelection : Option ProxyGroup → Option (List ProxyGroupNode) → Selection → Type 0
IsSelection none nodes sel = sel ≡ refused err_group_not_found
IsSelection (some g) none sel = sel ≡ refused err_no_healthy_nodes
IsSelection (some g) (some []) sel = sel ≡ refused err_no_healthy_nodes
IsSelection (some g) (some (node ∷ rest)) sel = IsChosen (node ∷ rest) sel

-- The documented contract of `rand.Intn`, and a store whose groups have fewer than 2^32 healthy nodes.
abbrev pub IsIntn : ProxyGroupReader → Type 0
IsIntn reader = (n : ℕ) (seed : reader.Seed) → 0 < n → (reader.intn n seed).1 < n

abbrev pub IsSmall : (reader : ProxyGroupReader) → reader.Store → Type 0
IsSmall reader store =
    (group : Bytes) (nodes : List ProxyGroupNode)
    → reader.get_healthy_nodes_by_group_id group store ≡ some nodes
    → length nodes < 4294967296

from_index-IsChosen :
    (nodes : List ProxyGroupNode) (i : ℕ)
    → i < length nodes
    → IsChosen nodes (from_index (get_elem? nodes i))
unfolding from_index
from_index-IsChosen nodes i h =
    let (node, e) = get_elem?-bound nodes i h in (node, rw e refl, (i, e))

not_zero : (m : ℕ) → 0 < m → (m == 0) ≡ false
not_zero m h = ground arith

at_mod-IsChosen :
    (nodes : List ProxyGroupNode) (n m : ℕ)
    → 0 < m
    → m ≡ length nodes
    → IsChosen nodes (at_mod nodes n m)
unfolding at_mod
at_mod-IsChosen nodes n m pos e =
    rw (not_zero m pos)
      (from_index-IsChosen nodes (n % m) (subst (λ k. n % m < k) e (mod-lt n pos)))

module _ {reader : ProxyGroupReader} where
  abbrev ChoosesFrom : List ProxyGroupNode → LoadBalancer reader × Selection → Type 0
  ChoosesFrom nodes x = IsChosen nodes x.1

  -- A property of all four selections is one of the switch.
  select_by_cases :
      (P : LoadBalancer reader × Selection → Type 0) (method group client_ip : Bytes)
      (nodes : List ProxyGroupNode) (lb : LoadBalancer reader)
      → P (select_round_robin group nodes lb)
      → P (select_random nodes lb)
      → P (lb, select_least_conn nodes)
      → P (lb, select_ip_hash nodes client_ip)
      → P (select_by method group nodes client_ip lb)
  unfolding select_by
  select_by_cases P method group client_ip nodes lb rr random least hash =
      if_case P _ _ _ rr (if_case P _ _ _ random (if_case P _ _ _ least (if_case P _ _ _ hash rr)))

  pub select_by-IsChosen :
      (method group client_ip : Bytes) (nodes : List ProxyGroupNode) (lb : LoadBalancer reader)
      → IsIntn reader
      → 0 < length nodes
      → length nodes < 4294967296
      → IsChosen nodes (select_by method group nodes client_ip lb).1
  unfolding select_round_robin select_random select_least_conn select_ip_hash
  select_by-IsChosen method group client_ip nodes lb h pos small =
      select_by_cases (ChoosesFrom nodes) method group client_ip nodes lb
        (at_mod-IsChosen nodes ((rr_counter group lb + 1) % 18446744073709551616)
          (length nodes % 18446744073709551616) (omega arith) (omega arith))
        (from_index-IsChosen nodes (reader.intn (length nodes) lb.seed).1
          (h (length nodes) lb.seed pos))
        (from_index-IsChosen nodes 0 pos)
        (at_mod-IsChosen nodes (sum32 client_ip) (length nodes % 4294967296) (omega arith)
          (omega arith))

  -- SelectNode refuses a group that cannot be read, refuses a group whose healthy nodes cannot be read
  -- or are none, and otherwise chooses one of the healthy nodes, whatever the group's method: it never
  -- indexes out of range, given the contract of `rand.Intn` and fewer than 2^32 healthy nodes in each
  -- group of the store at hand.
  pub select_node-IsSelection :
      (group client_ip : Bytes) (lb : LoadBalancer reader)
      → IsIntn reader
      → IsSmall reader lb.store
      → IsSelection
          (reader.get_by_id group lb.store)
          (reader.get_healthy_nodes_by_group_id group lb.store)
          (select_node group client_ip lb).1
  unfolding select_node select_healthy
  select_node-IsSelection group client_ip lb h small = go _ _ refl refl
    where
      go :
          (o : Option ProxyGroup) (nodes : Option (List ProxyGroupNode))
          → reader.get_by_id group lb.store ≡ o
          → reader.get_healthy_nodes_by_group_id group lb.store ≡ nodes
          → IsSelection o nodes (select_node group client_ip lb).1
      go none nodes e f = rw (e, select_node) refl
      go (some g) none e f = rw (e, f, select_node) refl
      go (some g) (some []) e f = rw (e, f, select_node) refl
      go (some g) (some (node ∷ rest)) e f =
          rw (e, f, select_node)
            (select_by-IsChosen g.load_balance_method group client_ip (node ∷ rest) lb h
              (omega arith) (small group (node ∷ rest) f))
