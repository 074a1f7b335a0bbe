-- ===== src/Proxy/Fairness.antt =====
-- load_balancer.go: the turns of the round robin.
use mathlib.Core.Path.{subst}
use native.Mathlib.Nat.{mod-lt, mod-add-mod, add-mod_right, mod-eq_of_lt}
use message_boy.Base.{
  ℕ, zero, suc, ◌+◌, ◌-◌, ◌%◌, ◌≤◌, ◌<◌, ◌≡◌, refl, sym, ap, ◌∙◌, inl, inr, false, List, [], ◌∷◌,
  some, arith, Bytes, ◌==◌, ltb, ltb→lt, ltb→le, length, get_elem?, Bool-cases, bytes_eq, insert,
  lookup-insert, str_eq, str_eq_refl,
}
use message_boy.Proxy.{ProxyGroup, ProxyGroupNode, ProxyGroupReader, load_balance_round_robin}
use message_boy.Proxy.Balancer.{
  Selection, from_index, at_mod, LoadBalancer, rr_counter, select_round_robin, select_by,
  select_healthy, select_node,
}

-- A group of the round robin with the healthy nodes given.
abbrev pub IsRoundRobin :
    (reader : ProxyGroupReader) → Bytes → List ProxyGroupNode → reader.Store → Type 0
IsRoundRobin reader group nodes store =
    (g : ProxyGroup) × (reader.get_by_id group store ≡ some g)
    × (g.load_balance_method ≡ load_balance_round_robin)
    × (reader.get_healthy_nodes_by_group_id group store ≡ some nodes)

-- Some turn among `n` in a row from any start falls on each residue.
turn_for : (c i n : ℕ) → i < n → (j : ℕ) × (j < n) × ((c + j) % n ≡ i)
turn_for c i n h = elim (Bool-cases (ltb i (c % n))) [
  | inl before ↦
      let lt = ltb→lt i (c % n) before in
      let small = mod-lt c {m = n} (omega arith) in
      (
        i + n - c % n,
        omega arith,
        sym (mod-add-mod c n (i + n - c % n))
            ∙ ap (λ x. x % n) (sum (c % n) i n lt small)
            ∙ add-mod_right i n
            ∙ mod-eq_of_lt h,
      )
  | inr after ↦
      let le = ltb→le i (c % n) after in
      (
        i - c % n,
        omega arith,
        sym (mod-add-mod c n (i - c % n)) ∙ ap (λ x. x % n) (diff (c % n) i le) ∙ mod-eq_of_lt h,
      )
]
  where
    sum : (r i n : ℕ) → i < r → r < n → r + (i + n - r) ≡ i + n
    sum r i n h h' = omega arith

    diff : (r i : ℕ) → r ≤ i → r + (i - r) ≡ i
    diff r i h = omega arith

module _ {reader : ProxyGroupReader} where
  -- `k` selections from one group, in their order.
  pub turns : ℕ → Bytes → Bytes → LoadBalancer reader → List Selection
  turns zero group client_ip lb = []
  turns (suc k) group client_ip lb =
      (select_node group client_ip lb).1
      ∷ turns k group client_ip (select_node group client_ip lb).0

  select_node_turn :
      (group client_ip : Bytes) (node : ProxyGroupNode) (rest : List ProxyGroupNode)
      (lb : LoadBalancer reader)
      → IsRoundRobin reader group (node ∷ rest) lb.store
      → select_node group client_ip lb ≡ select_round_robin group (node ∷ rest) lb
  unfolding select_node select_healthy select_by str_eq
  select_node_turn group client_ip node rest lb (g, byid, method, healthy) =
      rw (byid, healthy, method, select_node) refl

  rr_counter-insert :
      (group : Bytes) (c : ℕ) (lb : LoadBalancer reader)
      → rr_counter group (record lb { rr_counters = insert group c lb.rr_counters }) ≡ c
  unfolding rr_counter
  rr_counter-insert group c lb =
      rw (lookup-insert group group c lb.rr_counters, str_eq_refl group, rr_counter) refl

  round_robin_turn :
      (group : Bytes) (nodes : List ProxyGroupNode) (lb : LoadBalancer reader)
      → 0 < length nodes
      → length nodes < 18446744073709551616
      → rr_counter group lb + 1 < 18446744073709551616
      → ((select_round_robin group nodes lb).1
          ≡ from_index (get_elem? nodes ((rr_counter group lb + 1) % length nodes)))
        × (rr_counter group (select_round_robin group nodes lb).0 ≡ rr_counter group lb + 1)
        × ((select_round_robin group nodes lb).0.store ≡ lb.store)
  unfolding select_round_robin at_mod
  round_robin_turn group nodes lb pos small h =
      let c : (rr_counter group lb + 1) % 18446744073709551616 ≡ rr_counter group lb + 1 =
        omega arith in
      let n : length nodes % 18446744073709551616 ≡ length nodes = omega arith in
      let z : (length nodes == 0) ≡ false = ground arith in
      (rw (c, n, z) refl, rw c (rr_counter-insert group (rr_counter group lb + 1) lb), refl)

  turns_lem :
      (k j : ℕ) (group client_ip : Bytes) (node : ProxyGroupNode) (rest : List ProxyGroupNode)
      (lb : LoadBalancer reader)
      → IsRoundRobin reader group (node ∷ rest) lb.store
      → length (node ∷ rest) < 18446744073709551616
      → rr_counter group lb + k < 18446744073709551616
      → j < k
      → get_elem? (turns k group client_ip lb) j
        ≡ some (
            from_index
              (get_elem? (node ∷ rest) ((rr_counter group lb + 1 + j) % length (node ∷ rest))))
  unfolding turns
  turns_lem zero j group client_ip node rest lb h small room less = absurd (omega arith)
  turns_lem (suc k) zero group client_ip node rest lb h small room less =
      let turn = select_node_turn group client_ip node rest lb h in
      let (pick, c, store) =
        round_robin_turn group (node ∷ rest) lb (omega arith) small (omega arith) in
      let start : rr_counter group lb + 1 ≡ rr_counter group lb + 1 + 0 = omega arith in
      ap some (ap (λ x. x.1) turn ∙ pick)
      ∙ ap (λ i. some (from_index (get_elem? (node ∷ rest) (i % length (node ∷ rest))))) start
  turns_lem (suc k) (suc j) group client_ip node rest lb h small room less =
      let turn = select_node_turn group client_ip node rest lb h in
      let (pick, c, store) =
        round_robin_turn group (node ∷ rest) lb (omega arith) small (omega arith) in
      let next = (select_node group client_ip lb).0 in
      let c' : rr_counter group next ≡ rr_counter group lb + 1 =
        ap (λ x. rr_counter group x.0) turn ∙ c in
      let store' : next.store ≡ lb.store = ap (λ x. x.0.store) turn ∙ store in
      let rest' =
        turns_lem k j group client_ip node rest next
          (subst (IsRoundRobin reader group (node ∷ rest)) (sym store') h) small (omega arith)
          (omega arith) in
      let shift : rr_counter group next + 1 + j ≡ rr_counter group lb + 1 + suc j = omega arith in
      rest' ∙ ap (λ i. some (from_index (get_elem? (node ∷ rest) (i % length (node ∷ rest))))) shift

  -- As many selections in a row as a round-robin group has healthy nodes, with no other change of the
  -- group between them, so no connection counted and the list of healthy nodes the same, choose every
  -- one of these nodes, as long as the group's 64-bit counter does not wrap.
  pub select_node_round_robin :
      (group client_ip : Bytes) (node : ProxyGroupNode) (rest : List ProxyGroupNode)
      (lb : LoadBalancer reader) (i : ℕ)
      → IsRoundRobin reader group (node ∷ rest) lb.store
      → rr_counter group lb + length (node ∷ rest) < 18446744073709551616
      → i < length (node ∷ rest)
      → (j : ℕ) × (j < length (node ∷ rest))
        × (get_elem? (turns (length (node ∷ rest)) group client_ip lb) j
            ≡ some (from_index (get_elem? (node ∷ rest) i)))
  select_node_round_robin group client_ip node rest lb i h room less =
      let (j, lt, hit) = turn_for (rr_counter group lb + 1) i (length (node ∷ rest)) less in
      (
        j,
        lt,
        turns_lem (length (node ∷ rest)) j group client_ip node rest lb h (omega arith) room lt
            ∙ ap (λ k. some (from_index (get_elem? (node ∷ rest) k))) hit,
      )
