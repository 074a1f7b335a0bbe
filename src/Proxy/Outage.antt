-- ===== src/Proxy/Outage.antt =====
-- health_checker.go over the tables: what a row of checks does to a node.
use message_boy.Base.{
  ℕ, zero, suc, ◌+◌, ◌≡◌, refl, ap, ◌∙◌, inl, inr, Bool, true, false, some, arith, Bytes, ltb,
  if◌then◌else◌, Bool-cases, str_eq, update_where, find-update_where, find_sound,
}
use message_boy.Proxy.{ProxyGroup, ProxyGroupNode, node_status_healthy, node_status_unhealthy}
use message_boy.Proxy.Health.{fail_check, check_node}
use message_boy.Proxy.Tables.{
  ProxyTables, has_id, with_health, with_unhealthy, get_node, update_node_health,
  mark_node_unhealthy, tables_store,
}

get_node-update_where :
    (id : Bytes) (f : ProxyGroupNode → ProxyGroupNode) (db : ProxyTables) (n : ProxyGroupNode)
    → ((a : ProxyGroupNode) → (f a).id ≡ a.id)
    → get_node id db ≡ some n
    → get_node id (record db { nodes = update_where (has_id id) f db.nodes }) ≡ some (f n)
unfolding get_node
get_node-update_where id f db n keep e =
    find-update_where (has_id id) (has_id id) f db.nodes n (λ a. ap (λ i. str_eq i id) (keep a)) e
    ∙ rw (find_sound (has_id id) db.nodes n e) refl

-- A row of checks of the same node.
pub checks : (Bytes → Bool) → ProxyGroup → ProxyGroupNode → ℕ → ProxyTables → ProxyTables
checks online group node zero db = db
checks online group node (suc k) db =
    check_node tables_store online group node (checks online group node k db)

-- A check that finds the client online makes the node healthy and forgets its failures.
check_node_online :
    (online : Bytes → Bool) (group : ProxyGroup) (node n : ProxyGroupNode) (db : ProxyTables)
    → online node.client_id ≡ true
    → get_node node.id db ≡ some n
    → get_node node.id (check_node tables_store online group node db) ≡ some (with_health true n)
unfolding check_node update_node_health
check_node_online online group node n db up e =
    rw up (get_node-update_where node.id (with_health true) db n (λ a. refl) e)

abbrev failed : ProxyGroup → ProxyGroupNode → ProxyGroupNode
failed group n =
    if ltb (n.fail_count + 1) group.health_check_retries
    then with_health false n
    else with_unhealthy (with_health false n)

check_node_offline :
    (online : Bytes → Bool) (group : ProxyGroup) (node n : ProxyGroupNode) (db : ProxyTables)
    → online node.client_id ≡ false
    → get_node node.id db ≡ some n
    → get_node node.id (check_node tables_store online group node db) ≡ some (failed group n)
unfolding check_node fail_check update_node_health mark_node_unhealthy
check_node_offline online group node n db down e =
    let counted = get_node-update_where node.id (with_health false) db n (λ a. refl) e in
    rw (down, counted)
      (elim (Bool-cases (ltb (n.fail_count + 1) group.health_check_retries)) [
        | inl few ↦ rw few counted
        | inr many ↦ rw many (
            get_node-update_where node.id with_unhealthy (update_node_health node.id false db)
              (with_health false n) (λ a. refl) counted)
      ])

-- A node after `k` failed checks, `k` not 0.
abbrev pub after_failures : ProxyGroup → ℕ → ProxyGroupNode → ProxyGroupNode
after_failures group k n = record n {
  last_check_ok = false;
  fail_count = n.fail_count + k;
  status =
      if ltb (n.fail_count + k) group.health_check_retries then n.status else node_status_unhealthy;
}

failed_first : (group : ProxyGroup) (n : ProxyGroupNode) → failed group n ≡ after_failures group 1 n
failed_first group n = elim (Bool-cases (ltb (n.fail_count + 1) group.health_check_retries)) [
  | inl few ↦ rw few refl
  | inr many ↦ rw many refl
]

failed_next :
    (group : ProxyGroup) (n : ProxyGroupNode) (k : ℕ)
    → failed group (after_failures group k n) ≡ after_failures group (suc k) n
failed_next group n k = ground arith

-- A node whose client stays offline keeps its status until its failures in a row reach the group's
-- number of retries, and is unhealthy from then on, with every failed check counted.
pub checks_offline :
    (online : Bytes → Bool) (group : ProxyGroup) (node n : ProxyGroupNode) (db : ProxyTables)
    (k : ℕ)
    → online node.client_id ≡ false
    → get_node node.id db ≡ some n
    → get_node node.id (checks online group node (suc k) db) ≡ some (after_failures group (suc k) n)
unfolding checks
checks_offline online group node n db zero down e =
    check_node_offline online group node n db down e ∙ ap some (failed_first group n)
checks_offline online group node n db (suc k) down e =
    check_node_offline online group node (after_failures group (suc k) n)
      (checks online group node (suc k) db) down (checks_offline online group node n db k down e)
    ∙ ap some (failed_next group n (suc k))

-- However many checks have failed, the first that finds the client online makes the node healthy
-- again, with no failures counted.
pub checks_recovered :
    (offline online : Bytes → Bool) (group : ProxyGroup) (node n : ProxyGroupNode)
    (db : ProxyTables) (k : ℕ)
    → offline node.client_id ≡ false
    → online node.client_id ≡ true
    → get_node node.id db ≡ some n
    → get_node node.id
        (check_node tables_store online group node (checks offline group node (suc k) db))
      ≡ some (record n { last_check_ok = true; fail_count = 0; status = node_status_healthy })
checks_recovered offline online group node n db k down up e =
    check_node_online online group node (after_failures group (suc k) n)
      (checks offline group node (suc k) db) up (checks_offline offline group node n db k down e)
