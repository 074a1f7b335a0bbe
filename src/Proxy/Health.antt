-- ===== src/Proxy/Health.antt =====
-- internal/proxy/health_checker.go: the checks. `online` is `ClientChecker.IsClientOnline`, which does
-- not change during one check. The ticker that repeats `checkAllGroups` is not modelled.
use message_boy.Base.{
  Bool, true, false, List, [], ◌∷◌, Option, none, some, Bytes, ltb, if◌then◌else◌,
}
use message_boy.Proxy.{ProxyGroup, ProxyGroupNode, ProxyGroupStore}

module _ (db : ProxyGroupStore) where
  unfoldable pub fail_check : ProxyGroup → Bytes → Option ProxyGroupNode → db.Store → db.Store
  fail_check group id none s = s
  fail_check group id (some n) s =
      if ltb n.fail_count group.health_check_retries then s else db.mark_node_unhealthy id s

  unfoldable pub check_node : (Bytes → Bool) → ProxyGroup → ProxyGroupNode → db.Store → db.Store
  unfolding fail_check
  check_node online group node s =
      let is_online = online node.client_id in
      let (s', done) = db.update_node_health node.id is_online s in
      if done
      then if is_online then s' else fail_check group node.id (db.get_node node.id s') s'
      else s'

  unfoldable pub check_nodes :
      (Bytes → Bool) → ProxyGroup → List ProxyGroupNode → db.Store → db.Store
  unfolding check_node
  check_nodes online group [] s = s
  check_nodes online group (node ∷ rest) s =
      check_nodes online group rest (check_node online group node s)

  unfoldable pub check_group : (Bytes → Bool) → ProxyGroup → db.Store → db.Store
  unfolding check_nodes
  check_group online group s = elim (db.get_nodes_by_group_id group.id s) [
    | none ↦ s
    | some nodes ↦ check_nodes online group nodes s
  ]

  unfoldable pub check_groups : (Bytes → Bool) → List ProxyGroup → db.Store → db.Store
  unfolding check_group
  check_groups online [] s = s
  check_groups online (group ∷ rest) s =
      check_groups online rest
        (if group.health_check_enabled then check_group online group s else s)

  unfoldable pub check_all_groups : (Bytes → Bool) → db.Store → db.Store
  unfolding check_groups
  check_all_groups online s = elim (db.list s) [
    | none ↦ s
    | some groups ↦ check_groups online groups s
  ]

  -- `CheckNodeHealth`; `false` is an error of one of the two look-ups.
  unfoldable pub check_node_health : (Bytes → Bool) → Bytes → db.Store → db.Store × Bool
  unfolding check_node
  check_node_health online id s = elim (db.get_node id s) [
    | none ↦ (s, false)
    | some node ↦ elim (db.get_by_id node.group_id s) [
      | none ↦ (s, false)
      | some group ↦ (check_node online group node s, true)
    ]
  ]
