-- ===== src/Api/Groups/Consistent.antt =====
-- internal/api/proxy_group_rpc.go over the tables: what a run of calls keeps, whatever the health
-- checker and the balancer write between them.
use message_boy.Base.{ℕ, Bool, List, [], ◌∷◌, Option, Bytes}
use message_boy.Proxy.Tables
use message_boy.Proxy.Tables.{has_id, in_group, by_priority, get_nodes_by_group_id}
use message_boy.Proxy.Consistent.{IsConsistent}
use message_boy.Proxy.Consistent.Operations.{
  update_node_health-IsConsistent, mark_node_unhealthy-IsConsistent,
  increment_node_conns-IsConsistent, decrement_node_conns-IsConsistent,
}
use message_boy.Api.Groups.{
  CreateProxyGroupParams, UpdateProxyGroupParams, AddProxyGroupNodeParams,
  RemoveProxyGroupNodeParams, UpdateProxyGroupNodeParams, create_proxy_group, update_proxy_group,
  delete_proxy_group,
}
use message_boy.Api.Groups.Nodes.{
  add_proxy_group_node, remove_proxy_group_node, update_proxy_group_node,
}
use message_boy.Api.Groups.Tables.{GroupSite, group_backend}
use message_boy.Api.Groups.Keeping.{
  IsGood, create_call-IsGood, update_call-IsGood, delete_call-IsGood, add_call-IsGood,
  remove_call-IsGood, change_call-IsGood,
}

-- A call of a method that writes groups or nodes; or a write of the health checker or the balancer.
pub data GroupCall : Type 0 where
  create : Option CreateProxyGroupParams → GroupCall
  update : Option UpdateProxyGroupParams → GroupCall
  delete : Option Bytes → GroupCall
  add : Option AddProxyGroupNodeParams → GroupCall
  remove : Option RemoveProxyGroupNodeParams → GroupCall
  change : Option UpdateProxyGroupNodeParams → GroupCall
  checked : Bytes → Bool → GroupCall
  marked : Bytes → GroupCall
  opened : Bytes → GroupCall
  closed : Bytes → GroupCall

module _ (contains : Bytes → Bytes → Bool) (uuid : ℕ → Bytes) where
  abbrev pub group_call : GroupCall → GroupSite → GroupSite
  group_call (create p) s = (create_proxy_group (group_backend contains uuid) p s).0
  group_call (update p) s = (update_proxy_group (group_backend contains uuid) p s).0
  group_call (delete id) s = (delete_proxy_group (group_backend contains uuid) id s).0
  group_call (add p) s = (add_proxy_group_node (group_backend contains uuid) p s).0
  group_call (remove p) s = (remove_proxy_group_node (group_backend contains uuid) p s).0
  group_call (change p) s = (update_proxy_group_node (group_backend contains uuid) p s).0
  group_call (checked id ok) s = record s { tables = Tables.update_node_health id ok s.tables }
  group_call (marked id) s = record s { tables = Tables.mark_node_unhealthy id s.tables }
  group_call (opened id) s = record s { tables = Tables.increment_node_conns id s.tables }
  group_call (closed id) s = record s { tables = Tables.decrement_node_conns id s.tables }

  abbrev pub group_calls : List GroupCall → GroupSite → GroupSite
  group_calls [] s = s
  group_calls (c ∷ cs) s = group_calls cs (group_call c s)

  call-IsGood : (c : GroupCall) (s : GroupSite) → IsGood s → IsGood (group_call c s)
  call-IsGood (create p) s h = create_call-IsGood contains uuid p s h
  call-IsGood (update p) s h = update_call-IsGood contains uuid p s h
  call-IsGood (delete id) s h = delete_call-IsGood contains uuid id s h
  call-IsGood (add p) s h = add_call-IsGood contains uuid p s h
  call-IsGood (remove p) s h = remove_call-IsGood contains uuid p s h
  call-IsGood (change p) s h = change_call-IsGood contains uuid p s h
  call-IsGood (checked id ok) s h = update_node_health-IsConsistent id ok s.tables h
  call-IsGood (marked id) s h = mark_node_unhealthy-IsConsistent id s.tables h
  call-IsGood (opened id) s h = increment_node_conns-IsConsistent id s.tables h
  call-IsGood (closed id) s h = decrement_node_conns-IsConsistent id s.tables h

  -- Whatever is called with whatever parameters, and whatever the health checker and the balancer
  -- write between the calls: every node belongs to a group that is there, and no client is in a group
  -- twice. (A method is one step: two calls of addProxyGroupNode at the same time are not covered.)
  pub group_calls-IsConsistent :
      (cs : List GroupCall) (s : GroupSite)
      → IsConsistent s.tables
      → IsConsistent (group_calls cs s).tables
  group_calls-IsConsistent [] s h = h
  group_calls-IsConsistent (c ∷ cs) s h =
      group_calls-IsConsistent cs (group_call c s) (call-IsGood c s h)
