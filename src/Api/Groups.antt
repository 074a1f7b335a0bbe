-- ===== src/Api/Groups.antt =====
-- internal/api/proxy_group_rpc.go: the methods that write groups and their nodes.
pub mod Nodes
pub mod Tables
pub mod Reading
pub mod Keeping
pub mod Serving
pub mod Consistent
mod Tests
use message_boy.Base.{
  ℕ, Bool, true, false, ◌&&◌, not, List, [], ◌∷◌, ◌++◌, Option, none, some, Bytes, codes,
  if◌then◌else◌, str_eq, is_empty,
}
use message_boy.Storage.{ClientRow, client_status_online}
use message_boy.Proxy.{
  ProxyGroup, ProxyGroupNode, load_balance_round_robin, node_status_healthy, node_status_unknown,
}
use message_boy.Api.{
  Found, found, missing, broken, Rows, rows, no_rows, client_in_group, Reply, reply, refuse,
  refuse_text, need,
}
use message_boy.Api.Forward.{or_keep}

-- The storage behind the methods; an update answers `none`, or the text of its error.
pub record GroupBackend : Type 1 where
  pub State : Type 0
  pub new_id : State → State × Bytes
  pub client_by_id : Bytes → State → Found ClientRow
  pub group_by_id : Bytes → State → Found ProxyGroup
  pub group_by_name : Bytes → State → Found ProxyGroup
  pub list_groups : ℕ → ℕ → Bytes → State → Rows (List ProxyGroup × ℕ)
  pub nodes_by_group : Bytes → State → Rows (List ProxyGroupNode)
  pub node_by_id : Bytes → State → Found ProxyGroupNode
  pub create_group : ProxyGroup → State → State × Option Bytes
  pub update_group : ProxyGroup → State → State × Option Bytes
  pub delete_group : Bytes → State → State × Option Bytes
  pub add_node : ProxyGroupNode → State → State × Option Bytes
  pub update_node : ProxyGroupNode → State → State × Option Bytes
  pub remove_node : Bytes → State → State × Option Bytes
  pub remove_node_by_client_id : Bytes → Bytes → State → State × Option Bytes

pub record CreateProxyGroupParams : Type 0 where
  pub name : Bytes
  pub description : Bytes
  pub load_balance_method : Bytes
  pub health_check_enabled : Option Bool
  pub health_check_interval : Option ℕ
  pub health_check_timeout : Option ℕ
  pub health_check_retries : Option ℕ

pub record UpdateProxyGroupParams : Type 0 where
  pub id : Bytes
  pub name : Option Bytes
  pub description : Option Bytes
  pub load_balance_method : Option Bytes
  pub health_check_enabled : Option Bool
  pub health_check_interval : Option ℕ
  pub health_check_timeout : Option ℕ
  pub health_check_retries : Option ℕ

pub record AddProxyGroupNodeParams : Type 0 where
  pub group_id : Bytes
  pub client_id : Bytes
  pub priority : Option ℕ
  pub weight : Option ℕ

pub record RemoveProxyGroupNodeParams : Type 0 where
  pub id : Bytes
  pub group_id : Bytes
  pub client_id : Bytes

pub record UpdateProxyGroupNodeParams : Type 0 where
  pub id : Bytes
  pub priority : Option ℕ
  pub weight : Option ℕ

-- The method has nothing to answer but that it was done.
abbrev pub Done : Type 0
Done = Unit

-- A group with the defaults for what is not given.
unfoldable pub new_group : Bytes → CreateProxyGroupParams → ProxyGroup
new_group id p = record {
  id = id;
  name = p.name;
  description = p.description;
  load_balance_method =
      if is_empty p.load_balance_method then load_balance_round_robin else p.load_balance_method;
  health_check_enabled = or_keep p.health_check_enabled true;
  health_check_interval = or_keep p.health_check_interval 30;
  health_check_timeout = or_keep p.health_check_timeout 5;
  health_check_retries = or_keep p.health_check_retries 3;
}

unfoldable pub with_group_params : UpdateProxyGroupParams → ProxyGroup → ProxyGroup
with_group_params p g = record g {
  name = or_keep p.name g.name;
  description = or_keep p.description g.description;
  load_balance_method = or_keep p.load_balance_method g.load_balance_method;
  health_check_enabled = or_keep p.health_check_enabled g.health_check_enabled;
  health_check_interval = or_keep p.health_check_interval g.health_check_interval;
  health_check_timeout = or_keep p.health_check_timeout g.health_check_timeout;
  health_check_retries = or_keep p.health_check_retries g.health_check_retries;
}

-- A node is healthy at first if its client is online.
unfoldable pub new_node : Bytes → AddProxyGroupNodeParams → ClientRow → ProxyGroupNode
new_node id p client = record {
  id = id;
  group_id = p.group_id;
  client_id = p.client_id;
  priority = or_keep p.priority 100;
  weight = or_keep p.weight 100;
  status =
      if str_eq client.status client_status_online
      then node_status_healthy
      else node_status_unknown;
  last_check_ok = false;
  fail_count = 0;
  active_conns = 0;
}

-- The loop over the nodes of a group.
unfoldable pub has_client : Bytes → List ProxyGroupNode → Bool
has_client client [] = false
has_client client (n ∷ nodes) =
    let rest = has_client client nodes in if str_eq n.client_id client then true else rest

-- The last step of a method that writes: its error, or the answer.
unfoldable pub saved : {S A : Type 0} → Bytes → A → S × Option Bytes → S × Reply A
saved failed answer (s, some e) = (s, refuse_text (failed ++ e))
saved failed answer (s, none) = (s, reply answer)

module _ (b : GroupBackend) where
  unfoldable pub create_unnamed : CreateProxyGroupParams → b.State → b.State × Reply (Bytes × Bytes)
  unfolding saved new_group
  create_unnamed p s =
      let (s', id) = b.new_id s in
      saved (codes "failed to create group: ") (id, p.name) (b.create_group (new_group id p) s')

  -- Any error of the query for the name lets the method go on.
  unfoldable pub create_if_new :
      CreateProxyGroupParams → Found ProxyGroup → b.State → b.State × Reply (Bytes × Bytes)
  unfolding create_unnamed
  create_if_new p (found g) s = (s, refuse_text (codes "group name already exists"))
  create_if_new p missing s = create_unnamed p s
  create_if_new p (broken e) s = create_unnamed p s

  unfoldable pub create_proxy_group :
      Option CreateProxyGroupParams → b.State → b.State × Reply (Bytes × Bytes)
  unfolding create_if_new
  create_proxy_group none s = (s, refuse_text (codes "invalid params"))
  create_proxy_group (some p) s =
      if is_empty p.name
      then (s, refuse_text (codes "name is required"))
      else create_if_new p (b.group_by_name p.name s) s

  unfoldable pub update_group_found :
      UpdateProxyGroupParams → Reply ProxyGroup → b.State → b.State × Reply Done
  unfolding saved with_group_params
  update_group_found p (refuse e) s = (s, refuse e)
  update_group_found p (reply g) s =
      saved (codes "failed to update group: ") tt (b.update_group (with_group_params p g) s)

  unfoldable pub update_proxy_group : Option UpdateProxyGroupParams → b.State → b.State × Reply Done
  unfolding update_group_found
  update_proxy_group none s = (s, refuse_text (codes "invalid params"))
  update_proxy_group (some p) s =
      if is_empty p.id
      then (s, refuse_text (codes "id is required"))
      else update_group_found p
          (need (codes "group not found") (codes "failed to get group: ") (b.group_by_id p.id s)) s

  unfoldable pub delete_proxy_group : Option Bytes → b.State → b.State × Reply Done
  unfolding saved
  delete_proxy_group none s = (s, refuse_text (codes "invalid params"))
  delete_proxy_group (some id) s =
      if is_empty id
      then (s, refuse_text (codes "id is required"))
      else saved (codes "failed to delete group: ") tt (b.delete_group id s)
