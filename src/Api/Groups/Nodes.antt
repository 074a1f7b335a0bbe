-- ===== src/Api/Groups/Nodes.antt =====
-- internal/api/proxy_group_rpc.go: the methods that write the nodes of the groups.
use message_boy.Base.{◌||◌, List, Option, none, some, Bytes, codes, if◌then◌else◌, is_empty, ◌++◌}
use message_boy.Storage.{ClientRow}
use message_boy.Proxy.{ProxyGroup, ProxyGroupNode}
use message_boy.Api.{Rows, rows, no_rows, client_in_group, Reply, reply, refuse, refuse_text, need}
use message_boy.Api.Forward.{or_keep}
use message_boy.Api.Groups.{
  GroupBackend, AddProxyGroupNodeParams, RemoveProxyGroupNodeParams, UpdateProxyGroupNodeParams,
  Done, new_node, has_client, saved,
}

unfoldable pub with_node_params : UpdateProxyGroupNodeParams → ProxyGroupNode → ProxyGroupNode
with_node_params p n = record n {
  priority = or_keep p.priority n.priority;
  weight = or_keep p.weight n.weight;
}

module _ (b : GroupBackend) where
  -- The group, the client, and the place of the new node.
  abbrev pub AddedNode : Type 0
  AddedNode = Bytes × Bytes × Bytes

  unfoldable pub add_new : AddProxyGroupNodeParams → ClientRow → b.State → b.State × Reply AddedNode
  unfolding saved new_node
  add_new p client s =
      let (s', id) = b.new_id s in
      saved (codes "failed to add node: ") (id, p.group_id, p.client_id)
        (b.add_node (new_node id p client) s')

  unfoldable pub add_to :
      AddProxyGroupNodeParams
      → ClientRow
      → Rows (List ProxyGroupNode)
      → b.State
      → b.State × Reply AddedNode
  unfolding add_new has_client
  add_to p client (no_rows e) s = (s, refuse_text (codes "failed to check existing nodes: " ++ e))
  add_to p client (rows nodes) s =
      if has_client p.client_id nodes then (s, refuse client_in_group) else add_new p client s

  unfoldable pub add_for_client :
      AddProxyGroupNodeParams → Reply ClientRow → b.State → b.State × Reply AddedNode
  unfolding add_to
  add_for_client p (refuse e) s = (s, refuse e)
  add_for_client p (reply client) s = add_to p client (b.nodes_by_group p.group_id s) s

  unfoldable pub add_for_group :
      AddProxyGroupNodeParams → Reply ProxyGroup → b.State → b.State × Reply AddedNode
  unfolding add_for_client
  add_for_group p (refuse e) s = (s, refuse e)
  add_for_group p (reply g) s =
      add_for_client p
        (need (codes "client not found") (codes "failed to verify client: ")
          (b.client_by_id p.client_id s))
        s

  unfoldable pub add_proxy_group_node :
      Option AddProxyGroupNodeParams → b.State → b.State × Reply AddedNode
  unfolding add_for_group
  add_proxy_group_node none s = (s, refuse_text (codes "invalid params"))
  add_proxy_group_node (some p) s =
      if is_empty p.group_id
      then (s, refuse_text (codes "group_id is required"))
      else if is_empty p.client_id
      then (s, refuse_text (codes "client_id is required"))
      else add_for_group p
          (need (codes "group not found") (codes "failed to verify group: ")
            (b.group_by_id p.group_id s))
          s

  unfoldable pub remove_proxy_group_node :
      Option RemoveProxyGroupNodeParams → b.State → b.State × Reply Done
  unfolding saved
  remove_proxy_group_node none s = (s, refuse_text (codes "invalid params"))
  remove_proxy_group_node (some p) s =
      if is_empty p.id
      then if is_empty p.group_id || is_empty p.client_id
        then (s, refuse_text (codes "id or (group_id and client_id) is required"))
        else saved (codes "failed to remove node: ") tt
            (b.remove_node_by_client_id p.group_id p.client_id s)
      else saved (codes "failed to remove node: ") tt (b.remove_node p.id s)

  unfoldable pub update_node_found :
      UpdateProxyGroupNodeParams → Reply ProxyGroupNode → b.State → b.State × Reply Done
  unfolding saved with_node_params
  update_node_found p (refuse e) s = (s, refuse e)
  update_node_found p (reply n) s =
      saved (codes "failed to update node: ") tt (b.update_node (with_node_params p n) s)

  unfoldable pub update_proxy_group_node :
      Option UpdateProxyGroupNodeParams → b.State → b.State × Reply Done
  unfolding update_node_found
  update_proxy_group_node none s = (s, refuse_text (codes "invalid params"))
  update_proxy_group_node (some p) s =
      if is_empty p.id
      then (s, refuse_text (codes "id is required"))
      else update_node_found p
          (need (codes "node not found") (codes "failed to get node: ") (b.node_by_id p.id s)) s
