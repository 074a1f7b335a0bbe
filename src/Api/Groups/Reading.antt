-- ===== src/Api/Groups/Reading.antt =====
-- internal/api/proxy_group_rpc.go: getProxyGroupList and getProxyGroup. Of the time stamps nothing is
-- shown.
use message_boy.Base.{
  ℕ, ◌+◌, ◌-◌, ◌/◌, ◌&&◌, not, List, [], ◌∷◌, ◌++◌, Option, none, some, Bytes, codes, ltb,
  if◌then◌else◌, length, str_eq, is_empty,
}
use message_boy.Storage.{ClientRow}
use message_boy.Proxy.{ProxyGroup, ProxyGroupNode, node_status_healthy}
use message_boy.Api.{
  Found, found, missing, broken, Rows, rows, no_rows, Reply, reply, refuse, refuse_text, need,
}
use message_boy.Api.Groups.{GroupBackend}

pub record GetProxyGroupListParams : Type 0 where
  pub page : ℕ
  pub limit : ℕ
  pub search : Bytes

pub record ListedGroup : Type 0 where
  pub group : ProxyGroup
  pub node_count : ℕ
  pub healthy_node_count : ℕ
  pub nodes : List ProxyGroupNode

pub record GroupList : Type 0 where
  pub groups : List ListedGroup
  pub total : ℕ
  pub page : ℕ
  pub limit : ℕ
  pub pages : ℕ

-- A node with the name and the status of its client, if there is one.
pub record NodeDetails : Type 0 where
  pub node : ProxyGroupNode
  pub client : Option (Bytes × Bytes)

pub record GroupDetails : Type 0 where
  pub group : ProxyGroup
  pub nodes : List NodeDetails

unfoldable pub healthy_count : List ProxyGroupNode → ℕ
healthy_count [] = 0
healthy_count (n ∷ nodes) =
    if str_eq n.status node_status_healthy then healthy_count nodes + 1 else healthy_count nodes

-- The nodes of a group are none if their query fails.
abbrev pub or_none : Rows (List ProxyGroupNode) → List ProxyGroupNode
or_none (rows nodes) = nodes
or_none (no_rows e) = []

unfoldable pub group_params : GetProxyGroupListParams → GetProxyGroupListParams
group_params p = record p {
  page = if ltb 0 p.page then p.page else 1;
  limit = if ltb 0 p.limit && not (ltb 100 p.limit) then p.limit else 20;
}

module _ (b : GroupBackend) where
  unfoldable pub listed_groups : List ProxyGroup → b.State → List ListedGroup
  unfolding healthy_count
  listed_groups [] s = []
  listed_groups (g ∷ groups) s =
      let nodes = or_none (b.nodes_by_group g.id s) in
      record {
        group = g;
        node_count = length nodes;
        healthy_node_count = healthy_count nodes;
        nodes = nodes;
      }
      ∷ listed_groups groups s

  unfoldable pub group_page :
      GetProxyGroupListParams → Rows (List ProxyGroup × ℕ) → b.State → Reply GroupList
  unfolding listed_groups
  group_page p (no_rows e) s = refuse_text (codes "failed to get group list: " ++ e)
  group_page p (rows (groups, total)) s = reply (record {
    groups = listed_groups groups s;
    total = total;
    page = p.page;
    limit = p.limit;
    pages = (total + p.limit - 1) / p.limit;
  })

  unfoldable pub get_proxy_group_list : Option GetProxyGroupListParams → b.State → Reply GroupList
  unfolding group_page group_params
  get_proxy_group_list none s = refuse_text (codes "invalid params")
  get_proxy_group_list (some p) s =
      let q = group_params p in group_page q (b.list_groups q.page q.limit q.search s) s

  abbrev pub client_shown : Found ClientRow → Option (Bytes × Bytes)
  client_shown (found c) = some (c.name, c.status)
  client_shown missing = none
  client_shown (broken e) = none

  -- What `loadClientsForNodes` joins.
  unfoldable pub with_clients : List ProxyGroupNode → b.State → List NodeDetails
  with_clients [] s = []
  with_clients (n ∷ nodes) s =
      record {
        node = n;
        client = if is_empty n.client_id then none else client_shown (b.client_by_id n.client_id s);
      }
      ∷ with_clients nodes s

  unfoldable pub group_details :
      Reply ProxyGroup → Rows (List ProxyGroupNode) → b.State → Reply GroupDetails
  unfolding with_clients
  group_details (refuse e) nodes s = refuse e
  group_details (reply g) (no_rows e) s = refuse_text (codes "failed to get group: " ++ e)
  group_details (reply g) (rows nodes) s =
      reply (record { group = g; nodes = with_clients nodes s })

  unfoldable pub get_proxy_group : Option Bytes → b.State → Reply GroupDetails
  unfolding group_details
  get_proxy_group none s = refuse_text (codes "invalid params")
  get_proxy_group (some id) s =
      if is_empty id
      then refuse_text (codes "id is required")
      else group_details
          (need (codes "group not found") (codes "failed to get group: ") (b.group_by_id id s))
          (b.nodes_by_group id s) s
