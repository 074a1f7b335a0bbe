-- ===== src/Api/Groups/Keeping.antt =====
-- internal/api/proxy_group_rpc.go over the tables: each method keeps groups and nodes consistent.
use message_boy.Base.{
  ℕ, ◌+◌, ◌≡◌, refl, sym, ap, ◌∙◌, arith, Bool, true, false, ◌||◌, List, [], ◌∷◌, Option, none,
  some, Bytes, codes, if◌then◌else◌, if_case, if_elim, str_eq, str_eq_iff, is_empty, find,
  find_sound, filter, insert_sorted, order_by,
}
use message_boy.Storage.{ClientRow}
use message_boy.Storage.Clients
use message_boy.Proxy.{ProxyGroup, ProxyGroupNode}
use message_boy.Proxy.Tables
use message_boy.Proxy.Tables.{has_id, in_group, by_priority, get_nodes_by_group_id}
use message_boy.Proxy.Consistent.{present, count, IsConsistent, get_by_id-present}
use message_boy.Proxy.Consistent.Operations.{
  create_group-IsConsistent, update_group-IsConsistent, delete_group-IsConsistent,
  add_node-IsConsistent, update_node-IsConsistent, remove_node-IsConsistent,
  remove_node_by_client_id-IsConsistent,
}
use message_boy.Api.{rows, client_in_group, Reply, refuse, refuse_text, need}
use message_boy.Api.Site.{to_found}
use message_boy.Api.Groups.{
  CreateProxyGroupParams, UpdateProxyGroupParams, AddProxyGroupNodeParams,
  RemoveProxyGroupNodeParams, UpdateProxyGroupNodeParams, new_group, with_group_params, new_node,
  has_client, saved, create_unnamed, create_if_new, create_proxy_group, update_group_found,
  update_proxy_group, delete_proxy_group,
}
use message_boy.Api.Groups.Nodes.{
  with_node_params, add_new, add_to, add_for_client, add_for_group, add_proxy_group_node,
  remove_proxy_group_node, update_node_found, update_proxy_group_node,
}
use message_boy.Api.Groups.Tables.{GroupSite, name_taken, indexed, group_backend}

-- The order of the rows does not matter to the loop over them.
has_client-insert_sorted :
    (client : Bytes) (n : ProxyGroupNode) (nodes : List ProxyGroupNode)
    → has_client client (insert_sorted by_priority n nodes) ≡ has_client client (n ∷ nodes)
unfolding insert_sorted has_client
has_client-insert_sorted client n [] = refl
has_client-insert_sorted client n (x ∷ nodes) =
    let rest = has_client-insert_sorted client n nodes in ground (arith, rest)

has_client-order_by :
    (client : Bytes) (nodes : List ProxyGroupNode)
    → has_client client (order_by by_priority nodes) ≡ has_client client nodes
unfolding order_by has_client
has_client-order_by client [] = refl
has_client-order_by client (n ∷ nodes) =
    has_client-insert_sorted client n (order_by by_priority nodes)
    ∙ ap (λ b. if str_eq n.client_id client then true else b) (has_client-order_by client nodes)

none_in_group :
    (group client : Bytes) (nodes : List ProxyGroupNode)
    → has_client client (filter (in_group group) nodes) ≡ false
    → count group client nodes ≡ 0
unfolding filter has_client
none_in_group group client [] e = refl
none_in_group group client (n ∷ nodes) e =
    let rest = none_in_group group client nodes in ground (arith, rest)

no_member :
    (group client : Bytes) (db : Tables.ProxyTables)
    → has_client client (get_nodes_by_group_id group db) ≡ false
    → count group client db.nodes ≡ 0
unfolding get_nodes_by_group_id
no_member group client db e =
    none_in_group group client db.nodes
      (sym (has_client-order_by client (filter (in_group group) db.nodes)) ∙ e)

abbrev pub IsGood : GroupSite → Type 0
IsGood s = IsConsistent s.tables

module _ (contains : Bytes → Bytes → Bool) (uuid : ℕ → Bytes) where
  abbrev Kept : {A : Type 0} → GroupSite × Reply A → Type 0
  Kept x = IsGood x.0

  saved-IsGood :
      {A : Type 0} (failed : Bytes) (answer : A) (x : GroupSite × Option Bytes)
      → IsGood x.0
      → IsGood (saved failed answer x).0
  unfolding saved
  saved-IsGood failed answer (s, none) h = h
  saved-IsGood failed answer (s, some e) h = h

  indexed-IsGood :
      (g : ProxyGroup) (s s' : GroupSite) → IsGood s → IsGood s' → IsGood (indexed g s s').0
  indexed-IsGood g s s' h h' =
      if_case (λ (x : GroupSite × Option Bytes). IsGood x.0) (name_taken g s.tables.groups) _ _ h h'

  create_unnamed-IsGood :
      (p : CreateProxyGroupParams) (s : GroupSite)
      → IsGood s
      → IsGood (create_unnamed (group_backend contains uuid) p s).0
  unfolding create_unnamed
  create_unnamed-IsGood p s h =
      let drawn : GroupSite = record s { drawn = s.drawn + 1 } in
      let g = new_group (uuid s.drawn) p in
      saved-IsGood (codes "failed to create group: ") (g.id, p.name)
        ((group_backend contains uuid).create_group g drawn)
        (indexed-IsGood g drawn (record drawn { tables = Tables.create_group g s.tables }) h
          (create_group-IsConsistent g s.tables h))

  pub create_call-IsGood :
      (p : Option CreateProxyGroupParams) (s : GroupSite)
      → IsGood s
      → IsGood (create_proxy_group (group_backend contains uuid) p s).0
  unfolding create_proxy_group create_if_new
  create_call-IsGood none s h = h
  create_call-IsGood (some p) s h =
      if_case Kept (is_empty p.name) _ _ h (go (Tables.get_by_name p.name s.tables))
    where
      go :
          (o : Option ProxyGroup)
          → IsGood (create_if_new (group_backend contains uuid) p (to_found o) s).0
      go none = create_unnamed-IsGood p s h
      go (some g) = h

  pub update_call-IsGood :
      (p : Option UpdateProxyGroupParams) (s : GroupSite)
      → IsGood s
      → IsGood (update_proxy_group (group_backend contains uuid) p s).0
  unfolding update_proxy_group update_group_found
  update_call-IsGood none s h = h
  update_call-IsGood (some p) s h =
      if_case Kept (is_empty p.id) _ _ h (go (Tables.get_by_id p.id s.tables))
    where
      go :
          (o : Option ProxyGroup)
          → IsGood
              (update_group_found
                (group_backend contains uuid)
                p
                (need (codes "group not found") (codes "failed to get group: ") (to_found o))
                s).0
      go none = h
      go (some g) =
          let g' = with_group_params p g in
          saved-IsGood (codes "failed to update group: ") tt
            ((group_backend contains uuid).update_group g' s)
            (indexed-IsGood g' s (record s { tables = Tables.update_group g' s.tables }) h
              (update_group-IsConsistent g' s.tables h))

  pub delete_call-IsGood :
      (id : Option Bytes) (s : GroupSite)
      → IsGood s
      → IsGood (delete_proxy_group (group_backend contains uuid) id s).0
  unfolding delete_proxy_group
  delete_call-IsGood none s h = h
  delete_call-IsGood (some id) s h =
      let x = (group_backend contains uuid).delete_group id s in
      if_case Kept (is_empty id) (s, refuse_text (codes "id is required"))
        (saved (codes "failed to delete group: ") tt x) h
        (saved-IsGood (codes "failed to delete group: ") tt x
          (delete_group-IsConsistent id s.tables h))

  pub remove_call-IsGood :
      (p : Option RemoveProxyGroupNodeParams) (s : GroupSite)
      → IsGood s
      → IsGood (remove_proxy_group_node (group_backend contains uuid) p s).0
  unfolding remove_proxy_group_node
  remove_call-IsGood none s h = h
  remove_call-IsGood (some p) s h =
      let failed = codes "failed to remove node: " in
      let by_client =
        (group_backend contains uuid).remove_node_by_client_id p.group_id p.client_id s in
      let by_id = (group_backend contains uuid).remove_node p.id s in
      if_case Kept (is_empty p.id) _ (saved failed tt by_id)
        (if_case Kept (is_empty p.group_id || is_empty p.client_id)
          (s, refuse_text (codes "id or (group_id and client_id) is required"))
          (saved failed tt by_client) h
          (saved-IsGood failed tt by_client
            (remove_node_by_client_id-IsConsistent p.group_id p.client_id s.tables h)))
        (saved-IsGood failed tt by_id (remove_node-IsConsistent p.id s.tables h))

  pub change_call-IsGood :
      (p : Option UpdateProxyGroupNodeParams) (s : GroupSite)
      → IsGood s
      → IsGood (update_proxy_group_node (group_backend contains uuid) p s).0
  unfolding update_proxy_group_node update_node_found with_node_params Tables.get_node
  change_call-IsGood none s h = h
  change_call-IsGood (some p) s h =
      if_case Kept (is_empty p.id) _ _ h (go (Tables.get_node p.id s.tables) refl)
    where
      go :
          (o : Option ProxyGroupNode)
          → find (has_id p.id) s.tables.nodes ≡ o
          → IsGood
              (update_node_found
                (group_backend contains uuid)
                p
                (need (codes "node not found") (codes "failed to get node: ") (to_found o))
                s).0
      go none e = h
      go (some n) e =
          let same : n.id ≡ p.id =
            (str_eq_iff n.id p.id).0 (find_sound (has_id p.id) s.tables.nodes n e) in
          let found : find (has_id n.id) s.tables.nodes ≡ some n =
            ap (λ i. find (has_id i) s.tables.nodes) same ∙ e in
          saved-IsGood (codes "failed to update node: ") tt
            ((group_backend contains uuid).update_node (with_node_params p n) s)
            (update_node-IsConsistent (with_node_params p n) n s.tables found refl refl h)

  -- A node is added where the group was found and the loop found no node of the client.
  add_to-IsGood :
      (p : AddProxyGroupNodeParams) (client : ClientRow) (s : GroupSite)
      → present p.group_id s.tables.groups ≡ true
      → IsGood s
      → IsGood
          (add_to
            (group_backend contains uuid)
            p
            client
            (rows (get_nodes_by_group_id p.group_id s.tables))
            s).0
  unfolding add_to add_new new_node
  add_to-IsGood p client s there h =
      let n = new_node (uuid s.drawn) p client in
      let drawn : GroupSite = record s { drawn = s.drawn + 1 } in
      let x = (group_backend contains uuid).add_node n drawn in
      if_elim Kept (has_client p.client_id (get_nodes_by_group_id p.group_id s.tables))
        (s, refuse client_in_group) (add_new (group_backend contains uuid) p client s) (λ taken. h)
        (λ free.
          saved-IsGood {A = Bytes × Bytes × Bytes} (codes "failed to add node: ")
            (n.id, p.group_id, p.client_id) x
            (add_node-IsConsistent n s.tables there (no_member p.group_id p.client_id s.tables free)
              h))

  add_for_group-IsGood :
      (p : AddProxyGroupNodeParams) (o : Option ProxyGroup) (s : GroupSite)
      → find (λ (g : ProxyGroup). str_eq g.id p.group_id) s.tables.groups ≡ o
      → IsGood s
      → IsGood
          (add_for_group
            (group_backend contains uuid)
            p
            (need (codes "group not found") (codes "failed to verify group: ") (to_found o))
            s).0
  unfolding add_for_group add_for_client
  add_for_group-IsGood p none s e h = h
  add_for_group-IsGood p (some g) s e h = go (Clients.get_by_id p.client_id s.clients)
    where
      go :
          (o : Option ClientRow)
          → IsGood
              (add_for_client
                (group_backend contains uuid)
                p
                (need (codes "client not found") (codes "failed to verify client: ") (to_found o))
                s).0
      go none = h
      go (some c) = add_to-IsGood p c s (get_by_id-present p.group_id s.tables.groups e) h

  pub add_call-IsGood :
      (p : Option AddProxyGroupNodeParams) (s : GroupSite)
      → IsGood s
      → IsGood (add_proxy_group_node (group_backend contains uuid) p s).0
  unfolding add_proxy_group_node Tables.get_by_id
  add_call-IsGood none s h = h
  add_call-IsGood (some p) s h = if_case Kept (is_empty p.group_id) _ _ h (
      if_case Kept (is_empty p.client_id) _ _ h
        (add_for_group-IsGood p (Tables.get_by_id p.group_id s.tables) s refl h))
