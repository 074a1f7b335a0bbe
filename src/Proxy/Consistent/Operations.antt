-- ===== src/Proxy/Consistent/Operations.antt =====
-- internal/storage/proxy_group_repo.go: every write of the tables keeps them consistent.
use message_boy.Base.{
  ◌≡◌, refl, sym, ap, ◌∙◌, arith, Bool, true, false, ◌&&◌, not, Bool-cases, inl, inr, List, [], ◌∷◌,
  some, Bytes, ltb, str_eq, str_eq_iff, find, filter, update_where, All, All-append, All-filter,
  All-find, All-update_where,
}
use message_boy.Proxy.{ProxyGroup, ProxyGroupNode}
use message_boy.Proxy.Tables.{
  ProxyTables, has_id, create_group, update_group, delete_group, add_node, update_node, remove_node,
  remove_node_by_client_id, with_health, with_unhealthy, one_more, one_less, update_node_health,
  mark_node_unhealthy, increment_node_conns, decrement_node_conns,
}
use message_boy.Proxy.Consistent.{
  present, is_member, count, IsConsistent, present-append, present-save_group, present-filter,
  count-append, count-filter, count-update_where, count-save_node, save_node-All,
}

All-map_to {ℓ} :
    {A : Type 0} {P Q : A → Type ℓ} (xs : List A) → ((a : A) → P a → Q a) → All P xs → All Q xs
All-map_to [] f h = tt
All-map_to (x ∷ xs) f h = (f x h.0, All-map_to xs f h.1)

pub create_group-IsConsistent :
    (g : ProxyGroup) (db : ProxyTables) → IsConsistent db → IsConsistent (create_group g db)
unfolding create_group
create_group-IsConsistent g db h = record {
  placed = All-map_to db.nodes (λ n e. present-append n.group_id db.groups (g ∷ []) e) h.placed;
  once = h.once;
}

pub update_group-IsConsistent :
    (g : ProxyGroup) (db : ProxyTables) → IsConsistent db → IsConsistent (update_group g db)
unfolding update_group
update_group-IsConsistent g db h = record {
  placed = All-map_to db.nodes (λ n e. present-save_group n.group_id g db.groups e) h.placed;
  once = h.once;
}

-- The nodes that are left are of other groups.
filtered-placed :
    (id : Bytes) (groups : List ProxyGroup) (nodes : List ProxyGroupNode)
    → All (λ (n : ProxyGroupNode). present n.group_id groups ≡ true) nodes
    → All
        (λ (n : ProxyGroupNode).
          present n.group_id (filter (λ (g : ProxyGroup). not (str_eq g.id id)) groups) ≡ true)
        (filter (λ (n : ProxyGroupNode). not (str_eq n.group_id id)) nodes)
unfolding filter
filtered-placed id groups [] h = tt
filtered-placed id groups (n ∷ nodes) h =
    let rest = filtered-placed id groups nodes h.1 in
    elim (Bool-cases (str_eq n.group_id id)) [
      | inl gone ↦ rw gone rest
      | inr kept ↦ rw kept (present-filter n.group_id id groups kept h.0, rest)
    ]

pub delete_group-IsConsistent :
    (id : Bytes) (db : ProxyTables) → IsConsistent db → IsConsistent (delete_group id db)
unfolding delete_group
delete_group-IsConsistent id db h = record {
  placed = filtered-placed id db.groups db.nodes h.placed;
  once = λ group client.
      let fewer = count-filter group client (λ n. not (str_eq n.group_id id)) db.nodes in
      omega (arith, fewer, h.once group client);
}

-- A node may be added to a group that is there, if its client is not in the group.
pub add_node-IsConsistent :
    (n : ProxyGroupNode) (db : ProxyTables)
    → present n.group_id db.groups ≡ true
    → count n.group_id n.client_id db.nodes ≡ 0
    → IsConsistent db
    → IsConsistent (add_node n db)
unfolding add_node
add_node-IsConsistent n db there new h = record {
  placed = All-append _ db.nodes (n ∷ []) h.placed (there, tt);
  once = λ group client.
      let sum = count-append group client db.nodes (n ∷ []) in
      let old = h.once group client in
      elim (Bool-cases (is_member group client n)) [
        | inr other ↦ rw sum (rw other (omega (arith, old)))
        | inl own ↦
            let parts : (str_eq n.group_id group ≡ true) × (str_eq n.client_id client ≡ true) =
              (ground (arith, own), ground (arith, own)) in
            let none_there : count group client db.nodes ≡ 0 =
              ap (λ g. count g client db.nodes) (sym ((str_eq_iff n.group_id group).0 parts.0))
              ∙ ap (λ c. count n.group_id c db.nodes)
                  (sym ((str_eq_iff n.client_id client).0 parts.1))
              ∙ new in
            rw sum (rw own (omega (arith, none_there)))
      ];
}

pub update_node-IsConsistent :
    (n m : ProxyGroupNode) (db : ProxyTables)
    → find (has_id n.id) db.nodes ≡ some m
    → n.group_id ≡ m.group_id
    → n.client_id ≡ m.client_id
    → IsConsistent db
    → IsConsistent (update_node n db)
unfolding update_node
update_node-IsConsistent n m db found same_group same_client h = record {
  placed =
      save_node-All (λ x. present x.group_id db.groups ≡ true) n db.nodes
        (ap (λ g. present g db.groups) same_group
          ∙ All-find _ (has_id n.id) db.nodes h.placed found)
        h.placed;
  once = λ group client.
      let same = count-save_node group client n m db.nodes found (
        ap (λ g. str_eq g group && str_eq n.client_id client) same_group
        ∙ ap (λ c. str_eq m.group_id group && str_eq c client) same_client) in
      omega (arith, same, h.once group client);
}

-- Fewer nodes.
filter-IsConsistent :
    (q : ProxyGroupNode → Bool) (db : ProxyTables)
    → IsConsistent db
    → IsConsistent (record db { nodes = filter q db.nodes })
filter-IsConsistent q db h = record {
  placed = All-filter _ q db.nodes h.placed;
  once = λ group client. omega (arith, count-filter group client q db.nodes, h.once group client);
}

pub remove_node-IsConsistent :
    (id : Bytes) (db : ProxyTables) → IsConsistent db → IsConsistent (remove_node id db)
unfolding remove_node
remove_node-IsConsistent id db h = filter-IsConsistent (λ n. not (str_eq n.id id)) db h

pub remove_node_by_client_id-IsConsistent :
    (group client : Bytes) (db : ProxyTables)
    → IsConsistent db
    → IsConsistent (remove_node_by_client_id group client db)
unfolding remove_node_by_client_id
remove_node_by_client_id-IsConsistent group client db h =
    filter-IsConsistent (λ n. not (str_eq n.group_id group && str_eq n.client_id client)) db h

-- Nodes that are changed beside their group and client.
update_where-IsConsistent :
    (q : ProxyGroupNode → Bool) (f : ProxyGroupNode → ProxyGroupNode) (db : ProxyTables)
    → ((n : ProxyGroupNode) → ((f n).group_id ≡ n.group_id) × ((f n).client_id ≡ n.client_id))
    → IsConsistent db
    → IsConsistent (record db { nodes = update_where q f db.nodes })
update_where-IsConsistent q f db keep h = record {
  placed =
      All-update_where _ q f db.nodes (λ n e. ap (λ g. present g db.groups) (keep n).0 ∙ e)
        h.placed;
  once = λ group client.
      let same = count-update_where group client q f db.nodes (λ n.
        ap (λ g. str_eq g group && str_eq (f n).client_id client) (keep n).0
        ∙ ap (λ c. str_eq n.group_id group && str_eq c client) (keep n).1) in
      omega (arith, same, h.once group client);
}

pub update_node_health-IsConsistent :
    (id : Bytes) (healthy : Bool) (db : ProxyTables)
    → IsConsistent db
    → IsConsistent (update_node_health id healthy db)
unfolding update_node_health
update_node_health-IsConsistent id true db h =
    update_where-IsConsistent (has_id id) (with_health true) db (λ n. (refl, refl)) h
update_node_health-IsConsistent id false db h =
    update_where-IsConsistent (has_id id) (with_health false) db (λ n. (refl, refl)) h

pub mark_node_unhealthy-IsConsistent :
    (id : Bytes) (db : ProxyTables) → IsConsistent db → IsConsistent (mark_node_unhealthy id db)
unfolding mark_node_unhealthy
mark_node_unhealthy-IsConsistent id db h =
    update_where-IsConsistent (has_id id) with_unhealthy db (λ n. (refl, refl)) h

pub increment_node_conns-IsConsistent :
    (id : Bytes) (db : ProxyTables) → IsConsistent db → IsConsistent (increment_node_conns id db)
unfolding increment_node_conns
increment_node_conns-IsConsistent id db h =
    update_where-IsConsistent (has_id id) one_more db (λ n. (refl, refl)) h

pub decrement_node_conns-IsConsistent :
    (id : Bytes) (db : ProxyTables) → IsConsistent db → IsConsistent (decrement_node_conns id db)
unfolding decrement_node_conns
decrement_node_conns-IsConsistent id db h =
    update_where-IsConsistent (λ n. has_id id n && ltb 0 n.active_conns) one_less db
      (λ n. (refl, refl)) h
