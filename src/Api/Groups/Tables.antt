-- ===== src/Api/Groups/Tables.antt =====
-- The storage behind the methods on groups: the tables of proxy_group_repo.go and of the clients, in
-- which no query fails. The unique index on the name of a group refuses a second row with the name.
use mathlib.Core.List.{reverse}
use message_boy.Base.{
  ℕ, ◌+◌, ◌-◌, ◌*◌, Bool, false, ◌&&◌, ◌||◌, not, List, [], ◌∷◌, Option, none, some, Bytes, codes,
  if◌then◌else◌, length, take, drop, filter, str_eq, is_empty,
}
use message_boy.Storage.Clients
use message_boy.Proxy.{ProxyGroup}
use message_boy.Proxy.Tables
use message_boy.Proxy.Tables.{ProxyTables}
use message_boy.Api.{rows}
use message_boy.Api.Site.{to_found}
use message_boy.Api.Groups.{GroupBackend}

-- `drawn` counts the ids that were drawn.
pub record GroupSite : Type 0 where
  pub tables : ProxyTables
  pub clients : Clients.Clients
  pub drawn : ℕ

unfoldable pub name_taken : ProxyGroup → List ProxyGroup → Bool
name_taken group [] = false
name_taken group (g ∷ groups) =
    (str_eq g.name group.name && not (str_eq g.id group.id)) || name_taken group groups

-- A write of a group under the index.
abbrev pub indexed : ProxyGroup → GroupSite → GroupSite → GroupSite × Option Bytes
indexed group s s' =
    if name_taken group s.tables.groups
    then (s, some (codes "duplicate key value violates unique constraint"))
    else (s', none)

-- `contains text search` is the `ILIKE` of the database, and `uuid` gives the ids of `uuid.New`.
module _ (contains : Bytes → Bytes → Bool) (uuid : ℕ → Bytes) where
  abbrev pub searched : Bytes → ProxyGroup → Bool
  searched search g = is_empty search || (contains g.name search || contains g.description search)

  unfoldable pub list : ℕ → ℕ → Bytes → ProxyTables → List ProxyGroup × ℕ
  list page limit search db =
      let found = filter (searched search) db.groups in
      (take limit (drop ((page - 1) * limit) (reverse found)), length found)

  abbrev pub group_backend : GroupBackend
  group_backend = record {
    State = GroupSite;
    new_id = λ s. (record s { drawn = s.drawn + 1 }, uuid s.drawn);
    client_by_id = λ id s. to_found (Clients.get_by_id id s.clients);
    group_by_id = λ id s. to_found (Tables.get_by_id id s.tables);
    group_by_name = λ name s. to_found (Tables.get_by_name name s.tables);
    list_groups = λ page limit search s. rows (list page limit search s.tables);
    nodes_by_group = λ group s. rows (Tables.get_nodes_by_group_id group s.tables);
    node_by_id = λ id s. to_found (Tables.get_node id s.tables);
    create_group = λ g s. indexed g s (record s { tables = Tables.create_group g s.tables });
    update_group = λ g s. indexed g s (record s { tables = Tables.update_group g s.tables });
    delete_group = λ id s. (record s { tables = Tables.delete_group id s.tables }, none);
    add_node = λ n s. (record s { tables = Tables.add_node n s.tables }, none);
    update_node = λ n s. (record s { tables = Tables.update_node n s.tables }, none);
    remove_node = λ id s. (record s { tables = Tables.remove_node id s.tables }, none);
    remove_node_by_client_id = λ group client s.
        (record s { tables = Tables.remove_node_by_client_id group client s.tables }, none);
  }
