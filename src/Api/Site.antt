-- ===== src/Api/Site.antt =====
-- The server's state behind the methods: the tables of the storage, in which no query fails, and the
-- relay server, as internal/api/api.go gives both to them.
use message_boy.Base.{ℕ, ◌+◌, Bool, Option, none, some, Bytes}
use message_boy.Storage.Forwards
use message_boy.Storage.Clients
use message_boy.Hub.{Services, Server, notify_rule_update}
use message_boy.Proxy.Tables.{ProxyTables}
use message_boy.Api.{Found, found, missing, rows, Backend}

-- `drawn` counts the ids that were drawn.
pub record Site (svc : Services) : Type 0 where
  pub rules : Forwards.Rules
  pub clients : Clients.Clients
  pub groups : ProxyTables
  pub server : Server svc
  pub drawn : ℕ

-- The ids of `uuid.New`, and what the rest of the program does while a method waits: the first for the
-- answer of a client, which comes back with it, the second for half a second.
pub record Outside (svc : Services) : Type 0 where
  pub uuid : ℕ → Bytes
  pub check_port : Bytes → Bytes → Bytes → Site svc → Site svc × Bool × Bytes
  pub pause : Site svc → Site svc

abbrev pub to_found : {A : Type 0} → Option A → Found A
to_found none = missing
to_found (some a) = found a

abbrev pub site_backend : {svc : Services} → Outside svc → Backend
site_backend {svc = svc} out = record {
  State = Site svc;
  new_id = λ s. (record s { drawn = s.drawn + 1 }, out.uuid s.drawn);
  client_by_id = λ id s. to_found (Clients.get_by_id id s.clients);
  client_by_token = λ token s. to_found (Clients.get_by_token token s.clients);
  update_client = λ c s. (record s { clients = Clients.update c s.clients }, none);
  update_client_status =
      λ id status ip s. (record s { clients = Clients.update_status id status ip s.clients }, none);
  create_rule = λ r s. (record s { rules = Forwards.create r s.rules }, none);
  rule_by_id = λ id s. to_found (Forwards.get_by_id id s.rules);
  update_rule = λ r s. (record s { rules = Forwards.update r s.rules }, none);
  delete_rule = λ id s. (record s { rules = Forwards.delete_rule id s.rules }, none);
  list_rules = λ p s. rows (Forwards.list p s.rules);
  rules_by_client = λ client s. rows (Forwards.get_by_client_id client s.rules);
  toggle_rule = λ id e s. (record s { rules = Forwards.toggle_enabled id e s.rules }, none);
  update_status = λ id status error s.
      (record s { rules = Forwards.update_status id status error s.rules }, none);
  groups = λ s. s.groups;
  has_ws_server = Bool.true;
  notify_rule_update = λ client s. (
    record s { server = (notify_rule_update client s.server).0 },
    (notify_rule_update client s.server).1,
  );
  check_port_available = out.check_port;
  pause = out.pause;
}
