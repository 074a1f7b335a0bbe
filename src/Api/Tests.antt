-- ===== src/Api/Tests.antt =====
-- The methods on forward rules at a small site: two clients and two rules.
use message_boy.Base.{
  ℕ, ◌≡◌, inl, refl, true, false, List, [], ◌∷◌, none, some, arith, Bytes, codes, str_eq, is_empty,
  bytes_eq, lookup, insert, length, find, filter, map, All, All-update_where, replicate,
  length-replicate,
}
use message_boy.Storage.{ForwardRule, ClientRow, client_status_online, rule_status_pending}
use message_boy.Storage.Forwards
use message_boy.Storage.Forwards.{with_status, runs_on}
use message_boy.Storage.Clients
use message_boy.Hub.{resolved, Services, Server}
use message_boy.Rules.{Client}
use message_boy.Api.Site.{Site, Outside, site_backend}
use message_boy.Api.Internal.{client_get_rules, client_rule}
use message_boy.Api.Forward.{
  RuleList, CreateForwardRuleParams, UpdateForwardRuleParams, GetForwardRuleListParams, with_params,
  create_forward_rule, list_params,
}
use message_boy.Api.Forward.Changing.{update_forward_rule, toggle_forward_rule}
use message_boy.Api.Forward.Reading.{get_forward_rule_list, listed, client_names, listed_rules}
use message_boy.Api.Forward.Complete.{IsComplete, Creates, create_forward_rule_lem}
use message_boy.Api.Forward.Careful.{IsCareful}
use message_boy.Api.Forward.Invariant.{Call, calls, IsSteady, calls-IsComplete}
use message_boy.Api.Forward.Overwriting.{update_forward_rule_stale}
use message_boy.Api.Forward.Naming.{listed_rule}
use message_boy.Api.Forward.Paging.{pages_up_to, page_of, selected, get_forward_rule_list_complete}
use message_boy.Api.Fetching.{
  IsImplemented, fetch_and_apply_rules, fetch_and_apply_rules_implements,
  toggle_forward_rule_takes_effect,
}

abbrev quiet : Services
quiet = record {
  Balancer = ℕ;
  Counter = ℕ;
  resolve_target = λ target client n. (n, resolved target []);
  increment_connections = λ node n. n;
  decrement_connections = λ node n. n;
  add_bytes_in = λ rule client bytes n. n;
  add_bytes_out = λ rule client bytes n. n;
  increment_conn = λ rule client n. n;
  decrement_conn = λ rule client n. n;
  pool = record { get = λ n. replicate n 0; length-get = λ n. length-replicate n 0 };
}

abbrev no_server : Server quiet
no_server = record {
  clients = [];
  conns = [];
  next_ref = 0;
  routes = [];
  load_balancer = none;
  traffic_counter = none;
  pending_port_checks = [];
  port_check_next_id = 0;
}

abbrev pub row : Bytes → ClientRow
row id = record {
  id = id;
  name = id;
  description = [];
  ssh_host = [];
  ssh_port = 22;
  ssh_user = [];
  ssh_password = [];
  ssh_key_path = [];
  token = id;
  secret_key = [];
  status = client_status_online;
  last_ip = [];
  relay_ip = [];
  hostname = [];
  version = [];
}

abbrev web : ForwardRule
web = record {
  id = codes "r1";
  name = codes "web";
  type = codes "direct";
  enabled = true;
  listen_addr = codes ":80";
  listen_client = codes "c1";
  target_addr = codes "a:80";
  relay_chain = [];
  exit_addr = [];
  status = rule_status_pending;
  last_error = [];
}

abbrev mail : ForwardRule
mail = record web { id = codes "r2"; name = codes "mail"; listen_addr = codes ":25" }

abbrev pub site : Site quiet
site = record {
  rules = web ∷ mail ∷ [];
  clients = row (codes "c1") ∷ row (codes "c2") ∷ [];
  groups = record { groups = []; nodes = [] };
  server = no_server;
  drawn = 0;
}

-- While an update waits the client reports that the rule `r1` runs.
abbrev pub outside : Outside quiet
outside = record {
  uuid = λ n. codes "id";
  check_port = λ client addr rule s. (
    record s { rules = Forwards.update_status (codes "r1") (codes "running") [] s.rules },
    true,
    [],
  );
  pause = λ s. s;
}

abbrev no_params : UpdateForwardRuleParams
no_params = record {
  id = codes "r1";
  name = none;
  listen_addr = none;
  listen_client = none;
  target_addr = none;
  relay_chain = none;
  exit_addr = none;
}

abbrev moving : UpdateForwardRuleParams
moving = record no_params { listen_addr = some (codes ":81") }

update_forward_rule_stale_example :
    Forwards.get_by_id
      (codes "r1")
      (update_forward_rule (site_backend outside) (some moving) site).0.rules
    ≡ some (record (with_params moving web) { status = web.status; last_error = web.last_error })
unfolding is_empty Forwards.get_by_id find str_eq with_params
update_forward_rule_stale_example =
    update_forward_rule_stale outside moving web site
      (outside.check_port (codes "c1") (codes ":81") (codes "r1") site).0 [] refl refl refl refl
      refl

abbrev one_to_a_page : GetForwardRuleListParams
one_to_a_page = record { page = 1; limit = 1; client_id = []; type = []; enabled = none }

-- The first of two pages.
abbrev first_page : RuleList
first_page = record {
  rules = listed_rule site mail ∷ [];
  total = 2;
  page = 1;
  limit = 1;
  pages = 2;
}

get_forward_rule_list_complete_example :
    (pages_up_to outside one_to_a_page 2 site
      ≡ map (listed_rule site) (selected outside one_to_a_page site))
    × (2 ≡ length (selected outside one_to_a_page site))
    × (page_of outside one_to_a_page 3 site ≡ [])
unfolding get_forward_rule_list listed list_params client_names listed_rules Forwards.list filter
    str_eq is_empty Clients.get_by_id find lookup insert
get_forward_rule_list_complete_example =
    get_forward_rule_list_complete outside one_to_a_page first_page site (omega arith) (omega arith)
      refl

abbrev new_web : CreateForwardRuleParams
new_web = record {
  name = codes "new";
  type = codes "direct";
  listen_addr = codes ":90";
  listen_client = codes "c2";
  target_addr = codes "b:90";
  relay_chain = [];
  exit_addr = [];
}

create_forward_rule_lem_example :
    Creates outside site (create_forward_rule (site_backend outside) (some new_web) site)
create_forward_rule_lem_example = create_forward_rule_lem outside (some new_web) site

update_status-IsComplete :
    (rules : Forwards.Rules)
    → All IsComplete rules
    → All IsComplete (Forwards.update_status (codes "r1") (codes "running") [] rules)
unfolding Forwards.update_status
update_status-IsComplete rules h =
    All-update_where IsComplete (Forwards.has_id (codes "r1")) (with_status (codes "running") [])
      rules
      (λ r full. record {
        named = full.named;
        listens = full.listens;
        assigned = full.assigned;
        routed = full.routed;
      })
      h

outside-IsSteady : IsSteady outside
outside-IsSteady = record {
  check_port = λ client addr rule s h. update_status-IsComplete s.rules h;
  pause = λ s h. h;
}

web-IsComplete : IsComplete web
unfolding is_empty str_eq
web-IsComplete = record { named = refl; listens = refl; assigned = refl; routed = inl (refl, refl) }

mail-IsComplete : IsComplete mail
unfolding is_empty str_eq
mail-IsComplete = record {
  named = refl;
  listens = refl;
  assigned = refl;
  routed = inl (refl, refl);
}

moving-IsCareful : IsCareful moving
unfolding is_empty
moving-IsCareful = record {
  name = tt;
  listen_addr = refl;
  listen_client = tt;
  target_addr = tt;
  relay_chain = tt;
  exit_addr = tt;
}

-- A rule is created, one is moved, and one is deleted.
abbrev three_calls : List Call
three_calls = Call.create (some new_web) ∷ Call.update moving ∷ Call.delete (some (codes "r2")) ∷ []

calls-IsComplete_example : All IsComplete (calls outside three_calls site).rules
calls-IsComplete_example =
    calls-IsComplete outside three_calls site outside-IsSteady (tt, (moving-IsCareful, (tt, tt)))
      (web-IsComplete, (mail-IsComplete, tt))

abbrev client : Client
client = record { forwarders = []; next_ref = 0; stopped = []; ws_connected = true }

fetch_and_apply_rules_implements_example : IsImplemented true site.groups web (
    fetch_and_apply_rules (client_get_rules (site_backend outside) (some (codes "c1")) site) client)
unfolding is_empty str_eq client_rule
fetch_and_apply_rules_implements_example =
    fetch_and_apply_rules_implements outside (codes "c1") web [] (mail ∷ []) site client refl refl
      tt (refl, tt) refl

toggle_forward_rule_takes_effect_example : IsImplemented false site.groups mail (
    fetch_and_apply_rules
      (client_get_rules
        (site_backend outside)
        (some (codes "c1"))
        (toggle_forward_rule
          (site_backend outside)
          (some (record { id = codes "r2"; enabled = false }))
          site).0)
      client)
unfolding is_empty str_eq client_rule
toggle_forward_rule_takes_effect_example =
    toggle_forward_rule_takes_effect outside false mail (web ∷ []) [] site client refl refl refl
      (refl, tt) tt refl
