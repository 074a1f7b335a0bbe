-- ===== src/Api/Groups/Tests.antt =====
-- The methods on groups at a small site.
use message_boy.Base.{
  ℕ, ◌+◌, ◌%◌, refl, arith, Bool, true, false, List, [], ◌∷◌, none, some, Bytes, codes, str_eq,
  is_empty, bytes_eq, find, filter, order_by,
}
use native.Mathlib.Nat.{mod-lt}
use message_boy.Storage.{ClientRow, client_status_online}
use message_boy.Storage.Clients
use message_boy.Proxy.{ProxyGroup, load_balance_random}
use message_boy.Proxy.Balancer.{LoadBalancer, select_node}
use message_boy.Proxy.Selecting.{IsChosen}
use message_boy.Proxy.Tables
use message_boy.Proxy.Tables.{get_nodes_by_group_id, get_healthy_nodes_by_group_id, tables_reader}
use message_boy.Proxy.Consistent.{IsConsistent}
use message_boy.Api.Groups.{CreateProxyGroupParams, AddProxyGroupNodeParams, has_client}
use message_boy.Api.Groups.Nodes.{add_proxy_group_node}
use message_boy.Api.Groups.Tables.{GroupSite, group_backend}
use message_boy.Api.Groups.Consistent.{GroupCall, group_calls, group_calls-IsConsistent}
use message_boy.Api.Groups.Serving.{add_proxy_group_node_serves}

abbrev client : ClientRow
client = record {
  id = codes "c1";
  name = codes "alice";
  description = [];
  ssh_host = [];
  ssh_port = 22;
  ssh_user = [];
  ssh_password = [];
  ssh_key_path = [];
  token = codes "t1";
  secret_key = [];
  status = client_status_online;
  last_ip = [];
  relay_ip = [];
  hostname = [];
  version = [];
}

abbrev contains : Bytes → Bytes → Bool
contains text search = str_eq text search

abbrev uuid : ℕ → Bytes
uuid n = n ∷ []

abbrev empty_site : GroupSite
empty_site = record {
  tables = record { groups = []; nodes = [] };
  clients = client ∷ [];
  drawn = 0;
}

abbrev eu : CreateProxyGroupParams
eu = record {
  name = codes "eu";
  description = [];
  load_balance_method = load_balance_random;
  health_check_enabled = none;
  health_check_interval = none;
  health_check_timeout = none;
  health_check_retries = some 2;
}

abbrev alice_in_eu : AddProxyGroupNodeParams
alice_in_eu = record {
  group_id = uuid 0;
  client_id = codes "c1";
  priority = none;
  weight = some 10;
}

-- The second addition is refused.
abbrev some_calls : List GroupCall
some_calls =
    GroupCall.create (some eu)
    ∷ GroupCall.add (some alice_in_eu)
    ∷ GroupCall.add (some alice_in_eu)
    ∷ GroupCall.checked (uuid 1) false
    ∷ GroupCall.delete (some (uuid 0))
    ∷ []

group_calls-IsConsistent_example :
    IsConsistent (group_calls contains uuid some_calls empty_site).tables
group_calls-IsConsistent_example =
    group_calls-IsConsistent contains uuid some_calls empty_site
      (record { placed = tt; once = λ group client. omega arith })

abbrev group : ProxyGroup
group = record {
  id = uuid 0;
  name = codes "eu";
  description = [];
  load_balance_method = load_balance_random;
  health_check_enabled = true;
  health_check_interval = 30;
  health_check_timeout = 5;
  health_check_retries = 3;
}

abbrev site : GroupSite
site = record empty_site { tables = record { groups = group ∷ []; nodes = [] }; drawn = 1 }

abbrev intn : ℕ → ℕ → ℕ × ℕ
intn n seed = (seed + 1, seed % n)

abbrev balancer : LoadBalancer (tables_reader intn)
balancer = record {
  store = (add_proxy_group_node (group_backend contains uuid) (some alice_in_eu) site).0.tables;
  rr_counters = [];
  seed = 5;
}

add_proxy_group_node_serves_example :
    IsChosen
      (get_healthy_nodes_by_group_id (uuid 0) balancer.store)
      (select_node (uuid 0) (codes "1.2.3.4") balancer).1
unfolding is_empty str_eq Tables.get_by_id Clients.get_by_id find has_client get_nodes_by_group_id
    filter order_by
add_proxy_group_node_serves_example =
    add_proxy_group_node_serves contains uuid intn alice_in_eu group client site (codes "1.2.3.4")
      balancer (λ n seed h. mod-lt seed h) refl refl refl refl refl refl (omega arith) refl
