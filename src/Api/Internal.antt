-- ===== src/Api/Internal.antt =====
-- internal/api/client_internal_rpc.go: what clients ask of the server. The report of traffic is in
-- Traffic/Repository.antt. The version that the rules come with is a time stamp and left out.
use message_boy.Base.{
  ℕ, List, [], ◌∷◌, ◌++◌, Option, none, some, Bytes, codes, if◌then◌else◌, str_eq, is_empty,
}
use message_boy.Storage.{ForwardRule, ClientRow, forward_type_direct, client_status_online}
use message_boy.Proxy.Tables.{ProxyTables}
use message_boy.Proxy.RelayChain.{resolve_relay_chain}
use message_boy.Rules.{Rule}
use message_boy.Api.{Rows, rows, no_rows, Reply, reply, refuse, refuse_text, need, Config, Backend}
use message_boy.Api.Forward.{written}

pub record ClientRegisterParams : Type 0 where
  pub token : Bytes
  pub hostname : Bytes
  pub version : Bytes
  pub relay_ip : Bytes
  pub report_ip : Bytes

pub record Registered : Type 0 where
  pub client_id : Bytes
  pub secret_key : Bytes
  pub ws_endpoint : Bytes
  pub heartbeat_interval : ℕ

pub record RuleStatusReportItem : Type 0 where
  pub rule_id : Bytes
  pub status : Bytes
  pub error : Bytes

-- The address of the request, where there is one.
abbrev pub request_ip : Option Bytes → Bytes
request_ip none = []
request_ip (some ip) = if str_eq ip (codes "::1") then codes "127.0.0.1" else ip

unfoldable pub seen : ClientRegisterParams → Option Bytes → ClientRow → ClientRow
seen p ip c = record c {
  status = client_status_online;
  last_ip = if is_empty p.report_ip then request_ip ip else p.report_ip;
  relay_ip = p.relay_ip;
  hostname = p.hostname;
  version = p.version;
}

-- A rule as it is sent to its client.
unfoldable pub client_rule : ProxyTables → ForwardRule → Rule
client_rule db r =
    if str_eq r.type forward_type_direct
    then record {
      id = r.id;
      type = r.type;
      listen_addr = r.listen_addr;
      target_addr = r.target_addr;
      exit_addr = [];
      relay_chain = [];
    }
    else record {
      id = r.id;
      type = r.type;
      listen_addr = r.listen_addr;
      target_addr = [];
      exit_addr = r.exit_addr;
      relay_chain = resolve_relay_chain db r.relay_chain;
    }

unfoldable pub client_rules : ProxyTables → List ForwardRule → List Rule
unfolding client_rule
client_rules db [] = []
client_rules db (r ∷ rules) = client_rule db r ∷ client_rules db rules

module _ (b : Backend) where
  unfoldable pub register_found :
      Config
      → ClientRegisterParams
      → Option Bytes
      → Reply ClientRow
      → b.State
      → b.State × Reply Registered
  unfolding written seen
  register_found cfg p ip (refuse e) s = (s, refuse e)
  register_found cfg p ip (reply c) s =
      written b (codes "failed to update client: ") (λ t. t)
        (record {
          client_id = c.id;
          secret_key = c.secret_key;
          ws_endpoint = cfg.external_url ++ cfg.endpoint;
          heartbeat_interval = cfg.ping_interval;
        })
        (b.update_client (seen p ip c) s)

  unfoldable pub client_register :
      Config → Option ClientRegisterParams → Option Bytes → b.State → b.State × Reply Registered
  unfolding register_found
  client_register cfg none ip s = (s, refuse_text (codes "invalid params"))
  client_register cfg (some p) ip s =
      if is_empty p.token
      then (s, refuse_text (codes "token is required"))
      else register_found cfg p ip
          (need (codes "invalid token") (codes "failed to verify token: ")
            (b.client_by_token p.token s))
          s

  unfoldable pub client_heartbeat : Option Bytes → Option Bytes → b.State → b.State × Reply Unit
  unfolding written
  client_heartbeat none ip s = (s, refuse_text (codes "invalid params"))
  client_heartbeat (some client) ip s =
      if is_empty client
      then (s, refuse_text (codes "client_id is required"))
      else written b (codes "failed to update heartbeat: ") (λ t. t) tt
          (b.update_client_status client client_status_online (elim ip [ none ↦ [] | some a ↦ a ])
            s)

  unfoldable pub rules_found : Rows (List ForwardRule) → b.State → Reply (List Rule)
  unfolding client_rules
  rules_found (no_rows e) s = refuse_text (codes "failed to get rules: " ++ e)
  rules_found (rows rules) s = reply (client_rules (b.groups s) rules)

  unfoldable pub client_get_rules : Option Bytes → b.State → Reply (List Rule)
  unfolding rules_found
  client_get_rules none s = refuse_text (codes "invalid params")
  client_get_rules (some client) s =
      if is_empty client
      then refuse_text (codes "client_id is required")
      else rules_found (b.rules_by_client client s) s

  -- An item that cannot be written is passed over.
  unfoldable pub report_items : List RuleStatusReportItem → b.State → b.State
  report_items [] s = s
  report_items (i ∷ items) s = report_items items (b.update_status i.rule_id i.status i.error s).0

  unfoldable pub client_report_rule_status :
      Option (Bytes × List RuleStatusReportItem) → b.State → b.State × Reply Unit
  unfolding report_items
  client_report_rule_status none s = (s, refuse_text (codes "invalid params"))
  client_report_rule_status (some (client, items)) s =
      if is_empty client
      then (s, refuse_text (codes "client_id is required"))
      else (report_items items s, reply tt)
