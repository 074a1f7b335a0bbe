-- ===== src/Storage.antt =====
-- internal/storage and pkg/model: the tables of forward rules and of clients, as the database executes
-- the queries of forward_repo.go and client_repo.go. Rows stand in the order of their creation; the time
-- stamps are left out.
pub mod Forwards
pub mod Clients
use message_boy.Base.{ℕ, Bool, List, Option, Bytes, codes}

-- `ForwardType` and `RuleStatus` are strings.
abbrev pub forward_type_direct : Bytes
forward_type_direct = codes "direct"

abbrev pub forward_type_relay : Bytes
forward_type_relay = codes "relay"

abbrev pub rule_status_pending : Bytes
rule_status_pending = codes "pending"

pub record ForwardRule : Type 0 where
  pub id : Bytes
  pub name : Bytes
  pub type : Bytes
  pub enabled : Bool
  pub listen_addr : Bytes
  pub listen_client : Bytes
  pub target_addr : Bytes
  pub relay_chain : List Bytes
  pub exit_addr : Bytes
  pub status : Bytes
  pub last_error : Bytes

abbrev pub client_status_online : Bytes
client_status_online = codes "online"

abbrev pub client_status_offline : Bytes
client_status_offline = codes "offline"

pub record ClientRow : Type 0 where
  pub id : Bytes
  pub name : Bytes
  pub description : Bytes
  pub ssh_host : Bytes
  pub ssh_port : ℕ
  pub ssh_user : Bytes
  pub ssh_password : Bytes
  pub ssh_key_path : Bytes
  pub token : Bytes
  pub secret_key : Bytes
  pub status : Bytes
  pub last_ip : Bytes
  pub relay_ip : Bytes
  pub hostname : Bytes
  pub version : Bytes

-- `ForwardListParams`. The API hands on a page and a limit that are positive.
pub record ForwardListParams : Type 0 where
  pub page : ℕ
  pub limit : ℕ
  pub client_id : Bytes
  pub type : Bytes
  pub enabled : Option Bool
