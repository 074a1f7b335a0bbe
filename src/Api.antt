-- ===== src/Api.antt =====
-- internal/api: the methods behind the RPC endpoint. Their parameters come decoded: `none` stands for a
-- body that `json.Unmarshal` refuses. A method is a function of the server's state, which the record
-- `Backend` gives: the storage, which may fail, and the relay server.
pub mod Clients
pub mod Groups
pub mod Forward
pub mod Internal
pub mod Site
pub mod Fetching
pub mod Rpc
mod Tests
use message_boy.Base.{ℕ, Bool, List, ◌++◌, Option, Bytes}
use message_boy.Storage.{ForwardRule, ForwardListParams, ClientRow}
use message_boy.Proxy.Tables.{ProxyTables}

-- What a query for one row comes to; `broken` has the text of a database error.
pub data Found (A : Type 0) : Type 0 where
  found : A → Found A
  missing : Found A
  broken : Bytes → Found A

-- What a query for many rows comes to.
pub data Rows (A : Type 0) : Type 0 where
  rows : A → Rows A
  no_rows : Bytes → Rows A

-- The error of a method; the constructors stand for the texts that are not ASCII.
pub data ApiError : Type 0 where
  message : Bytes → ApiError
  port_unavailable : Bytes → Bytes → Bytes → ApiError
  client_in_group : ApiError

pub data Reply (A : Type 0) : Type 0 where
  reply : A → Reply A
  refuse : ApiError → Reply A

abbrev pub refuse_text : {A : Type 0} → Bytes → Reply A
refuse_text text = refuse (message text)

-- The texts for a row that is not there, and for an error of the database, which follows its text.
abbrev pub need : {A : Type 0} → Bytes → Bytes → Found A → Reply A
need absent failed (found a) = reply a
need absent failed missing = refuse_text absent
need absent failed (broken e) = refuse_text (failed ++ e)

-- The fields of the configuration that the answers repeat.
pub record Config : Type 0 where
  pub external_url : Bytes
  pub install_script_url : Bytes
  pub endpoint : Bytes
  pub ping_interval : ℕ

-- An update answers `none`, or the text of its error. `check_port_available` waits for a client and
-- `pause` for half a second: others may change the state meanwhile. The queries of a relay chain for
-- groups treat an error as a group that is not there, so `groups` gives the tables themselves.
pub record Backend : Type 1 where
  pub State : Type 0
  pub new_id : State → State × Bytes
  pub client_by_id : Bytes → State → Found ClientRow
  pub client_by_token : Bytes → State → Found ClientRow
  pub update_client : ClientRow → State → State × Option Bytes
  pub update_client_status : Bytes → Bytes → Bytes → State → State × Option Bytes
  pub create_rule : ForwardRule → State → State × Option Bytes
  pub rule_by_id : Bytes → State → Found ForwardRule
  pub update_rule : ForwardRule → State → State × Option Bytes
  pub delete_rule : Bytes → State → State × Option Bytes
  pub list_rules : ForwardListParams → State → Rows (List ForwardRule × ℕ)
  pub rules_by_client : Bytes → State → Rows (List ForwardRule)
  pub toggle_rule : Bytes → Bool → State → State × Option Bytes
  pub update_status : Bytes → Bytes → Bytes → State → State × Option Bytes
  pub groups : State → ProxyTables
  pub has_ws_server : Bool
  pub notify_rule_update : Bytes → State → State × Bool
  pub check_port_available : Bytes → Bytes → Bytes → State → State × Bool × Bytes
  pub pause : State → State
