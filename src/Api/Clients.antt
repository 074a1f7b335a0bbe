-- ===== src/Api/Clients.antt =====
-- internal/api/client_rpc.go: the methods on clients. Of the time stamps nothing is shown.
pub mod Methods
pub mod Tables
pub mod Tokens
mod Tests
use message_boy.Base.{
  ℕ, ◌+◌, ◌-◌, ◌/◌, ◌%◌, ◌==◌, Bool, true, false, ◌&&◌, not, List, [], ◌∷◌, ◌++◌, Option, none,
  some, Bytes, codes, ltb, if◌then◌else◌, str_eq, is_empty,
}
use message_boy.Storage.{ClientRow, client_status_offline}
use message_boy.Api.{
  Found, found, missing, broken, Rows, rows, no_rows, Reply, reply, refuse, refuse_text, need,
  Config,
}
use message_boy.Api.Forward.{or_keep}

-- The storage behind the methods; an update answers `none`, or the text of its error. `random_bytes`
-- is the `Read` of the generator into 32 bytes.
pub record ClientBackend : Type 1 where
  pub State : Type 0
  pub new_id : State → State × Bytes
  pub random_bytes : State → State × Bytes
  pub client_by_id : Bytes → State → Found ClientRow
  pub list_clients : ℕ → ℕ → Bytes → Bytes → State → Rows (List ClientRow × ℕ)
  pub create_client : ClientRow → State → State × Option Bytes
  pub update_client : ClientRow → State → State × Option Bytes
  pub delete_client : Bytes → State → State × Option Bytes
  pub update_token : Bytes → Bytes → State → State × Option Bytes

pub record CreateClientParams : Type 0 where
  pub name : Bytes
  pub description : Bytes
  pub relay_ip : Bytes
  pub ssh_host : Bytes
  pub ssh_port : ℕ
  pub ssh_user : Bytes
  pub ssh_password : Bytes
  pub ssh_key_path : Bytes

pub record UpdateClientParams : Type 0 where
  pub id : Bytes
  pub name : Option Bytes
  pub description : Option Bytes
  pub relay_ip : Option Bytes
  pub ssh_host : Option Bytes
  pub ssh_port : Option ℕ
  pub ssh_user : Option Bytes
  pub ssh_password : Option Bytes
  pub ssh_key_path : Option Bytes

pub record GetClientListParams : Type 0 where
  pub page : ℕ
  pub limit : ℕ
  pub search : Bytes
  pub status : Bytes

pub record CreatedClient : Type 0 where
  pub id : Bytes
  pub name : Bytes
  pub token : Bytes
  pub install_command : Bytes

pub record ClientList : Type 0 where
  pub clients : List ClientRow
  pub total : ℕ
  pub page : ℕ
  pub limit : ℕ
  pub pages : ℕ

-- `hex.EncodeToString`: two digits for each byte.
abbrev pub hex_digit : ℕ → ℕ
hex_digit n = if ltb n 10 then 48 + n else 87 + n

unfoldable pub encode_to_string : Bytes → Bytes
encode_to_string [] = []
encode_to_string (b ∷ bytes) = hex_digit (b / 16 % 16) ∷ hex_digit (b % 16) ∷ encode_to_string bytes

unfoldable pub install_command : Config → Bytes → Bytes
install_command cfg token =
    codes "curl -sSL "
    ++ (cfg.install_script_url
        ++ (codes " | bash -s -- --server " ++ (cfg.external_url ++ (codes " --token " ++ token))))

unfoldable pub new_client : Bytes → Bytes → Bytes → CreateClientParams → ClientRow
new_client id token secret p = record {
  id = id;
  name = p.name;
  description = p.description;
  ssh_host = p.ssh_host;
  ssh_port = if p.ssh_port == 0 then 22 else p.ssh_port;
  ssh_user = p.ssh_user;
  ssh_password = p.ssh_password;
  ssh_key_path = p.ssh_key_path;
  token = token;
  secret_key = secret;
  status = client_status_offline;
  last_ip = [];
  relay_ip = p.relay_ip;
  hostname = [];
  version = [];
}

unfoldable pub with_client_params : UpdateClientParams → ClientRow → ClientRow
with_client_params p c = record c {
  name = or_keep p.name c.name;
  description = or_keep p.description c.description;
  relay_ip = or_keep p.relay_ip c.relay_ip;
  ssh_host = or_keep p.ssh_host c.ssh_host;
  ssh_port = or_keep p.ssh_port c.ssh_port;
  ssh_user = or_keep p.ssh_user c.ssh_user;
  ssh_password = or_keep p.ssh_password c.ssh_password;
  ssh_key_path = or_keep p.ssh_key_path c.ssh_key_path;
}

-- What the two methods show of a row: neither the token nor the secrets.
abbrev pub shown_client : ClientRow → ClientRow
shown_client c = record c { ssh_password = []; token = []; secret_key = [] }

abbrev pub listed_client : ClientRow → ClientRow
listed_client c = record c {
  description = [];
  ssh_password = [];
  ssh_key_path = [];
  token = [];
  secret_key = [];
}

unfoldable pub listed_clients : List ClientRow → List ClientRow
listed_clients [] = []
listed_clients (c ∷ clients) = listed_client c ∷ listed_clients clients

unfoldable pub client_list_params : GetClientListParams → GetClientListParams
client_list_params p = record p {
  page = if ltb 0 p.page then p.page else 1;
  limit = if ltb 0 p.limit && not (ltb 100 p.limit) then p.limit else 20;
}

unfoldable pub client_page : GetClientListParams → Rows (List ClientRow × ℕ) → Reply ClientList
unfolding listed_clients
client_page p (no_rows e) = refuse_text (codes "failed to get client list: " ++ e)
client_page p (rows (clients, total)) = reply (record {
  clients = listed_clients clients;
  total = total;
  page = p.page;
  limit = p.limit;
  pages = (total + p.limit - 1) / p.limit;
})

-- The last step of a method that writes: its error, or the answer.
unfoldable pub answered : {S A : Type 0} → Bytes → A → S × Option Bytes → S × Reply A
answered failed answer (s, some e) = (s, refuse_text (failed ++ e))
answered failed answer (s, none) = (s, reply answer)
