-- ===== src/Api/Forward.antt =====
-- internal/api/forward_rpc.go: the parameters of its methods, and createForwardRule.
pub mod Changing
pub mod Reading
pub mod Complete
pub mod Careful
pub mod Invariant
pub mod Overwriting
pub mod Naming
pub mod Paging
use message_boy.Base.{
  ℕ, zero, suc, ◌+◌, ◌-◌, ◌/◌, Bool, true, false, ◌&&◌, ◌||◌, not, List, [], ◌∷◌, ◌++◌, Option,
  none, some, Bytes, codes, ltb, if◌then◌else◌, length, Map, bytes_eq, lookup, insert, str_eq,
  is_empty,
}
use message_boy.Storage.{
  ForwardRule, ForwardListParams, ClientRow, forward_type_direct, forward_type_relay,
}
use message_boy.Api.{
  Found, found, missing, broken, Rows, rows, no_rows, ApiError, message, port_unavailable, Reply,
  reply, refuse, refuse_text, need, Backend,
}

pub record CreateForwardRuleParams : Type 0 where
  pub name : Bytes
  pub type : Bytes
  pub listen_addr : Bytes
  pub listen_client : Bytes
  pub target_addr : Bytes
  pub relay_chain : List Bytes
  pub exit_addr : Bytes

-- `none` is a parameter that was not sent.
pub record UpdateForwardRuleParams : Type 0 where
  pub id : Bytes
  pub name : Option Bytes
  pub listen_addr : Option Bytes
  pub listen_client : Option Bytes
  pub target_addr : Option Bytes
  pub relay_chain : Option (List Bytes)
  pub exit_addr : Option Bytes

-- A page or limit that is not positive is 0 here: the method treats them alike.
pub record GetForwardRuleListParams : Type 0 where
  pub page : ℕ
  pub limit : ℕ
  pub client_id : Bytes
  pub type : Bytes
  pub enabled : Option Bool

-- The id, the name and the type of a new rule.
abbrev pub CreatedRule : Type 0
CreatedRule = Bytes × Bytes × Bytes

-- A row of the answer: the rule, and the name of its client.
pub record ListedRule : Type 0 where
  pub rule : ForwardRule
  pub listen_client_name : Bytes

pub record RuleList : Type 0 where
  pub rules : List ListedRule
  pub total : ℕ
  pub page : ℕ
  pub limit : ℕ
  pub pages : ℕ

-- What the answers show of a rule: the target of a direct rule, the chain and the exit of others.
abbrev pub shown : ForwardRule → ForwardRule
shown r =
    if str_eq r.type forward_type_direct
    then record r { relay_chain = []; exit_addr = [] }
    else record r { target_addr = [] }

-- The rule up to what its type asks for.
unfoldable pub new_rule : Bytes → CreateForwardRuleParams → ForwardRule
new_rule id p = record {
  id = id;
  name = p.name;
  type = p.type;
  enabled = true;
  listen_addr = p.listen_addr;
  listen_client = p.listen_client;
  target_addr = [];
  relay_chain = [];
  exit_addr = [];
  status = [];
  last_error = [];
}

unfoldable pub is_no_list : List Bytes → Bool
is_no_list [] = true
is_no_list (x ∷ xs) = false

-- The branch on the type.
unfoldable pub typed_rule : CreateForwardRuleParams → ForwardRule → Reply ForwardRule
unfolding is_no_list
typed_rule p r =
    if str_eq p.type (codes "direct")
    then if is_empty p.target_addr
      then refuse_text (codes "target_addr is required for direct type")
      else reply (record r { target_addr = p.target_addr })
    else if str_eq p.type (codes "relay")
    then if is_no_list p.relay_chain
      then refuse_text (codes "relay_chain is required for relay type")
      else if is_empty p.exit_addr
      then refuse_text (codes "exit_addr is required for relay type")
      else reply (record r { relay_chain = p.relay_chain; exit_addr = p.exit_addr })
    else refuse_text (codes "invalid type, must be 'direct' or 'relay'")

-- The parameter if it was sent.
abbrev pub or_keep {ℓ} : {A : Type ℓ} → Option A → A → A
or_keep none a = a
or_keep (some b) a = b

unfoldable pub with_params : UpdateForwardRuleParams → ForwardRule → ForwardRule
with_params p r = record r {
  name = or_keep p.name r.name;
  listen_addr = or_keep p.listen_addr r.listen_addr;
  listen_client = or_keep p.listen_client r.listen_client;
  target_addr = or_keep p.target_addr r.target_addr;
  relay_chain = or_keep p.relay_chain r.relay_chain;
  exit_addr = or_keep p.exit_addr r.exit_addr;
}

abbrev pub listens_elsewhere : ForwardRule → ForwardRule → Bool
listens_elsewhere old new =
    not (str_eq new.listen_addr old.listen_addr) || not (str_eq new.listen_client old.listen_client)

unfoldable pub list_params : GetForwardRuleListParams → ForwardListParams
list_params p = record {
  page = if ltb 0 p.page then p.page else 1;
  limit = if ltb 0 p.limit && not (ltb 100 p.limit) then p.limit else 20;
  client_id = p.client_id;
  type = p.type;
  enabled = p.enabled;
}

module _ (b : Backend) where
  unfoldable pub notify : Bytes → b.State → b.State
  notify client s = if b.has_ws_server then (b.notify_rule_update client s).0 else s

  -- The last steps of a method that writes: its error, or the notifications and the answer.
  unfoldable pub written :
      {A : Type 0} → Bytes → (b.State → b.State) → A → b.State × Option Bytes → b.State × Reply A
  written failed then_notify answer (s, some e) = (s, refuse_text (failed ++ e))
  written failed then_notify answer (s, none) = (then_notify s, reply answer)

  unfoldable pub create_typed :
      CreateForwardRuleParams → Reply ForwardRule → b.State → b.State × Reply CreatedRule
  unfolding notify written
  create_typed p (refuse e) s = (s, refuse e)
  create_typed p (reply r) s =
      written (codes "failed to create rule: ") (notify p.listen_client) (r.id, r.name, r.type)
        (b.create_rule r s)

  unfoldable pub create_verified :
      CreateForwardRuleParams → Reply ClientRow → b.State → b.State × Reply CreatedRule
  unfolding create_typed typed_rule new_rule
  create_verified p (refuse e) s = (s, refuse e)
  create_verified p (reply c) s =
      let (s', id) = b.new_id s in create_typed p (typed_rule p (new_rule id p)) s'

  unfoldable pub create_forward_rule :
      Option CreateForwardRuleParams → b.State → b.State × Reply CreatedRule
  unfolding create_verified
  create_forward_rule none s = (s, refuse_text (codes "invalid params"))
  create_forward_rule (some p) s =
      if is_empty p.name
      then (s, refuse_text (codes "name is required"))
      else if is_empty p.type
      then (s, refuse_text (codes "type is required"))
      else if is_empty p.listen_addr
      then (s, refuse_text (codes "listen_addr is required"))
      else if is_empty p.listen_client
      then (s, refuse_text (codes "listen_client is required"))
      else create_verified p
          (need (codes "listen_client not found") (codes "failed to verify client: ")
            (b.client_by_id p.listen_client s))
          s
