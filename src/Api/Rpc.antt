-- ===== src/Api/Rpc.antt =====
-- internal/api/rpc_handler.go, the methods of rpc_methods.go, and internal/middleware/auth.go. The check
-- of a token is a parameter: it answers the user of a token that is valid. A body that is no JSON is
-- `none`; that a result cannot be marshalled does not occur with the results of the methods.
pub mod Guarding
pub mod Public
mod Tests
use message_boy.Base.{
  ℕ, Bool, true, false, ◌&&◌, ◌||◌, not, List, [], ◌∷◌, ◌++◌, Option, none, some, Bytes, codes, ltb,
  if◌then◌else◌, length, take, drop, Map, bytes_eq, lookup, insert, str_eq, is_empty,
}
use message_boy.Api.{ApiError, message, Reply, reply, refuse, refuse_text}

-- The codes that the handler answers with.
pub data ErrCode : Type 0 where
  parse_error invalid_request method_not_found server_error auth_required : ErrCode

pub record RpcRequest (P : Type 0) : Type 0 where
  pub json_rpc : Bytes
  pub method : Bytes
  pub params : P
  pub id : Bytes

pub data RpcResponse (R : Type 0) : Type 0 where
  success : Bytes → R → RpcResponse R
  error : Bytes → ErrCode → ApiError → RpcResponse R

-- `RpcMethod`, on a state `S`.
pub record RpcMethod (S P R : Type 0) : Type 0 where
  pub name : Bytes
  pub require_auth : Bool
  pub execute : P → S → S × Reply R

abbrev pub json_rpc_version : Bytes
json_rpc_version = codes "2.0"

abbrev pub bearer_prefix : Bytes
bearer_prefix = codes "Bearer "

abbrev pub RpcHandler : Type 0 → Type 0 → Type 0 → Type 0
RpcHandler S P R = Map Bytes (RpcMethod S P R)

-- What the handler takes for the token of a header.
unfoldable pub token_of : Bytes → Bytes
token_of header =
    if ltb 7 (length header) && str_eq (take 7 header) bearer_prefix then drop 7 header else header

unfoldable pub is_authenticated : (Bytes → Option Bytes) → Bytes → Option Bytes
unfolding token_of
is_authenticated validate header = if is_empty header then none else validate (token_of header)

-- `AuthMiddleware`: the user that it lets through.
unfoldable pub auth_middleware : (Bytes → Option Bytes) → Bytes → Option Bytes
auth_middleware validate header =
    if is_empty header
    then none
    else if str_eq (take 7 header) bearer_prefix
    then validate (drop 7 header)
    else none

unfoldable pub executed : {S R : Type 0} → Bytes → S × Reply R → S × RpcResponse R
executed id (s, reply r) = (s, success id r)
executed id (s, refuse e) = (s, error id server_error e)

module _ {S P R : Type 0} where
  unfoldable pub register : RpcMethod S P R → RpcHandler S P R → RpcHandler S P R
  register m h = insert m.name m h

  -- A method that needs no user is run as it is, any other only for a user.
  unfoldable pub run_method :
      (Bytes → Option Bytes) → Bytes → RpcRequest P → RpcMethod S P R → S → S × RpcResponse R
  unfolding executed is_authenticated
  run_method validate header req m s =
      let answer = executed req.id (m.execute req.params s) in
      if m.require_auth
      then elim (is_authenticated validate header) [
        | none ↦ (s, error req.id auth_required (message (codes "authentication required")))
        | some user ↦ answer
      ]
      else answer

  unfoldable pub handle :
      (Bytes → Option Bytes)
      → RpcHandler S P R
      → Bytes
      → Option (RpcRequest P)
      → S
      → S × RpcResponse R
  unfolding run_method
  handle validate h header none s = (s, error [] parse_error (message (codes "invalid JSON")))
  handle validate h header (some req) s =
      if not (str_eq req.json_rpc json_rpc_version)
      then (s, error req.id invalid_request (message (codes "invalid JSON-RPC version")))
      else if is_empty req.method
      then (s, error req.id invalid_request (message (codes "method is required")))
      else elim (lookup req.method h) [
        | none ↦
            (s, error req.id method_not_found (message (codes "method not found: " ++ req.method)))
        | some m ↦ run_method validate header req m s
      ]

-- `adminLogin`: the answer is what `GenerateToken` makes for the name, or its failure.
unfoldable pub admin_login :
    {T : Type 0} → Bytes × Bytes → (Bytes → Option T) → Option (Bytes × Bytes) → Reply T
admin_login (user, password) generate none = refuse_text (codes "invalid params")
admin_login (user, password) generate (some (u, p)) =
    if is_empty u || is_empty p
    then refuse_text (codes "username and password are required")
    else if not (str_eq u user) || not (str_eq p password)
    then refuse_text (codes "invalid credentials")
    else elim (generate u) [
      | none ↦ refuse_text (codes "failed to generate token")
      | some token ↦ reply token
    ]

-- The methods that `registerRpcMethods` registers, in its order, with their `RequireAuth`.
abbrev pub method_table : List (Bytes × Bool)
method_table =
    (codes "ping", false)
    ∷ (codes "adminLogin", false)
    ∷ (codes "createClient", true)
    ∷ (codes "getClientList", true)
    ∷ (codes "getClient", true)
    ∷ (codes "updateClient", true)
    ∷ (codes "deleteClient", true)
    ∷ (codes "regenerateClientToken", true)
    ∷ (codes "getClientInstallCommand", true)
    ∷ (codes "clientRegister", false)
    ∷ (codes "clientHeartbeat", false)
    ∷ (codes "clientGetRules", false)
    ∷ (codes "clientReportTraffic", false)
    ∷ (codes "clientReportRuleStatus", false)
    ∷ (codes "createForwardRule", true)
    ∷ (codes "getForwardRuleList", true)
    ∷ (codes "getForwardRule", true)
    ∷ (codes "updateForwardRule", true)
    ∷ (codes "deleteForwardRule", true)
    ∷ (codes "toggleForwardRule", true)
    ∷ (codes "createProxyGroup", true)
    ∷ (codes "getProxyGroupList", true)
    ∷ (codes "getProxyGroup", true)
    ∷ (codes "updateProxyGroup", true)
    ∷ (codes "deleteProxyGroup", true)
    ∷ (codes "addProxyGroupNode", true)
    ∷ (codes "removeProxyGroupNode", true)
    ∷ (codes "updateProxyGroupNode", true)
    ∷ (codes "getTrafficSummary", true)
    ∷ (codes "getTotalTraffic", true)
    ∷ (codes "getTodayTraffic", true)
    ∷ (codes "getClientBandwidth", true)
    ∷ []

-- The handler with the methods of a table, whose bodies are given by name.
unfoldable pub register_methods :
    {S P R : Type 0}
    → (Bytes → P → S → S × Reply R)
    → List (Bytes × Bool)
    → RpcHandler S P R
    → RpcHandler S P R
unfolding register
register_methods bodies [] h = h
register_methods bodies ((name, auth) ∷ table) h =
    register_methods bodies table
      (register (record { name = name; require_auth = auth; execute = bodies name }) h)
