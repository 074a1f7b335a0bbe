-- ===== src/Api/Rpc/Tests.antt =====
-- The dispatch over the registered methods, whose bodies count the calls.
use message_boy.Base.{
  ℕ, ◌+◌, refl, Option, none, some, [], Bytes, codes, if◌then◌else◌, bytes_eq, str_eq, is_empty,
}
use message_boy.Api.{Reply, reply}
use message_boy.Api.Rpc.{
  RpcRequest, RpcHandler, is_authenticated, handle, method_table, register_methods,
}
use message_boy.Api.Rpc.Guarding.{IsTurnedAway}
use message_boy.Api.Rpc.Public.{handle_public}

-- One token is valid.
abbrev validate : Bytes → Option Bytes
validate token = if str_eq token (codes "T") then some (codes "admin") else none

abbrev count_call : Bytes → ℕ → ℕ → ℕ × Reply ℕ
count_call name n s = (s + n, reply (s + n))

abbrev methods : RpcHandler ℕ ℕ ℕ
methods = register_methods count_call method_table []

abbrev request : RpcRequest ℕ
request = record {
  json_rpc = codes "2.0";
  method = codes "deleteClient";
  params = 1;
  id = codes "7";
}

handle_public_example :
    IsTurnedAway validate methods
      (codes "T2")
      5
      (handle validate methods (codes "T2") (some request) 5)
unfolding is_authenticated str_eq is_empty
handle_public_example = handle_public count_call validate (codes "T2") request 5 refl refl
