-- ===== src/Wiring/Tests.antt =====
-- The wired server, with one route of alice's.
use mathlib.Core.Option
use message_boy.Base.{
  ℕ, refl, Bool, List, [], ◌∷◌, ◌++◌, Bytes, drop, none, some, arith, codes, replicate,
  length-replicate, bytes_eq,
}
use message_boy.Wire.{TunnelMessage}
use message_boy.Conn.Sealing.{Cipher}
use message_boy.Tunnel.Forwarding.{ws_send}
use message_boy.Wire.Pool.{BufferPool}
use message_boy.Hub.{Server, RouteInfo}
use message_boy.Hub.Keys.{route_key}
use message_boy.Wiring.{relay_services}

abbrev pool : BufferPool
pool = record { get = λ n. replicate n 0; length-get = λ n. length-replicate n 0 }

abbrev intn : ℕ → ℕ → ℕ × ℕ
intn n seed = (seed, 0)

abbrev route : RouteInfo
route = record {
  source_client_id = codes "alice";
  target_client_id = codes "bob";
  stream_id = 2;
  exit_addr = codes "web:80";
  node_id = [];
  rule_id = codes "r1";
}

abbrev server : Server (relay_services pool intn)
server = record {
  clients = [];
  conns = [];
  next_ref = 0;
  routes = (route_key (codes "alice") 2, route) ∷ [];
  load_balancer = none;
  traffic_counter = some [];
  pending_port_checks = [];
  port_check_next_id = 0;
}

-- Tags of zeros in front of the text.
abbrev plain : Cipher
plain = record {
  seal = λ nonce text. replicate 16 0 ++ text;
  unseal = λ nonce text. some (drop 16 text);
  length-seal = λ nonce text. omega arith;
  unseal-seal = λ nonce text. refl;
}

abbrev nonce : Bytes
nonce = replicate 12 7

abbrev send : TunnelMessage → List Bytes → List Bytes × Bool
send = ws_send plain pool (λ i. nonce)
