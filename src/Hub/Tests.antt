-- ===== src/Hub/Tests.antt =====
-- The relay server's theorems with two clients and one route between them.
use message_boy.Base.{
  ℕ, ◌+◌, ◌-◌, ◌<◌, ◌≡◌, ◌≢◌, refl, false, [], ◌∷◌, ◌++◌, some, arith, Bytes, codes, replicate,
  length-replicate, bytes_eq, nat_eq, lookup, insert, str_eq, str_eq_iff,
}
use message_boy.Wire.{
  TunnelMessage, bare_message, msg_type_data, msg_type_close, msg_type_conn_ack, calc_payload_size,
  payload_size, shape,
}
use message_boy.Wire.Pool.{BufferPool}
use message_boy.Wire.RoundTrip.{frame}
use message_boy.Hub.{Services, Server, WsClient, RouteInfo, resolved, send_msg_to_client}
use message_boy.Hub.Keys.{route_key, format_uint, digits}
use message_boy.Hub.Routing.{connect_prepared, handle_conn_ack, handle_data}
use message_boy.Hub.Lifecycle.{cleanup_routes_for_client}
use message_boy.Hub.Routes.{HasKey, IsKeyed, store-IsKeyed}
use message_boy.Hub.Teardown.{is_found_of, cleanup_routes_for_client_lem}
use message_boy.Hub.Delivery.{handle_data_delivers}
use message_boy.Hub.Counting.{on_named, disconnect_counts_twice}
use message_boy.Hub.Collision.{ack_goes_to_second}

abbrev pub zeros : BufferPool
zeros = record { get = λ n. replicate n 0; length-get = λ n. length-replicate n 0 }

-- Services that only count.
abbrev pub counting : Services
counting = record {
  Balancer = ℕ;
  Counter = ℕ;
  resolve_target = λ target client n. (n, resolved target []);
  increment_connections = λ node n. n + 1;
  decrement_connections = λ node n. n - 1;
  add_bytes_in = λ rule client bytes n. n;
  add_bytes_out = λ rule client bytes n. n;
  increment_conn = λ rule client n. n + 1;
  decrement_conn = λ rule client n. n - 1;
  pool = zeros;
}

abbrev pub alice : Bytes
alice = codes "alice"

abbrev pub bob : Bytes
bob = codes "bob"

abbrev pub carol : Bytes
carol = codes "carol"

abbrev pub client_of : Bytes → WsClient
client_of id = record { id = id; send_ch = []; closed = false; dropped_messages = 0 }

abbrev pub route_from : Bytes → RouteInfo
route_from source = record {
  source_client_id = source;
  target_client_id = bob;
  stream_id = 2;
  exit_addr = codes "web:80";
  node_id = codes "n1";
  rule_id = codes "r1";
}

abbrev pub route : RouteInfo
route = route_from alice

-- Both are connected, and no route is there yet.
abbrev pub idle : Server counting
idle = record {
  clients = (alice, 0) ∷ (bob, 1) ∷ [];
  conns = (0, client_of alice) ∷ (1, client_of bob) ∷ [];
  next_ref = 2;
  routes = [];
  load_balancer = some 0;
  traffic_counter = some 0;
  pending_port_checks = [];
  port_check_next_id = 0;
}

-- With the route.
abbrev pub linked : Server counting
linked = record idle {
  routes = insert (route_key bob 2) route (insert (route_key alice 2) route []);
}

abbrev pub hello : TunnelMessage
hello = record (bare_message msg_type_data 2) { payload = codes "hi" }

empty-IsKeyed : IsKeyed []
empty-IsKeyed = λ k r e. none_found k r e
  where
    none_found :
        (k : Bytes) (r : RouteInfo) → lookup k [] ≡ some r → HasKey k r × (r.stream_id < 4294967296)
    none_found k r e = unfold lookup in (absurd (cc e))

linked-IsKeyed : IsKeyed linked.routes
linked-IsKeyed = store-IsKeyed route [] (omega arith) empty-IsKeyed

linked_alice : lookup (route_key alice 2) linked.routes ≡ some route
unfolding lookup insert str_eq route_key format_uint digits
linked_alice = refl

-- Bob's queue has the frame after the data of alice.
handle_data_delivers_example :
    (lookup 1 (handle_data alice hello linked).conns
      ≡ some (record (client_of bob) { send_ch = [] ++ frame hello ∷ [] }))
    × ((q : ℕ) → q ≢ 1 → lookup q (handle_data alice hello linked).conns ≡ lookup q linked.conns)
unfolding calc_payload_size payload_size shape lookup insert str_eq
handle_data_delivers_example =
    handle_data_delivers alice hello linked route 1 (client_of bob) linked-IsKeyed (omega arith)
      linked_alice refl refl refl (omega arith) tt (omega arith)

-- A second route, of carol, is left when alice goes.
abbrev route_of_carol : RouteInfo
route_of_carol = record (route_from carol) { stream_id = 4 }

abbrev two_routes : Server counting
two_routes = record linked {
  routes =
      insert (route_key bob 4) route_of_carol
        (insert (route_key carol 4) route_of_carol linked.routes);
}

two_routes-IsKeyed : IsKeyed two_routes.routes
two_routes-IsKeyed = store-IsKeyed route_of_carol linked.routes (omega arith) linked-IsKeyed

cleanup_routes_for_client_lem_example :
    (lookup (route_key carol 4) (cleanup_routes_for_client alice two_routes).routes
      ≡ some route_of_carol)
    × (is_found_of alice
          (lookup (route_key carol 4) (cleanup_routes_for_client alice two_routes).routes)
        ≡ false)
unfolding lookup insert str_eq route_key format_uint digits
cleanup_routes_for_client_lem_example =
    cleanup_routes_for_client_lem alice (route_key carol 4) two_routes two_routes-IsKeyed

abbrev pub bye : TunnelMessage
bye = bare_message msg_type_close 2

alice_is_not : (id : Bytes) → str_eq alice id ≡ false → alice ≢ id
alice_is_not id h e = let same = (str_eq_iff alice id).1 e in absurd (cc)

disconnect_counts_twice_example :
    ((cleanup_routes_for_client alice (connect_prepared route idle)).load_balancer
      ≡ on_named route.node_id (counting.decrement_connections route.node_id) (
          on_named route.node_id
            (counting.decrement_connections route.node_id)
            (on_named route.node_id (counting.increment_connections route.node_id) (some 0))))
    × ((cleanup_routes_for_client alice (connect_prepared route idle)).traffic_counter
        ≡ on_named route.rule_id (counting.decrement_conn route.rule_id alice) (
            on_named route.rule_id
              (counting.decrement_conn route.rule_id alice)
              (on_named route.rule_id (counting.increment_conn route.rule_id alice) (some 0))))
unfolding str_eq
disconnect_counts_twice_example =
    disconnect_counts_twice route idle refl (omega arith) (alice_is_not bob refl)

ack_goes_to_second_example :
    (handle_conn_ack bob
        (bare_message msg_type_conn_ack 2)
        (connect_prepared (route_from carol) (connect_prepared route idle))
      ≡ (send_msg_to_client carol
          (bare_message msg_type_conn_ack 2)
          (connect_prepared (route_from carol) (connect_prepared route idle))).0)
    × (lookup
          (route_key alice 2)
          (connect_prepared (route_from carol) (connect_prepared route idle)).routes
        ≡ some route)
unfolding str_eq
ack_goes_to_second_example =
    ack_goes_to_second route (route_from carol) idle (bare_message msg_type_conn_ack 2)
      (omega arith) refl refl (alice_is_not carol refl) (alice_is_not bob refl) refl
