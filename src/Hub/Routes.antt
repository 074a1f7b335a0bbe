-- ===== src/Hub/Routes.antt =====
-- ws_server.go: the routing table's invariant, and the operations that write the table.
use message_boy.Base.{
  ℕ, ◌<◌, ◌≡◌, refl, ◌⊎◌, inl, inr, some, arith, Bytes, Map, bytes_eq, lookup, insert, delete,
  lookup-insert, lookup-delete, str_eq, str_eq_iff, Bool-cases,
}
use message_boy.Wire.{TunnelMessage}
use message_boy.Hub.{Services, Server, RouteInfo, send_msg_to_client, send_error}
use message_boy.Hub.Keys.{route_key}
use message_boy.Hub.Routing.{for_node, for_rule, connect_prepared, cleanup_route, store_route}

-- A route stands under the keys of its two ends only.
abbrev pub HasKey : Bytes → RouteInfo → Type 0
HasKey k route =
    (k ≡ route_key route.source_client_id route.stream_id)
    ⊎ (k ≡ route_key route.target_client_id route.stream_id)

abbrev pub IsKeyed : Map Bytes RouteInfo → Type 0
IsKeyed routes =
    (k : Bytes) (route : RouteInfo)
    → lookup k routes ≡ some route
    → HasKey k route × (route.stream_id < 4294967296)

insert-IsKeyed :
    (k : Bytes) (route : RouteInfo) (routes : Map Bytes RouteInfo)
    → HasKey k route
    → route.stream_id < 4294967296
    → IsKeyed routes
    → IsKeyed (insert k route routes)
insert-IsKeyed k route routes hk hs v j other h = elim (Bool-cases (str_eq k j)) [
  | inl same ↦
      let e : k ≡ j = (str_eq_iff k j).0 same in
      let r : route ≡ other = ground (arith, lookup-insert k j route routes, same) in
      rw (← r, ← e) (hk, hs)
  | inr differ ↦ v j other (ground (arith, lookup-insert k j route routes, differ))
]

pub delete-IsKeyed :
    (k : Bytes) (routes : Map Bytes RouteInfo) → IsKeyed routes → IsKeyed (delete k routes)
delete-IsKeyed k routes v j route h = v j route (ground (arith, lookup-delete k j routes))

pub store-IsKeyed :
    (route : RouteInfo) (routes : Map Bytes RouteInfo)
    → route.stream_id < 4294967296
    → IsKeyed routes
    → IsKeyed (
        insert
          (route_key route.target_client_id route.stream_id)
          route
          (insert (route_key route.source_client_id route.stream_id) route routes))
store-IsKeyed route routes hs v =
    insert-IsKeyed _ route _ (inr refl) hs (insert-IsKeyed _ route routes (inl refl) hs v)

module _ {svc : Services} where
  routes-for_node :
      (node : Bytes) (f : svc.Balancer → svc.Balancer) (s : Server svc)
      → (for_node node f s).routes ≡ s.routes
  unfolding for_node
  routes-for_node node f s = ground arith

  routes-for_rule :
      (rule : Bytes) (f : svc.Counter → svc.Counter) (s : Server svc)
      → (for_rule rule f s).routes ≡ s.routes
  unfolding for_rule
  routes-for_rule rule f s = ground arith

  pub routes-send :
      (id : Bytes) (m : TunnelMessage) (s : Server svc)
      → (send_msg_to_client id m s).0.routes ≡ s.routes
  unfolding send_msg_to_client
  routes-send id m s = refl

  pub routes-cleanup_route :
      (route : RouteInfo) (s : Server svc)
      → (cleanup_route route s).routes
        ≡ delete
            (route_key route.target_client_id route.stream_id)
            (delete (route_key route.source_client_id route.stream_id) s.routes)
  unfolding cleanup_route
  routes-cleanup_route route s = rw (routes-for_rule, routes-for_node)

  pub cleanup_route-IsKeyed :
      (route : RouteInfo) (s : Server svc)
      → IsKeyed s.routes
      → IsKeyed (cleanup_route route s).routes
  cleanup_route-IsKeyed route s v =
      rw (routes-cleanup_route route s) (delete-IsKeyed _ _ (delete-IsKeyed _ s.routes v))

  pub routes-connect_prepared :
      (route : RouteInfo) (s : Server svc)
      → (connect_prepared route s).routes
        ≡ insert
            (route_key route.target_client_id route.stream_id)
            route
            (insert (route_key route.source_client_id route.stream_id) route s.routes)
  unfolding connect_prepared store_route
  routes-connect_prepared route s = rw (routes-for_rule, routes-for_node)

  pub routes-send_error :
      (id : Bytes) (stream : ℕ) (text : Bytes) (s : Server svc)
      → (send_error id stream text s).routes ≡ s.routes
  unfolding send_error
  routes-send_error id stream text s = refl
