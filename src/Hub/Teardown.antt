-- ===== src/Hub/Teardown.antt =====
-- ws_server.go, cleanupRoutesForClient: which routes are left when a client has gone.
use mathlib.Core.Path.{subst}
use message_boy.Base.{
  ℕ, ◌≡◌, ◌⊎◌, inl, inr, refl, ap, ◌∙◌, ◌||◌, ◌&&◌, Bool, Option, true, false, List, [], ◌∷◌, none,
  some, arith, Bytes, if◌then◌else◌, Map, bytes_eq, lookup, lookup-delete, str_eq, str_eq_refl,
  Bool-cases, if_case,
}
use message_boy.Hub.{Services, Server, RouteInfo}
use message_boy.Hub.Keys.{route_key}
use message_boy.Hub.Routing.{cleanup_route}
use message_boy.Hub.Lifecycle.{
  mentions, to_cleanup, cleanup_all, cleanup_routes_for_client, forget_client, disconnect,
  close_ref,
}
use message_boy.Hub.Routes.{HasKey, IsKeyed, routes-cleanup_route, cleanup_route-IsKeyed}

abbrev pub Contains : RouteInfo → List RouteInfo → Type 0
Contains route [] = ⊥
Contains route (x ∷ l) = (route ≡ x) ⊎ Contains route l

lookup_head :
    (k j : Bytes) (x route : RouteInfo) (rest : Map Bytes RouteInfo)
    → lookup k ((j, x) ∷ rest) ≡ some route
    → (route ≡ x) ⊎ (lookup k rest ≡ some route)
unfolding lookup
lookup_head k j x route rest h = elim (Bool-cases (str_eq j k)) [
  | inl hit ↦ inl (ground (arith, hit))
  | inr miss ↦ inr (ground (arith, miss))
]

to_cleanup-Contains :
    (id k : Bytes) (routes : Map Bytes RouteInfo) (route : RouteInfo)
    → lookup k routes ≡ some route
    → mentions id route ≡ true
    → Contains route (to_cleanup id routes)
unfolding to_cleanup
to_cleanup-Contains id k [] route h hm = unfold lookup in (absurd (cc h))
to_cleanup-Contains id k ((j, x) ∷ rest) route h hm = elim (lookup_head k j x route rest h) [
  | inl e ↦
      let here : mentions id x ≡ true = subst (λ r. mentions id r ≡ true) e hm in rw here (inl e)
  | inr later ↦
      if_case (Contains route) (mentions id x) _ _
        (inr (to_cleanup-Contains id k rest route later hm))
        (to_cleanup-Contains id k rest route later hm)
]

abbrev pub is_end : Bytes → RouteInfo → Bool
is_end k x =
    str_eq (route_key x.target_client_id x.stream_id) k
    || str_eq (route_key x.source_client_id x.stream_id) k

-- Some route of the client in the table has the key as an end.
abbrev pub is_touched : Bytes → Bytes → Map Bytes RouteInfo → Bool
is_touched id k [] = false
is_touched id k ((j, x) ∷ rest) = (mentions id x && is_end k x) || is_touched id k rest

abbrev has_end : Bytes → List RouteInfo → Bool
has_end k [] = false
has_end k (x ∷ l) = is_end k x || has_end k l

has_end-to_cleanup :
    (id k : Bytes) (routes : Map Bytes RouteInfo)
    → has_end k (to_cleanup id routes) ≡ is_touched id k routes
unfolding to_cleanup
has_end-to_cleanup id k [] = refl
has_end-to_cleanup id k ((j, x) ∷ rest) =
    let later = has_end-to_cleanup id k rest in ground (arith, later)

-- The client is an end of the route that was found.
abbrev pub is_found_of : Bytes → Option RouteInfo → Bool
is_found_of id none = false
is_found_of id (some route) = mentions id route

module _ {svc : Services} where
  lookup-cleanup_route :
      (route : RouteInfo) (k : Bytes) (s : Server svc)
      → lookup k (cleanup_route route s).routes ≡ (
          if str_eq (route_key route.target_client_id route.stream_id) k
          then none
          else if str_eq (route_key route.source_client_id route.stream_id) k
          then none
          else lookup k s.routes)
  lookup-cleanup_route route k s = rw (routes-cleanup_route route s, lookup-delete, lookup-delete)

  pub cleanup_route_gone :
      (route : RouteInfo) (k : Bytes) (s : Server svc)
      → HasKey k route
      → lookup k (cleanup_route route s).routes ≡ none
  cleanup_route_gone route k s (inl e) =
      rw (lookup-cleanup_route route k s, e)
        (ground (arith, str_eq_refl (route_key route.source_client_id route.stream_id)))
  cleanup_route_gone route k s (inr e) =
      rw (lookup-cleanup_route route k s, e)
        (ground (arith, str_eq_refl (route_key route.target_client_id route.stream_id)))

  -- A key without a route gets none.
  cleanup_all-none :
      (l : List RouteInfo) (k : Bytes) (s : Server svc)
      → lookup k s.routes ≡ none
      → lookup k (cleanup_all l s).routes ≡ none
  unfolding cleanup_all
  cleanup_all-none [] k s h = h
  cleanup_all-none (x ∷ l) k s h =
      cleanup_all-none l k (cleanup_route x s) (ground (arith, lookup-cleanup_route x k s))

  cleanup_all_gone :
      (l : List RouteInfo) (route : RouteInfo) (k : Bytes) (s : Server svc)
      → Contains route l
      → HasKey k route
      → lookup k (cleanup_all l s).routes ≡ none
  unfolding cleanup_all
  cleanup_all_gone [] route k s h hk = absurd h
  cleanup_all_gone (x ∷ l) route k s (inl e) hk =
      cleanup_all-none l k (cleanup_route x s) (cleanup_route_gone x k s (subst (HasKey k) e hk))
  cleanup_all_gone (x ∷ l) route k s (inr h) hk =
      cleanup_all_gone l route k (cleanup_route x s) h hk

  -- Nothing appears.
  cleanup_all_kept :
      (l : List RouteInfo) (route : RouteInfo) (k : Bytes) (s : Server svc)
      → lookup k (cleanup_all l s).routes ≡ some route
      → lookup k s.routes ≡ some route
  unfolding cleanup_all
  cleanup_all_kept [] route k s h = h
  cleanup_all_kept (x ∷ l) route k s h =
      ground (arith, lookup-cleanup_route x k s, cleanup_all_kept l route k (cleanup_route x s) h)

  -- What is left leads where it led before, and to a route without the client.
  left_over :
      (id k : Bytes) (s : Server svc) (route : RouteInfo)
      → IsKeyed s.routes
      → lookup k (cleanup_routes_for_client id s).routes ≡ some route
      → (mentions id route ≡ false) × (lookup k s.routes ≡ some route)
  unfolding cleanup_routes_for_client
  left_over id k s route v h =
      let before = cleanup_all_kept (to_cleanup id s.routes) route k s h in
      elim (Bool-cases (mentions id route)) [
        | inr e ↦ (e, before)
        | inl e ↦
            let gone =
              cleanup_all_gone (to_cleanup id s.routes) route k s
                (to_cleanup-Contains id k s.routes route before e) (v k route before).0 in
            absurd (ground (arith, gone))
      ]

  lookup-cleanup_all :
      (l : List RouteInfo) (k : Bytes) (s : Server svc)
      → lookup k (cleanup_all l s).routes ≡ (if has_end k l then none else lookup k s.routes)
  unfolding cleanup_all
  lookup-cleanup_all [] k s = refl
  lookup-cleanup_all (x ∷ l) k s =
      let later = lookup-cleanup_all l k (cleanup_route x s) in
      let now = lookup-cleanup_route x k s in ground (arith, later, now)

  -- The clean-up for a client empties exactly the keys that are an end of a route of that client, and
  -- leaves every other entry as it was; and then no key leads to a route with that client at either
  -- end. (An entry under an end of such a route goes by its key, whichever route it leads to.)
  pub cleanup_routes_for_client_lem :
      (id k : Bytes) (s : Server svc)
      → IsKeyed s.routes
      → (lookup k (cleanup_routes_for_client id s).routes
          ≡ (if is_touched id k s.routes then none else lookup k s.routes))
        × (is_found_of id (lookup k (cleanup_routes_for_client id s).routes) ≡ false)
  unfolding cleanup_routes_for_client
  cleanup_routes_for_client_lem id k s v = (
    lookup-cleanup_all (to_cleanup id s.routes) k s
        ∙ ap (λ b. if b then none else lookup k s.routes) (has_end-to_cleanup id k s.routes),
    found _ refl,
  )
    where
      found :
          (o : Option RouteInfo)
          → lookup k (cleanup_routes_for_client id s).routes ≡ o
          → is_found_of id o ≡ false
      found none e = refl
      found (some route) e = (left_over id k s route v e).0

  cleanup_all-IsKeyed :
      (l : List RouteInfo) (s : Server svc) → IsKeyed s.routes → IsKeyed (cleanup_all l s).routes
  unfolding cleanup_all
  cleanup_all-IsKeyed [] s v = v
  cleanup_all-IsKeyed (x ∷ l) s v =
      cleanup_all-IsKeyed l (cleanup_route x s) (cleanup_route-IsKeyed x s v)

  routes-forget_client :
      (id : Bytes) (r : ℕ) (s : Server svc) → (forget_client id r s).routes ≡ s.routes
  unfolding forget_client
  routes-forget_client id r s = ground arith

  pub disconnect-IsKeyed :
      (id : Bytes) (r : ℕ) (s : Server svc) → IsKeyed s.routes → IsKeyed (disconnect id r s).routes
  unfolding disconnect cleanup_routes_for_client
  disconnect-IsKeyed id r s v =
      let t : Server svc = forget_client id r (record s { conns = close_ref r s.conns }) in
      cleanup_all-IsKeyed (to_cleanup id t.routes) t
        (rw (routes-forget_client id r (record s { conns = close_ref r s.conns })) v)
