-- ===== src/Proxy/Resolving.antt =====
-- load_balancer.go: whom ResolveTarget chooses.
use mathlib.Core.Path.{subst}
use message_boy.Base.{
  ◌≡◌, ◌⊎◌, refl, ap, drop, inl, inr, true, false, List, [], ◌∷◌, Option, none, some, Bytes,
  Bool-cases,
}
use message_boy.Proxy.{ProxyGroup, ProxyGroupNode, ProxyGroupReader}
use message_boy.Proxy.Balancer.{
  err_no_healthy_nodes, err_group_not_found, Selection, selected, refused, index_panic,
  LoadBalancer, select_node, select_node_by_group_name, Target, target_of, no_target, to_target,
  or_by_name, resolve_target, is_group_reference, parse_group_reference,
}
use message_boy.Proxy.Selecting.{IsSelection, IsIntn, IsSmall, select_node-IsSelection}

module _ {reader : ProxyGroupReader} where
  -- What ResolveTarget owes: a plain target is its own client; a group reference is a group's id, or
  -- the name of a group where no group has it as id.
  abbrev pub IsResolution :
      LoadBalancer reader → Bytes → Option ProxyGroup → Option ProxyGroup → Target → Type 0
  IsResolution lb ref (some g) named t =
      (sel : Selection) × IsSelection (some g) (reader.get_healthy_nodes_by_group_id ref lb.store)
        sel
      × (t ≡ to_target sel)
  IsResolution lb ref none none t = t ≡ no_target err_group_not_found
  IsResolution lb ref none (some g) t =
      (sel : Selection) × IsSelection (reader.get_by_id g.id lb.store)
        (reader.get_healthy_nodes_by_group_id g.id lb.store) sel
      × (t ≡ to_target sel)

  or_by_name_kept :
      (ref client_ip : Bytes) (g : ProxyGroup) (nodes : Option (List ProxyGroupNode))
      (x : LoadBalancer reader × Selection)
      → IsSelection (some g) nodes x.1
      → (or_by_name ref client_ip x).1 ≡ x.1
  unfolding or_by_name
  or_by_name_kept ref client_ip g nodes (l, selected node) h = refl
  or_by_name_kept ref client_ip g nodes (l, refused err_no_healthy_nodes) h = refl
  or_by_name_kept ref client_ip g nodes (l, index_panic) h = refl
  or_by_name_kept ref client_ip g none (l, refused err_group_not_found) h = absurd (cc)
  or_by_name_kept ref client_ip g (some []) (l, refused err_group_not_found) h = absurd (cc)
  or_by_name_kept ref client_ip g (some (node ∷ rest)) (l, refused err_group_not_found) h =
      let (node, wrong, at) = h in absurd (cc)

  select_node_missing :
      (ref client_ip : Bytes) (lb : LoadBalancer reader)
      → reader.get_by_id ref lb.store ≡ none
      → select_node ref client_ip lb ≡ (lb, refused err_group_not_found)
  unfolding select_node
  select_node_missing ref client_ip lb e = rw (e, select_node) refl

  resolve_target_group :
      (target client_ip : Bytes) (lb : LoadBalancer reader)
      → is_group_reference target ≡ true
      → (resolve_target target client_ip lb).1
        ≡ to_target
            (or_by_name (drop 1 target) client_ip (select_node (drop 1 target) client_ip lb)).1
  unfolding resolve_target parse_group_reference
  resolve_target_group target client_ip lb e = rw (e, resolve_target, parse_group_reference) refl

  by_name-IsResolution :
      (ref client_ip : Bytes) (lb : LoadBalancer reader)
      → IsIntn reader
      → IsSmall reader lb.store
      → IsResolution lb ref none
          (reader.get_by_name ref lb.store)
          (to_target (select_node_by_group_name ref client_ip lb).1)
  unfolding select_node_by_group_name to_target
  by_name-IsResolution ref client_ip lb h small = go _ refl
    where
      go :
          (o : Option ProxyGroup)
          → reader.get_by_name ref lb.store ≡ o
          → IsResolution lb ref none o (to_target (select_node_by_group_name ref client_ip lb).1)
      go none e = rw (e, select_node_by_group_name) refl
      go (some g) e =
          rw (e, select_node_by_group_name)
            (
              (select_node g.id client_ip lb).1,
              select_node-IsSelection g.id client_ip lb h small,
              refl,
            )

  reference-IsResolution :
      (ref client_ip : Bytes) (lb : LoadBalancer reader) (o : Option ProxyGroup)
      → IsIntn reader
      → IsSmall reader lb.store
      → reader.get_by_id ref lb.store ≡ o
      → IsResolution lb ref o
          (reader.get_by_name ref lb.store)
          (to_target (or_by_name ref client_ip (select_node ref client_ip lb)).1)
  unfolding or_by_name
  reference-IsResolution ref client_ip lb none h small e =
      rw (select_node_missing ref client_ip lb e) (by_name-IsResolution ref client_ip lb h small)
  reference-IsResolution ref client_ip lb (some g) h small e =
      let chosen : IsSelection (some g) (reader.get_healthy_nodes_by_group_id ref lb.store)
          (select_node ref client_ip lb).1 =
        subst
          (λ o.
            IsSelection o (reader.get_healthy_nodes_by_group_id ref lb.store)
              (select_node ref client_ip lb).1)
          e (select_node-IsSelection ref client_ip lb h small) in
      (
        (select_node ref client_ip lb).1,
        chosen,
        ap to_target (
            or_by_name_kept ref client_ip g (reader.get_healthy_nodes_by_group_id ref lb.store)
              (select_node ref client_ip lb) chosen),
      )

  -- A target that is no group reference is returned as the client itself. A group reference is the
  -- id of a group, or else a group's name: the answer is the client and the id of a healthy node
  -- of that group, or the error that says that the group has none or that there is no such group. It
  -- never panics, given the contract of `rand.Intn` and fewer than 2^32 healthy nodes in each group of
  -- the store at hand.
  pub resolve_target_lem :
      (target client_ip : Bytes) (lb : LoadBalancer reader)
      → IsIntn reader
      → IsSmall reader lb.store
      → ((is_group_reference target ≡ false)
          × (resolve_target target client_ip lb ≡ (lb, target_of target [])))
        ⊎ ((is_group_reference target ≡ true)
            × IsResolution lb
                (drop 1 target)
                (reader.get_by_id (drop 1 target) lb.store)
                (reader.get_by_name (drop 1 target) lb.store)
                (resolve_target target client_ip lb).1)
  unfolding resolve_target
  resolve_target_lem target client_ip lb h small = elim (Bool-cases (is_group_reference target)) [
    | inr plain ↦ inl (plain, rw (plain, resolve_target) refl)
    | inl group ↦ inr (
      group,
      rw (resolve_target_group target client_ip lb group) (
          reference-IsResolution (drop 1 target) client_ip lb
            (reader.get_by_id (drop 1 target) lb.store) h small refl),
    )
  ]
