-- ===== src/Api/Forward/Complete.antt =====
-- internal/api/forward_rpc.go over the tables: which rules createForwardRule lets in, and what the other
-- methods make of them.
use message_boy.Base.{
  ◌+◌, ◌≡◌, ◌⊎◌, inl, inr, refl, ap, arith, true, false, Bool-cases, [], ◌∷◌, ◌++◌, Option, none,
  some, Bytes, codes, str_eq, is_empty,
}
use message_boy.Storage.{ForwardRule, ClientRow, forward_type_direct, forward_type_relay}
use message_boy.Storage.Clients
use message_boy.Storage.Forwards
use message_boy.Hub.{Services, notify_rule_update}
use message_boy.Api.{Reply, reply, refuse, need}
use message_boy.Api.Site.{Site, Outside, site_backend, to_found}
use message_boy.Api.Forward.{
  CreateForwardRuleParams, CreatedRule, new_rule, is_no_list, typed_rule, create_typed,
  create_verified, create_forward_rule,
}

-- A rule of one of the two types, with all that its type needs.
abbrev pub HasRoute : ForwardRule → Type 0
HasRoute r =
    ((str_eq r.type forward_type_direct ≡ true) × (is_empty r.target_addr ≡ false))
    ⊎ ((str_eq r.type forward_type_relay ≡ true)
        × (is_no_list r.relay_chain ≡ false)
        × (is_empty r.exit_addr ≡ false))

pub record IsComplete (r : ForwardRule) : Type 0 where
  pub named : is_empty r.name ≡ false
  pub listens : is_empty r.listen_addr ≡ false
  pub assigned : is_empty r.listen_client ≡ false
  pub routed : HasRoute r

typed_rule-HasRoute :
    (p : CreateForwardRuleParams) (r : ForwardRule) {r' : ForwardRule}
    → r.type ≡ p.type
    → typed_rule p r ≡ reply r'
    → HasRoute r'
unfolding typed_rule
typed_rule-HasRoute p r same e = elim (Bool-cases (str_eq p.type (codes "direct"))) [
  | inl direct ↦ elim (Bool-cases (is_empty p.target_addr)) [
    | inl empty ↦ absurd (ground arith)
    | inr full ↦ inl (ground arith, ground arith)
  ]
  | inr other ↦ elim (Bool-cases (str_eq p.type (codes "relay"))) [
    | inl relay ↦ elim (Bool-cases (is_no_list p.relay_chain)) [
      | inl empty ↦ absurd (ground arith)
      | inr full ↦ elim (Bool-cases (is_empty p.exit_addr)) [
        | inl empty ↦ absurd (ground arith)
        | inr set ↦ inr (ground arith, ground arith, ground arith)
      ]
    ]
    | inr unknown ↦ absurd (ground arith)
  ]
]

typed_rule-keeps :
    (p : CreateForwardRuleParams) (r : ForwardRule) {r' : ForwardRule}
    → typed_rule p r ≡ reply r'
    → (r'.name ≡ r.name)
      × (r'.listen_addr ≡ r.listen_addr)
      × (r'.listen_client ≡ r.listen_client)
      × (r'.enabled ≡ r.enabled)
unfolding typed_rule
typed_rule-keeps p r e = ground arith

module _ {svc : Services} (out : Outside svc) where
  -- The outcome of a creation.
  abbrev pub Creates : Site svc → Site svc × Reply CreatedRule → Type 0
  Creates s (s', refuse e) = (s'.rules ≡ s.rules) × (s'.server ≡ s.server)
  Creates s (s', reply answer) =
      (r : ForwardRule) × (s'.rules ≡ s.rules ++ r ∷ [])
      × (answer ≡ (r.id, r.name, r.type))
      × IsComplete r
      × (r.enabled ≡ true)
      × ((c : ClientRow) × (Clients.get_by_id r.listen_client s.clients ≡ some c))
      × (s'.server ≡ (notify_rule_update r.listen_client s.server).0)

  create_typed-Creates :
      (p : CreateForwardRuleParams) (id : Bytes) (o : Reply ForwardRule) (c : ClientRow)
      (s s' : Site svc)
      → is_empty p.name ≡ false
      → is_empty p.listen_addr ≡ false
      → is_empty p.listen_client ≡ false
      → typed_rule p (new_rule id p) ≡ o
      → Clients.get_by_id p.listen_client s.clients ≡ some c
      → (s'.rules ≡ s.rules) × (s'.server ≡ s.server)
      → Creates s (create_typed (site_backend out) p o s')
  unfolding create_typed new_rule Forwards.create
  create_typed-Creates p id (refuse e) c s s' named listens assigned typed known same = same
  create_typed-Creates p id (reply r) c s s' named listens assigned typed known same =
      let (name, addr, client, enabled) = typed_rule-keeps p (new_rule id p) typed in
      (
        r,
        ground arith,
        refl,
        record {
          named = ground arith;
          listens = ground arith;
          assigned = ground arith;
          routed = typed_rule-HasRoute p (new_rule id p) refl typed;
        },
        enabled,
        (c, rw client known),
        rw client (ap (λ t. (notify_rule_update p.listen_client t).0) same.1),
      )

  create_verified-Creates :
      (p : CreateForwardRuleParams) (o : Option ClientRow) (s : Site svc)
      → is_empty p.name ≡ false
      → is_empty p.listen_addr ≡ false
      → is_empty p.listen_client ≡ false
      → Clients.get_by_id p.listen_client s.clients ≡ o
      → Creates s (
          create_verified
            (site_backend out)
            p
            (need
              (codes "listen_client not found")
              (codes "failed to verify client: ")
              (to_found o))
            s)
  unfolding create_verified
  create_verified-Creates p none s named listens assigned known = (refl, refl)
  create_verified-Creates p (some c) s named listens assigned known =
      create_typed-Creates p (out.uuid s.drawn) _ c s (record s { drawn = s.drawn + 1 }) named
        listens assigned refl known (refl, refl)

  -- Whatever the parameters, createForwardRule either refuses and changes nothing, or it appends one
  -- enabled rule, answers with the rule's id, name and type, and tells the rule's client. The rule has
  -- a name and an address, its client exists, and it has what its type needs: a target, or a chain and
  -- an exit.
  pub create_forward_rule_lem :
      (p : Option CreateForwardRuleParams) (s : Site svc)
      → Creates s (create_forward_rule (site_backend out) p s)
  unfolding create_forward_rule
  create_forward_rule_lem none s = (refl, refl)
  create_forward_rule_lem (some p) s = elim (Bool-cases (is_empty p.name)) [
    | inl bare ↦ rw bare (refl, refl)
    | inr named ↦ elim (Bool-cases (is_empty p.type)) [
      | inl bare ↦ rw (named, bare) (refl, refl)
      | inr typed ↦ elim (Bool-cases (is_empty p.listen_addr)) [
        | inl bare ↦ rw (named, typed, bare) (refl, refl)
        | inr listens ↦ elim (Bool-cases (is_empty p.listen_client)) [
          | inl bare ↦ rw (named, typed, listens, bare) (refl, refl)
          | inr assigned ↦
              rw (named, typed, listens, assigned)
                (create_verified-Creates p _ s named listens assigned refl)
        ]
      ]
    ]
  ]
