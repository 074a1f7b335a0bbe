-- ===== src/Api/Forward/Careful.antt =====
-- internal/api/forward_rpc.go: the row that an update writes is complete, if no parameter blanks a field.
use message_boy.Base.{
  ◌≡◌, inl, inr, false, List, [], ◌∷◌, Option, none, some, Bytes, if_case, str_eq, is_empty, All,
}
use message_boy.Storage.{ForwardRule}
use message_boy.Storage.Forwards
use message_boy.Storage.Forwards.{with_status}
use message_boy.Api.Forward.{UpdateForwardRuleParams, is_no_list, with_params, or_keep}
use message_boy.Api.Forward.Complete.{IsComplete}

abbrev pub Complete : Forwards.Rules → Type 0
Complete rules = All IsComplete rules

pub update-Complete :
    (r : ForwardRule) (rules : Forwards.Rules)
    → IsComplete r
    → Complete rules
    → Complete (Forwards.update r rules)
unfolding Forwards.update
update-Complete r [] hr h = (hr, tt)
update-Complete r (x ∷ rules) hr h =
    if_case Complete (str_eq x.id r.id) _ _ (hr, h.1) (h.0, update-Complete r rules hr h.1)

-- A parameter that is sent is not empty.
abbrev NotBlank : Option Bytes → Type 0
NotBlank none = Unit
NotBlank (some text) = is_empty text ≡ false

abbrev NotBlankList : Option (List Bytes) → Type 0
NotBlankList none = Unit
NotBlankList (some items) = is_no_list items ≡ false

pub record IsCareful (p : UpdateForwardRuleParams) : Type 0 where
  pub name : NotBlank p.name
  pub listen_addr : NotBlank p.listen_addr
  pub listen_client : NotBlank p.listen_client
  pub target_addr : NotBlank p.target_addr
  pub relay_chain : NotBlankList p.relay_chain
  pub exit_addr : NotBlank p.exit_addr

or_keep-filled :
    (o : Option Bytes) (a : Bytes)
    → NotBlank o
    → is_empty a ≡ false
    → is_empty (or_keep o a) ≡ false
or_keep-filled none a h e = e
or_keep-filled (some b) a h e = h

or_keep-filled_list :
    (o : Option (List Bytes)) (a : List Bytes)
    → NotBlankList o
    → is_no_list a ≡ false
    → is_no_list (or_keep o a) ≡ false
or_keep-filled_list none a h e = e
or_keep-filled_list (some b) a h e = h

pub with_params-IsComplete :
    (p : UpdateForwardRuleParams) (r : ForwardRule)
    → IsCareful p
    → IsComplete r
    → IsComplete (with_params p r)
unfolding with_params
with_params-IsComplete p r care h = record {
  named = or_keep-filled p.name r.name care.name h.named;
  listens = or_keep-filled p.listen_addr r.listen_addr care.listen_addr h.listens;
  assigned = or_keep-filled p.listen_client r.listen_client care.listen_client h.assigned;
  routed = elim h.routed [
    | inl (direct, target) ↦
        inl (direct, or_keep-filled p.target_addr r.target_addr care.target_addr target)
    | inr (relay, chain, exit) ↦ inr (
      relay,
      or_keep-filled_list p.relay_chain r.relay_chain care.relay_chain chain,
      or_keep-filled p.exit_addr r.exit_addr care.exit_addr exit,
    )
  ];
}
