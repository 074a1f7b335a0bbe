-- ===== src/Api/Forward/Overwriting.antt =====
-- internal/api/forward_rpc.go: what updateForwardRule overwrites.
use message_boy.Base.{
  ◌≡◌, inl, inr, refl, ap, ◌∙◌, sym, arith, true, false, Bool-cases, [], ◌∷◌, Option, none, some,
  Bytes, codes, str_eq, str_eq_refl, str_eq_iff, is_empty, find, find_sound,
}
use message_boy.Storage.{ForwardRule, forward_type_direct}
use message_boy.Storage.Forwards
use message_boy.Hub.{Services}
use message_boy.Api.{reply}
use message_boy.Api.Site.{Site, Outside, site_backend}
use message_boy.Api.Forward.{UpdateForwardRuleParams, with_params, or_keep, listens_elsewhere}
use message_boy.Api.Forward.Changing.{
  notify_update, save_update, save_if_available, update_checked, verify_client, update_found,
  update_forward_rule,
}
use message_boy.Api.Forward.Complete.{HasRoute}

get_by_id-update :
    (r : ForwardRule) (rules : Forwards.Rules)
    → Forwards.get_by_id r.id (Forwards.update r rules) ≡ some r
unfolding Forwards.get_by_id Forwards.update find
get_by_id-update r [] = rw (str_eq_refl r.id) refl
get_by_id-update r (x ∷ rules) = elim (Bool-cases (str_eq x.id r.id)) [
  | inl same ↦ rw (same, str_eq_refl r.id) refl
  | inr other ↦ rw (other, other) (get_by_id-update r rules)
]

module _ {svc : Services} (out : Outside svc) where
  -- The row that an update leaves where its client stays.
  save_update_same_client :
      (old new : ForwardRule) (s : Site svc)
      → old.listen_client ≡ new.listen_client
      → ((save_update (site_backend out) old new s).1 ≡ reply tt)
        × (Forwards.get_by_id new.id (save_update (site_backend out) old new s).0.rules ≡ some new)
  unfolding save_update notify_update
  save_update_same_client old new s same =
      let eq : str_eq old.listen_client new.listen_client ≡ true =
        (str_eq_iff old.listen_client new.listen_client).1 same in
      (refl, rw eq (get_by_id-update new s.rules))

  verify_none :
      (o : Option Bytes) (new : ForwardRule) (s : Site svc)
      → o ≡ none
      → verify_client (site_backend out) o new s ≡ reply new
  unfolding verify_client
  verify_none none new s e = refl
  verify_none (some client) new s e = absurd (cc)

  -- An update that names no client looks for none.
  update_found_same_client :
      (p : UpdateForwardRuleParams) (r : ForwardRule) (s : Site svc)
      → p.listen_client ≡ none
      → Forwards.get_by_id p.id s.rules ≡ some r
      → is_empty p.id ≡ false
      → update_forward_rule (site_backend out) (some p) s
        ≡ update_checked (site_backend out) r (reply (with_params p r)) s
  unfolding update_forward_rule update_found
  update_found_same_client p r s c e named =
      rw (named, e)
        (ap (λ o. update_checked (site_backend out) r o s)
          (verify_none p.listen_client (with_params p r) s c))

  same_place :
      (p : UpdateForwardRuleParams) (r : ForwardRule)
      → p.listen_client ≡ none
      → p.listen_addr ≡ none
      → listens_elsewhere r (with_params p r) ≡ false
  unfolding with_params
  same_place p r c a = rw (c, a, str_eq_refl r.listen_addr, str_eq_refl r.listen_client) refl

  id_of_found :
      (id : Bytes) (r : ForwardRule) (rules : Forwards.Rules)
      → Forwards.get_by_id id rules ≡ some r
      → r.id ≡ id
  unfolding Forwards.get_by_id
  id_of_found id r rules e = (str_eq_iff r.id id).0 (find_sound (Forwards.has_id id) rules r e)

  no_route :
      (p : UpdateForwardRuleParams) (r : ForwardRule)
      → str_eq r.type forward_type_direct ≡ true
      → p.target_addr ≡ some []
      → ¬ HasRoute (with_params p r)
  unfolding with_params is_empty
  no_route p r direct t (inl (d, target)) =
      let blank : or_keep p.target_addr r.target_addr ≡ [] = ap (λ o. or_keep o r.target_addr) t in
      absurd (ground arith)
  no_route p r direct t (inr (relay, chain, exit)) =
      let d = (str_eq_iff r.type forward_type_direct).0 direct in
      let y = (str_eq_iff r.type (codes "relay")).0 relay in cc (sym d ∙ y)

  -- updateForwardRule asks for none of what createForwardRule asks for: an update of a direct rule
  -- with an empty target is accepted, and leaves the rule with nowhere to forward to.
  pub update_forward_rule_strips :
      (p : UpdateForwardRuleParams) (r : ForwardRule) (s : Site svc)
      → is_empty p.id ≡ false
      → Forwards.get_by_id p.id s.rules ≡ some r
      → str_eq r.type forward_type_direct ≡ true
      → p.listen_client ≡ none
      → p.listen_addr ≡ none
      → p.target_addr ≡ some []
      → ((update_forward_rule (site_backend out) (some p) s).1 ≡ reply tt)
        × ((r' : ForwardRule) × (Forwards.get_by_id p.id
                (update_forward_rule (site_backend out) (some p) s).0.rules
              ≡ some r')
            × (¬ HasRoute r'))
  unfolding update_checked with_params
  update_forward_rule_strips p r s named e direct c a t =
      let own = id_of_found p.id r s.rules e in
      let kept : r.listen_client ≡ (with_params p r).listen_client = rw c refl in
      let (done, row) = save_update_same_client r (with_params p r) s kept in
      rw (update_found_same_client p r s c e named, same_place p r c a)
        (done, (with_params p r, rw (← own) row, no_route p r direct t))

  -- While an update to another address waits for the answer of the client, the client may report a
  -- new status of the rule. The update then writes the row that it read before, with its parameters:
  -- the status is the old one again, whatever was written meanwhile.
  pub update_forward_rule_stale :
      (p : UpdateForwardRuleParams) (r : ForwardRule) (s s' : Site svc) (text : Bytes)
      → is_empty p.id ≡ false
      → Forwards.get_by_id p.id s.rules ≡ some r
      → p.listen_client ≡ none
      → listens_elsewhere r (with_params p r) ≡ true
      → out.check_port (with_params p r).listen_client (with_params p r).listen_addr r.id s
        ≡ (s', true, text)
      → Forwards.get_by_id p.id (update_forward_rule (site_backend out) (some p) s).0.rules
        ≡ some (record (with_params p r) { status = r.status; last_error = r.last_error })
  unfolding update_checked save_if_available with_params
  update_forward_rule_stale p r s s' text named e c moved answer =
      let own = id_of_found p.id r s.rules e in
      let new = with_params p r in
      let kept : r.listen_client ≡ new.listen_client = rw c refl in
      let waited : update_checked (site_backend out) r (reply new) s
          ≡ save_if_available (site_backend out) r new
              (out.check_port new.listen_client new.listen_addr new.id s) =
        rw moved refl in
      let (done, row) = save_update_same_client r new s' kept in
      ap (λ x. Forwards.get_by_id p.id x.0.rules)
        (update_found_same_client p r s c e named
          ∙ waited
          ∙ ap (save_if_available (site_backend out) r new) answer)
      ∙ rw (← own) row
