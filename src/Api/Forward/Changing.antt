-- ===== src/Api/Forward/Changing.antt =====
-- internal/api/forward_rpc.go: updateForwardRule, deleteForwardRule and toggleForwardRule.
use message_boy.Base.{
  Bool, true, false, ◌&&◌, not, ◌++◌, Option, none, some, Bytes, codes, if◌then◌else◌, str_eq,
  is_empty,
}
use message_boy.Storage.{ForwardRule}
use message_boy.Api.{
  Found, found, missing, broken, port_unavailable, Reply, reply, refuse, refuse_text, need, Backend,
}
use message_boy.Api.Forward.{
  UpdateForwardRuleParams, with_params, listens_elsewhere, notify, written,
}

pub record ToggleForwardRuleParams : Type 0 where
  pub id : Bytes
  pub enabled : Bool

-- The method has nothing to answer but that it was done.
abbrev pub Done : Type 0
Done = Unit

module _ (b : Backend) where
  -- The new client is told only after the old one had time to free the port.
  unfoldable pub notify_update : Bytes → Bytes → b.State → b.State
  notify_update old new s =
      if b.has_ws_server
      then if not (str_eq old new)
        then (b.notify_rule_update new (b.pause (b.notify_rule_update old s).0)).0
        else (b.notify_rule_update new s).0
      else s

  unfoldable pub save_update : ForwardRule → ForwardRule → b.State → b.State × Reply Done
  unfolding notify_update written
  save_update old new s =
      written b (codes "failed to update rule: ")
        (notify_update old.listen_client new.listen_client) tt (b.update_rule new s)

  unfoldable pub save_if_available :
      ForwardRule → ForwardRule → b.State × Bool × Bytes → b.State × Reply Done
  unfolding save_update
  save_if_available old new (s, true, text) = save_update old new s
  save_if_available old new (s, false, text) =
      (s, refuse (port_unavailable new.listen_addr new.listen_client text))

  -- The row is written as it was read before the wait, with the parameters.
  unfoldable pub update_checked : ForwardRule → Reply ForwardRule → b.State → b.State × Reply Done
  unfolding save_if_available
  update_checked old (refuse e) s = (s, refuse e)
  update_checked old (reply new) s =
      if listens_elsewhere old new && b.has_ws_server
      then save_if_available old new
          (b.check_port_available new.listen_client new.listen_addr new.id s)
      else save_update old new s

  unfoldable pub verify_client : Option Bytes → ForwardRule → b.State → Reply ForwardRule
  verify_client none new s = reply new
  verify_client (some client) new s = elim (b.client_by_id client s) [
    | found c ↦ reply new
    | missing ↦ refuse_text (codes "new listen_client not found")
    | broken e ↦ refuse_text (codes "failed to verify new client: " ++ e)
  ]

  unfoldable pub update_found :
      UpdateForwardRuleParams → Reply ForwardRule → b.State → b.State × Reply Done
  unfolding update_checked verify_client with_params
  update_found p (refuse e) s = (s, refuse e)
  update_found p (reply r) s =
      update_checked r (verify_client p.listen_client (with_params p r) s) s

  unfoldable pub update_forward_rule :
      Option UpdateForwardRuleParams → b.State → b.State × Reply Done
  unfolding update_found
  update_forward_rule none s = (s, refuse_text (codes "invalid params"))
  update_forward_rule (some p) s =
      if is_empty p.id
      then (s, refuse_text (codes "id is required"))
      else update_found p
          (need (codes "rule not found") (codes "failed to get rule: ") (b.rule_by_id p.id s)) s

  unfoldable pub notify_deleted : Found ForwardRule → b.State → b.State
  unfolding notify
  notify_deleted (found r) s = notify b r.listen_client s
  notify_deleted missing s = s
  notify_deleted (broken e) s = s

  -- A rule that is not there is deleted all the same, and no one is told.
  unfoldable pub delete_found : Bytes → Found ForwardRule → b.State → b.State × Reply Done
  unfolding notify_deleted written
  delete_found id (broken e) s = (s, refuse_text (codes "failed to get rule: " ++ e))
  delete_found id missing s =
      written b (codes "failed to delete rule: ") (notify_deleted missing) tt (b.delete_rule id s)
  delete_found id (found r) s =
      written b (codes "failed to delete rule: ") (notify_deleted (found r)) tt (b.delete_rule id s)

  unfoldable pub delete_forward_rule : Option Bytes → b.State → b.State × Reply Done
  unfolding delete_found
  delete_forward_rule none s = (s, refuse_text (codes "invalid params"))
  delete_forward_rule (some id) s =
      if is_empty id
      then (s, refuse_text (codes "id is required"))
      else delete_found id (b.rule_by_id id s) s

  unfoldable pub toggle_found :
      ToggleForwardRuleParams → Reply ForwardRule → b.State → b.State × Reply Done
  unfolding notify written
  toggle_found p (refuse e) s = (s, refuse e)
  toggle_found p (reply r) s =
      written b (codes "failed to toggle rule: ") (notify b r.listen_client) tt
        (b.toggle_rule p.id p.enabled s)

  unfoldable pub toggle_forward_rule :
      Option ToggleForwardRuleParams → b.State → b.State × Reply Done
  unfolding toggle_found
  toggle_forward_rule none s = (s, refuse_text (codes "invalid params"))
  toggle_forward_rule (some p) s =
      if is_empty p.id
      then (s, refuse_text (codes "id is required"))
      else toggle_found p
          (need (codes "rule not found") (codes "failed to get rule: ") (b.rule_by_id p.id s)) s
