-- ===== src/Api/Forward/Invariant.antt =====
-- internal/api/forward_rpc.go and the status reports over the tables: what a run of calls keeps.
use message_boy.Base.{
  ◌≡◌, refl, arith, Bool, true, false, not, ◌&&◌, List, [], ◌∷◌, Option, none, some, Bytes, codes,
  if_case, str_eq, is_empty, All, All-append, All-filter, All-update_where, All-find,
}
use message_boy.Storage.{ForwardRule}
use message_boy.Storage.Forwards
use message_boy.Storage.Forwards.{with_status}
use message_boy.Hub.{Services}
use message_boy.Api.{Reply, reply, refuse, need}
use message_boy.Api.Site.{Site, Outside, site_backend, to_found}
use message_boy.Api.Forward.{
  CreateForwardRuleParams, UpdateForwardRuleParams, with_params, listens_elsewhere,
  create_forward_rule,
}
use message_boy.Api.Forward.Changing.{
  ToggleForwardRuleParams, notify_update, save_update, save_if_available, update_checked,
  verify_client, update_found, update_forward_rule, delete_found, delete_forward_rule, toggle_found,
  toggle_forward_rule,
}
use message_boy.Api.Forward.Complete.{IsComplete, Creates, create_forward_rule_lem}
use message_boy.Api.Internal.{RuleStatusReportItem, report_items, client_report_rule_status}
use message_boy.Api.Forward.Careful.{Complete, update-Complete, IsCareful, with_params-IsComplete}

-- A call of a method that writes rules.
pub data Call : Type 0 where
  create : Option CreateForwardRuleParams → Call
  update : UpdateForwardRuleParams → Call
  delete : Option Bytes → Call
  toggle : Option ToggleForwardRuleParams → Call
  report : Option (Bytes × List RuleStatusReportItem) → Call

abbrev IsCarefulCall : Call → Type 0
IsCarefulCall (update p) = IsCareful p
IsCarefulCall (create p) = Unit
IsCarefulCall (delete id) = Unit
IsCarefulCall (toggle p) = Unit
IsCarefulCall (report p) = Unit

module _ {svc : Services} (out : Outside svc) where
  abbrev IsGood : Site svc → Type 0
  IsGood s = Complete s.rules

  -- What happens while a method waits keeps the rules complete.
  pub record IsSteady : Type 0 where
    pub check_port :
        (client addr rule : Bytes) (s : Site svc)
        → IsGood s
        → IsGood (out.check_port client addr rule s).0
    pub pause : (s : Site svc) → IsGood s → IsGood (out.pause s)

  abbrev pub call : Call → Site svc → Site svc
  call (create p) s = (create_forward_rule (site_backend out) p s).0
  call (update p) s = (update_forward_rule (site_backend out) (some p) s).0
  call (delete id) s = (delete_forward_rule (site_backend out) id s).0
  call (toggle p) s = (toggle_forward_rule (site_backend out) p s).0
  call (report p) s = (client_report_rule_status (site_backend out) p s).0

  abbrev pub calls : List Call → Site svc → Site svc
  calls [] s = s
  calls (c ∷ cs) s = calls cs (call c s)

  create-IsGood :
      (p : Option CreateForwardRuleParams) (s : Site svc)
      → IsGood s
      → IsGood (create_forward_rule (site_backend out) p s).0
  create-IsGood p s h =
      go (create_forward_rule (site_backend out) p s) (create_forward_rule_lem out p s)
    where
      go : (x : Site svc × Reply (Bytes × Bytes × Bytes)) → Creates out s x → IsGood x.0
      go (s', refuse e) same = rw same.0 h
      go (s', reply answer) made =
          rw made.1 (All-append IsComplete s.rules (made.0 ∷ []) h (made.3, tt))

  save_update-IsGood :
      (old new : ForwardRule) (s : Site svc)
      → IsSteady
      → IsComplete new
      → IsGood s
      → IsGood (save_update (site_backend out) old new s).0
  unfolding save_update notify_update
  save_update-IsGood old new s steady full h =
      let saved = update-Complete new s.rules full h in
      if_case IsGood (not (str_eq old.listen_client new.listen_client)) _ _ (steady.pause _ saved)
        saved

  save_if_available-IsGood :
      (old new : ForwardRule) (x : Site svc × Bool × Bytes)
      → IsSteady
      → IsComplete new
      → IsGood x.0
      → IsGood (save_if_available (site_backend out) old new x).0
  unfolding save_if_available
  save_if_available-IsGood old new (s, true, text) steady full h =
      save_update-IsGood old new s steady full h
  save_if_available-IsGood old new (s, false, text) steady full h = h

  abbrev Kept : Site svc × Reply Unit → Type 0
  Kept x = IsGood x.0

  update_checked-IsGood :
      (old : ForwardRule) (o : Reply ForwardRule) (s : Site svc)
      → IsSteady
      → ((r : ForwardRule) → o ≡ reply r → IsComplete r)
      → IsGood s
      → IsGood (update_checked (site_backend out) old o s).0
  unfolding update_checked
  update_checked-IsGood old (refuse e) s steady full h = h
  update_checked-IsGood old (reply new) s steady full h =
      let asked = out.check_port new.listen_client new.listen_addr new.id s in
      if_case Kept (listens_elsewhere old new && true)
        (save_if_available (site_backend out) old new asked)
        (save_update (site_backend out) old new s)
        (save_if_available-IsGood old new asked steady (full new refl)
          (steady.check_port new.listen_client new.listen_addr new.id s h))
        (save_update-IsGood old new s steady (full new refl) h)

  verify_client-reply :
      (o : Option Bytes) (new r : ForwardRule) (s : Site svc)
      → verify_client (site_backend out) o new s ≡ reply r
      → r ≡ new
  unfolding verify_client
  verify_client-reply none new r s e = ground arith
  verify_client-reply (some client) new r s e = ground arith

  update_found-IsGood :
      (p : UpdateForwardRuleParams) (o : Option ForwardRule) (s : Site svc)
      → IsSteady
      → IsCareful p
      → ((r : ForwardRule) → o ≡ some r → IsComplete r)
      → IsGood s
      → IsGood
          (update_found
            (site_backend out)
            p
            (need (codes "rule not found") (codes "failed to get rule: ") (to_found o))
            s).0
  unfolding update_found
  update_found-IsGood p none s steady care full h = h
  update_found-IsGood p (some r) s steady care full h =
      update_checked-IsGood r _ s steady
        (λ new e.
          rw (verify_client-reply p.listen_client (with_params p r) new s e)
            (with_params-IsComplete p r care (full r refl)))
        h

  report_items-IsGood :
      (items : List RuleStatusReportItem) (s : Site svc)
      → IsGood s
      → IsGood (report_items (site_backend out) items s)
  unfolding report_items Forwards.update_status
  report_items-IsGood [] s h = h
  report_items-IsGood (i ∷ items) s h =
      report_items-IsGood items
        (record s { rules = Forwards.update_status i.rule_id i.status i.error s.rules })
        (All-update_where IsComplete (Forwards.has_id i.rule_id) (with_status i.status i.error)
          s.rules
          (λ r full. record {
            named = full.named;
            listens = full.listens;
            assigned = full.assigned;
            routed = full.routed;
          })
          h)

  toggle_found-IsGood :
      (p : ToggleForwardRuleParams) (o : Option ForwardRule) (s : Site svc)
      → IsGood s
      → IsGood
          (toggle_found
            (site_backend out)
            p
            (need (codes "rule not found") (codes "failed to get rule: ") (to_found o))
            s).0
  unfolding toggle_found Forwards.toggle_enabled
  toggle_found-IsGood p none s h = h
  toggle_found-IsGood p (some r) s h =
      All-update_where IsComplete (Forwards.has_id p.id)
        (λ (r : ForwardRule). record r { enabled = p.enabled }) s.rules
        (λ r full. record {
          named = full.named;
          listens = full.listens;
          assigned = full.assigned;
          routed = full.routed;
        })
        h

  delete_found-IsGood :
      (id : Bytes) (o : Option ForwardRule) (s : Site svc)
      → IsGood s
      → IsGood (delete_found (site_backend out) id (to_found o) s).0
  unfolding delete_found Forwards.delete_rule
  delete_found-IsGood id none s h = All-filter IsComplete _ s.rules h
  delete_found-IsGood id (some r) s h = All-filter IsComplete _ s.rules h

  call-IsGood :
      (c : Call) (s : Site svc) → IsSteady → IsCarefulCall c → IsGood s → IsGood (call c s)
  unfolding update_forward_rule delete_forward_rule toggle_forward_rule client_report_rule_status
      Forwards.get_by_id
  call-IsGood (create p) s steady care h = create-IsGood p s h
  call-IsGood (update p) s steady care h = if_case Kept (is_empty p.id) _ _ h (
      update_found-IsGood p (Forwards.get_by_id p.id s.rules) s steady care
        (λ r e. All-find IsComplete (Forwards.has_id p.id) s.rules h e) h)
  call-IsGood (delete none) s steady care h = h
  call-IsGood (delete (some id)) s steady care h =
      if_case Kept (is_empty id) _ _ h (delete_found-IsGood id (Forwards.get_by_id id s.rules) s h)
  call-IsGood (toggle none) s steady care h = h
  call-IsGood (toggle (some p)) s steady care h =
      if_case Kept (is_empty p.id) _ _ h
        (toggle_found-IsGood p (Forwards.get_by_id p.id s.rules) s h)
  call-IsGood (report none) s steady care h = h
  call-IsGood (report (some (client, items))) s steady care h =
      if_case Kept (is_empty client) _ _ h (report_items-IsGood items s h)

  -- Runs of calls keep every rule of the table complete, provided that no update sends an empty
  -- parameter and that what happens while an update waits keeps them complete.
  pub calls-IsComplete :
      (cs : List Call) (s : Site svc)
      → IsSteady
      → All IsCarefulCall cs
      → All IsComplete s.rules
      → All IsComplete (calls cs s).rules
  calls-IsComplete [] s steady care h = h
  calls-IsComplete (c ∷ cs) s steady care h =
      calls-IsComplete cs (call c s) steady care.1 (call-IsGood c s steady care.0 h)
