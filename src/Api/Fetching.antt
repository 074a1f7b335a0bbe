-- ===== src/Api/Fetching.antt =====
-- internal/client/client.go, fetchAndApplyRules, against the tables of the server: a change of a rule
-- reaches the forwarders of its client.
use mathlib.Core.Path.{subst}
use message_boy.Base.{
  ◌≡◌, inl, inr, refl, ap, ◌∙◌, arith, Bool, true, false, Bool-cases, List, [], ◌∷◌, ◌++◌, none,
  some, Bytes, bytes_eq, lookup, str_eq, str_eq_refl, is_empty, All, filter, find, update_where,
}
use message_boy.Storage.{ForwardRule}
use message_boy.Storage.Forwards
use message_boy.Storage.Forwards.{runs_on}
use message_boy.Hub.{Services}
use message_boy.Proxy.Tables.{ProxyTables}
use message_boy.Rules.{Rule, Client, has_rule, apply_rules}
use message_boy.Rules.Applying.{IsRunning, apply_rules_removed}
use message_boy.Rules.Started.{is_startable, apply_rules_started}
use message_boy.Api.{Reply, reply, refuse}
use message_boy.Api.Site.{Site, Outside, site_backend}
use message_boy.Api.Internal.{client_rule, client_rules, client_get_rules}
use message_boy.Api.Forward.Changing.{toggle_found, toggle_forward_rule}

-- `fetchAndApplyRules` with the answer of `clientGetRules`; without rules the client stays as it is.
unfoldable pub fetch_and_apply_rules : Reply (List Rule) → Client → Client
fetch_and_apply_rules (reply rules) c = apply_rules rules c
fetch_and_apply_rules (refuse e) c = c

-- No rule has the id.
abbrev pub Lacks : Bytes → List ForwardRule → Type 0
Lacks id rules = All (λ (r : ForwardRule). str_eq r.id id ≡ false) rules

client_rule-id : (db : ProxyTables) (r : ForwardRule) → (client_rule db r).id ≡ r.id
unfolding client_rule
client_rule-id db r = ground arith

has_rule_absent :
    (db : ProxyTables) (client id : Bytes) (rules : List ForwardRule)
    → Lacks id rules
    → has_rule id (client_rules db (filter (runs_on client) rules)) ≡ false
unfolding has_rule client_rules filter
has_rule_absent db client id [] h = refl
has_rule_absent db client id (r ∷ rules) h = elim (Bool-cases (runs_on client r)) [
  | inl here ↦ rw (here, client_rule-id db r, h.0) (has_rule_absent db client id rules h.1)
  | inr elsewhere ↦ rw elsewhere (has_rule_absent db client id rules h.1)
]

filter-append {ℓ} :
    {A : Type ℓ} (q : A → Bool) (xs ys : List A) → filter q (xs ++ ys) ≡ filter q xs ++ filter q ys
unfolding filter
filter-append q [] ys = refl
filter-append q (x ∷ xs) ys = elim (Bool-cases (q x)) [
  | inl keep ↦ rw keep (ap (λ l. x ∷ l) (filter-append q xs ys))
  | inr pass ↦ rw pass (filter-append q xs ys)
]

client_rules-append :
    (db : ProxyTables) (xs ys : List ForwardRule)
    → client_rules db (xs ++ ys) ≡ client_rules db xs ++ client_rules db ys
unfolding client_rules
client_rules-append db [] ys = refl
client_rules-append db (x ∷ xs) ys = ap (λ l. client_rule db x ∷ l) (client_rules-append db xs ys)

has_rule-append :
    (id : Bytes) (xs ys : List Rule)
    → has_rule id xs ≡ false
    → has_rule id ys ≡ false
    → has_rule id (xs ++ ys) ≡ false
unfolding has_rule
has_rule-append id [] ys hx hy = hy
has_rule-append id (x ∷ xs) ys hx hy = ground (arith, has_rule-append id xs ys)

-- A rule that runs on the client has a forwarder of its configuration, any other has none.
abbrev pub IsImplemented : Bool → ProxyTables → ForwardRule → Client → Type 0
IsImplemented true db r c = IsRunning c.forwarders (client_rule db r)
IsImplemented false db r c = lookup r.id c.forwarders ≡ none

retype :
    (e b : Bool)
    → b ≡ e
    → (db db' : ProxyTables) (r r' : ForwardRule) (c : Client)
    → client_rule db r ≡ client_rule db' r'
    → r.id ≡ r'.id
    → IsImplemented b db r c
    → IsImplemented e db' r' c
retype true true eq db db' r r' c same id h = subst (λ (q : Rule). IsRunning c.forwarders q) same h
retype false false eq db db' r r' c same id h =
    subst (λ (i : Bytes). lookup i c.forwarders ≡ none) id h
retype true false eq db db' r r' c same id h = absurd (cc)
retype false true eq db db' r r' c same id h = absurd (cc)

module _ {svc : Services} (out : Outside svc) where
  rules_on_site :
      (client : Bytes) (s : Site svc)
      → is_empty client ≡ false
      → client_get_rules (site_backend out) (some client) s
        ≡ reply (client_rules s.groups (filter (runs_on client) s.rules))
  unfolding client_get_rules Forwards.get_by_client_id
  rules_on_site client s named = rw named refl

  fetched-IsImplemented :
      (client : Bytes) (r : ForwardRule) (before after : List ForwardRule) (s : Site svc)
      (c : Client) (b : Bool)
      → runs_on client r ≡ b
      → Lacks r.id before
      → Lacks r.id after
      → is_startable c.ws_connected (client_rule s.groups r) ≡ true
      → IsImplemented b s.groups r
          (apply_rules (client_rules s.groups (filter (runs_on client) (before ++ r ∷ after))) c)
  unfolding filter client_rules
  fetched-IsImplemented client r before after s c true here hb ha startable =
      let id = client_rule-id s.groups r in
      let split : client_rules s.groups (filter (runs_on client) (before ++ r ∷ after))
          ≡ client_rules s.groups (filter (runs_on client) before)
            ++ client_rule s.groups r ∷ client_rules s.groups (filter (runs_on client) after) =
        ap (client_rules s.groups) (filter-append (runs_on client) before (r ∷ after))
        ∙ client_rules-append s.groups (filter (runs_on client) before) _
        ∙ rw here refl in
      rw split (
        apply_rules_started (client_rule s.groups r)
          (client_rules s.groups (filter (runs_on client) before))
          (client_rules s.groups (filter (runs_on client) after)) c
          (rw id (has_rule_absent s.groups client r.id before hb))
          (rw id (has_rule_absent s.groups client r.id after ha)) startable)
  fetched-IsImplemented client r before after s c false elsewhere hb ha startable =
      apply_rules_removed r.id
        (client_rules s.groups (filter (runs_on client) (before ++ r ∷ after))) c
        (ap (λ l. has_rule r.id (client_rules s.groups l))
            (filter-append (runs_on client) before (r ∷ after))
          ∙ rw elsewhere (
              ap (has_rule r.id) (
                client_rules-append s.groups (filter (runs_on client) before)
                  (filter (runs_on client) after))
              ∙ has_rule-append r.id _ _ (has_rule_absent s.groups client r.id before hb)
                  (has_rule_absent s.groups client r.id after ha)))

  -- Once a client has fetched its rules, its forwarders are what the table says: a rule of the table
  -- that is enabled and listens on the client has a forwarder of its configuration, and one that is
  -- disabled or listens elsewhere has none. Provided that no other rule has the id, and that the rule
  -- can be started: it is direct, or it is a relay rule and the client is connected.
  pub fetch_and_apply_rules_implements :
      (client : Bytes) (r : ForwardRule) (before after : List ForwardRule) (s : Site svc)
      (c : Client)
      → is_empty client ≡ false
      → s.rules ≡ before ++ r ∷ after
      → Lacks r.id before
      → Lacks r.id after
      → is_startable c.ws_connected (client_rule s.groups r) ≡ true
      → IsImplemented
          (runs_on client r)
          s.groups
          r
          (fetch_and_apply_rules (client_get_rules (site_backend out) (some client) s) c)
  unfolding fetch_and_apply_rules
  fetch_and_apply_rules_implements client r before after s c named table hb ha startable =
      rw (rules_on_site client s named, table)
        (fetched-IsImplemented client r before after s c (runs_on client r) refl hb ha startable)

  toggle_row :
      (e : Bool) (r : ForwardRule) (before after : List ForwardRule)
      → Lacks r.id before
      → Lacks r.id after
      → Forwards.toggle_enabled r.id e (before ++ r ∷ after)
        ≡ before ++ record r { enabled = e } ∷ after
  unfolding Forwards.toggle_enabled update_where
  toggle_row e r [] after hb ha =
      rw (str_eq_refl r.id) (ap (λ l. record r { enabled = e } ∷ l) (others after ha))
    where
      others :
          (rules : List ForwardRule)
          → Lacks r.id rules
          → update_where
              (Forwards.has_id r.id)
              (λ (x : ForwardRule). record x { enabled = e })
              rules
            ≡ rules
      others [] h = refl
      others (x ∷ rules) h = rw h.0 (ap (λ l. x ∷ l) (others rules h.1))
  toggle_row e r (x ∷ before) after hb ha =
      rw hb.0 (ap (λ l. x ∷ l) (toggle_row e r before after hb.1 ha))

  found_between :
      (r : ForwardRule) (before after : List ForwardRule)
      → Lacks r.id before
      → Forwards.get_by_id r.id (before ++ r ∷ after) ≡ some r
  unfolding Forwards.get_by_id find
  found_between r [] after hb = rw (str_eq_refl r.id) refl
  found_between r (x ∷ before) after hb = rw hb.0 (found_between r before after hb.1)

  toggled_rules :
      (e : Bool) (r : ForwardRule) (s : Site svc)
      → is_empty r.id ≡ false
      → Forwards.get_by_id r.id s.rules ≡ some r
      → (toggle_forward_rule
          (site_backend out)
          (some (record { id = r.id; enabled = e }))
          s).0.rules
        ≡ Forwards.toggle_enabled r.id e s.rules
  unfolding toggle_forward_rule toggle_found
  toggled_rules e r s named known = rw (named, known) refl

  toggled_groups :
      (e : Bool) (r : ForwardRule) (s : Site svc)
      → is_empty r.id ≡ false
      → Forwards.get_by_id r.id s.rules ≡ some r
      → (toggle_forward_rule
          (site_backend out)
          (some (record { id = r.id; enabled = e }))
          s).0.groups
        ≡ s.groups
  unfolding toggle_forward_rule toggle_found
  toggled_groups e r s named known = rw (named, known) refl

  client_rule-enabled :
      (db : ProxyTables) (r : ForwardRule) (e : Bool)
      → client_rule db (record r { enabled = e }) ≡ client_rule db r
  unfolding client_rule
  client_rule-enabled db r e = refl

  -- toggleForwardRule takes effect on the client: once the client of the rule has fetched its rules,
  -- the rule has a forwarder if it was enabled, and none if it was disabled. Provided that the rule
  -- and its client have ids, that no other rule has the id, and that the rule can be started.
  pub toggle_forward_rule_takes_effect :
      (e : Bool) (r : ForwardRule) (before after : List ForwardRule) (s : Site svc) (c : Client)
      → is_empty r.id ≡ false
      → is_empty r.listen_client ≡ false
      → s.rules ≡ before ++ r ∷ after
      → Lacks r.id before
      → Lacks r.id after
      → is_startable c.ws_connected (client_rule s.groups r) ≡ true
      → IsImplemented e s.groups r (
          fetch_and_apply_rules
            (client_get_rules
              (site_backend out)
              (some r.listen_client)
              (toggle_forward_rule
                (site_backend out)
                (some (record { id = r.id; enabled = e }))
                s).0)
            c)
  toggle_forward_rule_takes_effect e r before after s c named owned table hb ha startable =
      let known : Forwards.get_by_id r.id s.rules ≡ some r =
        ap (Forwards.get_by_id r.id) table ∙ found_between r before after hb in
      let s' =
        (toggle_forward_rule (site_backend out) (some (record { id = r.id; enabled = e })) s).0 in
      let table' : s'.rules ≡ before ++ record r { enabled = e } ∷ after =
        toggled_rules e r s named known
        ∙ ap (Forwards.toggle_enabled r.id e) table
        ∙ toggle_row e r before after hb ha in
      let same : client_rule s'.groups (record r { enabled = e }) ≡ client_rule s.groups r =
        ap (λ db. client_rule db (record r { enabled = e })) (toggled_groups e r s named known)
        ∙ client_rule-enabled s.groups r e in
      let fetched =
        fetch_and_apply_rules_implements r.listen_client (record r { enabled = e }) before after s'
          c owned table' hb ha (ap (is_startable c.ws_connected) same ∙ startable) in
      let mine : runs_on r.listen_client (record r { enabled = e }) ≡ e =
        rw (str_eq_refl r.listen_client) refl in
      retype e (runs_on r.listen_client (record r { enabled = e })) mine s'.groups s.groups
        (record r { enabled = e }) r _ same refl fetched
