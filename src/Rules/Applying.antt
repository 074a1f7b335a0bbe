-- ===== src/Rules/Applying.antt =====
-- client.go, applyRules: rules that are running already, and forwarders whose rule is gone.
use message_boy.Base.{
  ℕ, ◌≡◌, refl, ap, ◌∙◌, true, false, List, [], ◌∷◌, ◌++◌, append-nil, Option, none, some, arith,
  Bytes, if◌then◌else◌, if_case, All, Map, bytes_eq, lookup, lookup-insert, lookup-delete, str_eq,
  str_eq_iff, str_eq_refl,
}
use message_boy.Rules.{
  Rule, rule_config_hash, Forwarder, Client, has_rule, remove_old, diff_rule, diff_found, diff,
  is_skipped, start_forwarder, start_rule, start_rules, apply_rules,
}

-- The rule has a forwarder of its configuration.
abbrev pub IsRunning : Map Bytes Forwarder → Rule → Type 0
IsRunning fs r = (f : Forwarder) × (lookup r.id fs ≡ some f) × (f.config_hash ≡ rule_config_hash r)

abbrev pub HasRule : List Rule → Bytes × Forwarder → Type 0
HasRule rules e = has_rule e.0 rules ≡ true

remove_old_none :
    (rules : List Rule) (fs : Map Bytes Forwarder)
    → All (HasRule rules) fs
    → remove_old rules fs ≡ (fs, [])
unfolding remove_old
remove_old_none rules [] h = refl
remove_old_none rules ((id, f) ∷ fs) h = rw (h.0, remove_old_none rules fs h.1) refl

ids : List Rule → List Bytes
ids [] = []
ids (r ∷ rules) = r.id ∷ ids rules

diff_found_running :
    (r : Rule) (fs : Map Bytes Forwarder)
    → IsRunning fs r
    → diff_found r (lookup r.id fs) fs ≡ (fs, r.id ∷ [], [])
unfolding diff_found diff_rule
diff_found_running r fs (f, e, same) =
    let own : str_eq f.config_hash (rule_config_hash r) ≡ true =
      (str_eq_iff f.config_hash (rule_config_hash r)).1 same in
    rw (e, own) refl

diff_running :
    (rules : List Rule) (fs : Map Bytes Forwarder)
    → All (IsRunning fs) rules
    → diff rules fs ≡ (fs, ids rules, [])
unfolding diff ids
diff_running [] fs h = refl
diff_running (r ∷ rules) fs h = rw (diff_found_running r fs h.0, diff_running rules fs h.1) refl

is_skipped-ids : (rules : List Rule) (k : Bytes) → is_skipped k (ids rules) ≡ has_rule k rules
unfolding is_skipped ids has_rule
is_skipped-ids [] k = refl
is_skipped-ids (r ∷ rules) k = ap (λ b. if str_eq r.id k then true else b) (is_skipped-ids rules k)

start_rules_none :
    (skip : List Bytes) (rules : List Rule) (c : Client)
    → All (λ (r : Rule). is_skipped r.id skip ≡ true) rules
    → start_rules skip rules c ≡ c
unfolding start_rules
start_rules_none skip [] c h = refl
start_rules_none skip (r ∷ rules) c h = rw h.0 (start_rules_none skip rules c h.1)

All-has_rule :
    (rules all : List Rule)
    → ((k : Bytes) → has_rule k rules ≡ true → has_rule k all ≡ true)
    → All (λ (r : Rule). is_skipped r.id (ids all) ≡ true) rules
unfolding has_rule
All-has_rule [] all h = tt
All-has_rule (r ∷ rules) all h = (
  is_skipped-ids all r.id ∙ h r.id (rw (str_eq_refl r.id) refl),
  All-has_rule rules all (λ k e. h k (ground arith)),
)

-- Rules that are applied again stop and start nothing: where every rule has a forwarder of its
-- configuration, and every forwarder has a rule, the client stays as it is.
pub apply_rules_unchanged :
    (rules : List Rule) (c : Client)
    → All (IsRunning c.forwarders) rules
    → All (HasRule rules) c.forwarders
    → apply_rules rules c ≡ c
unfolding apply_rules
apply_rules_unchanged rules c running known =
    rw (remove_old_none rules c.forwarders known, diff_running rules c.forwarders running)
      (start_rules_none (ids rules) rules (record c { stopped = c.stopped ++ [] })
          (All-has_rule rules rules (λ k e. e))
        ∙ ap (λ s. record c { stopped = s }) (append-nil c.stopped))

lookup-remove_old :
    (k : Bytes) (rules : List Rule) (fs : Map Bytes Forwarder)
    → has_rule k rules ≡ false
    → lookup k (remove_old rules fs).0 ≡ none
unfolding remove_old lookup
lookup-remove_old k rules [] h = refl
lookup-remove_old k rules ((id, f) ∷ fs) h =
    ground (arith, str_eq_iff id k, lookup-remove_old k rules fs)

abbrev Lacks : Bytes → Map Bytes Forwarder × List Bytes × List ℕ → Type 0
Lacks k x = lookup k x.0 ≡ none

diff_found-Lacks :
    (k : Bytes) (r : Rule) (o : Option Forwarder) (fs : Map Bytes Forwarder)
    → lookup k fs ≡ none
    → Lacks k (diff_found r o fs)
unfolding diff_found diff_rule
diff_found-Lacks k r none fs h = h
diff_found-Lacks k r (some f) fs h =
    if_case (Lacks k) (str_eq f.config_hash (rule_config_hash r)) _ _ h
      (ground (arith, lookup-delete r.id k fs))

diff-Lacks :
    (k : Bytes) (rules : List Rule) (fs : Map Bytes Forwarder)
    → lookup k fs ≡ none
    → Lacks k (diff rules fs)
unfolding diff
diff-Lacks k [] fs h = h
diff-Lacks k (r ∷ rules) fs h =
    diff-Lacks k rules (diff_found r (lookup r.id fs) fs).0
      (diff_found-Lacks k r (lookup r.id fs) fs h)

abbrev IsWithout : Bytes → Client → Type 0
IsWithout k c = lookup k c.forwarders ≡ none

start_rule-IsWithout :
    (k : Bytes) (r : Rule) (c : Client)
    → str_eq r.id k ≡ false
    → IsWithout k c
    → IsWithout k (start_rule r c)
unfolding start_rule start_forwarder
start_rule-IsWithout k r c other h =
    let started : IsWithout k (start_forwarder r c) = ground (
      arith,
      lookup-insert r.id k (record { ref = c.next_ref; config_hash = rule_config_hash r })
          c.forwarders,
    ) in
    if_case (IsWithout k) _ _ _ started
      (if_case (IsWithout k) _ _ _ (if_case (IsWithout k) c.ws_connected _ _ started h) h)

start_rules-IsWithout :
    (k : Bytes) (skip : List Bytes) (rules : List Rule) (c : Client)
    → has_rule k rules ≡ false
    → IsWithout k c
    → IsWithout k (start_rules skip rules c)
unfolding start_rules has_rule
start_rules-IsWithout k skip [] c absent h = h
start_rules-IsWithout k skip (r ∷ rules) c absent h =
    start_rules-IsWithout k skip rules (if is_skipped r.id skip then c else start_rule r c)
      (ground arith)
      (if_case (IsWithout k) (is_skipped r.id skip) _ _ h
        (start_rule-IsWithout k r c (ground arith) h))

-- After the rules have been applied no forwarder is left under an id that no rule has.
pub apply_rules_removed :
    (k : Bytes) (rules : List Rule) (c : Client)
    → has_rule k rules ≡ false
    → lookup k (apply_rules rules c).forwarders ≡ none
unfolding apply_rules
apply_rules_removed k rules c absent =
    let kept = (remove_old rules c.forwarders).0 in
    start_rules-IsWithout k _ rules _ absent
      (diff-Lacks k rules kept (lookup-remove_old k rules c.forwarders absent))
