-- ===== src/Rules/Started.antt =====
-- client.go, applyRules: every rule that can be started has its forwarder afterwards.
use message_boy.Base.{
  ℕ, ◌≡◌, refl, ap, ◌∙◌, ◌⊎◌, inl, inr, Bool, true, false, Bool-cases, List, [], ◌∷◌, ◌++◌, Option,
  none, some, arith, Bytes, codes, if◌then◌else◌, if_case, ◌&&◌, ◌||◌, Map, bytes_eq, lookup,
  lookup-insert, lookup-delete, str_eq, str_eq_iff, str_eq_refl,
}
use message_boy.Rules.{
  Rule, rule_config_hash, Forwarder, Client, has_rule, remove_old, diff_rule, diff_found, diff,
  is_skipped, start_forwarder, start_rule, start_rules, apply_rules,
}
use message_boy.Rules.Applying.{IsRunning}

-- What the second loop leaves of other rules: nothing is changed under `k`, and `k` is not skipped.
abbrev Ignores : Bytes → Map Bytes Forwarder → Map Bytes Forwarder × List Bytes × List ℕ → Type 0
Ignores k fs x = (lookup k x.0 ≡ lookup k fs) × (is_skipped k x.1 ≡ false)

diff_found-Ignores :
    (k : Bytes) (q : Rule) (o : Option Forwarder) (fs : Map Bytes Forwarder)
    → str_eq q.id k ≡ false
    → Ignores k fs (diff_found q o fs)
unfolding diff_found diff_rule is_skipped
diff_found-Ignores k q none fs other = (refl, refl)
diff_found-Ignores k q (some f) fs other =
    if_case (Ignores k fs) (str_eq f.config_hash (rule_config_hash q)) _ _ (refl, rw other refl)
      (ground (arith, lookup-delete q.id k fs), refl)

is_skipped-++ :
    (k : Bytes) (xs ys : List Bytes)
    → is_skipped k xs ≡ false
    → is_skipped k (xs ++ ys) ≡ is_skipped k ys
unfolding is_skipped
is_skipped-++ k [] ys h = refl
is_skipped-++ k (x ∷ xs) ys h = ground (arith, is_skipped-++ k xs ys)

diff-Ignores :
    (k : Bytes) (rules : List Rule) (fs : Map Bytes Forwarder)
    → has_rule k rules ≡ false
    → Ignores k fs (diff rules fs)
unfolding diff has_rule is_skipped
diff-Ignores k [] fs absent = (refl, refl)
diff-Ignores k (q ∷ rules) fs absent =
    let (same, kept) = diff_found-Ignores k q (lookup q.id fs) fs (ground arith) in
    let (same', kept') = diff-Ignores k rules (diff_found q (lookup q.id fs) fs).0 (ground arith) in
    (same' ∙ same, is_skipped-++ k (diff_found q (lookup q.id fs) fs).1 _ kept ∙ kept')

-- The rule either keeps its forwarder or is to be started.
abbrev Settled : Rule → Map Bytes Forwarder × List Bytes × List ℕ → Type 0
Settled r x = IsRunning x.0 r ⊎ (is_skipped r.id x.1 ≡ false)

diff_found-Settled :
    (r : Rule) (fs : Map Bytes Forwarder) (o : Option Forwarder)
    → lookup r.id fs ≡ o
    → Settled r (diff_found r o fs)
unfolding diff_found diff_rule is_skipped
diff_found-Settled r fs none e = inr refl
diff_found-Settled r fs (some f) e = elim (Bool-cases (str_eq f.config_hash (rule_config_hash r))) [
  | inl same ↦ rw same (inl (f, e, (str_eq_iff f.config_hash (rule_config_hash r)).0 same))
  | inr changed ↦ rw changed (inr refl)
]

diff-Settled :
    (r : Rule) (before after : List Rule) (fs : Map Bytes Forwarder)
    → has_rule r.id before ≡ false
    → has_rule r.id after ≡ false
    → Settled r (diff (before ++ r ∷ after) fs)
unfolding diff has_rule
diff-Settled r [] after fs first last =
    let x = diff_found r (lookup r.id fs) fs in
    let (same, kept) = diff-Ignores r.id after x.0 last in
    elim (diff_found-Settled r fs (lookup r.id fs) refl) [
      | inl (f, e, own) ↦ inl (f, same ∙ e, own)
      | inr started ↦ inr (is_skipped-++ r.id x.1 _ started ∙ kept)
    ]
diff-Settled r (q ∷ before) after fs first last =
    let x = diff_found q (lookup q.id fs) fs in
    let (same, kept) = diff_found-Ignores r.id q (lookup q.id fs) fs (ground arith) in
    elim (diff-Settled r before after x.0 (ground arith) last) [
      | inl running ↦ inl running
      | inr started ↦ inr (is_skipped-++ r.id x.1 _ kept ∙ started)
    ]

-- The cases of the switch that start a forwarder.
abbrev pub is_startable : Bool → Rule → Bool
is_startable connected r =
    str_eq r.type (codes "direct") || (str_eq r.type (codes "relay") && connected)

abbrev Runs : Rule → Client → Type 0
Runs r c = IsRunning c.forwarders r

start_forwarder-Runs : (r : Rule) (c : Client) → Runs r (start_forwarder r c)
unfolding start_forwarder
start_forwarder-Runs r c =
    let f : Forwarder = record { ref = c.next_ref; config_hash = rule_config_hash r } in
    (f, ground (arith, lookup-insert r.id r.id f c.forwarders, str_eq_refl r.id), refl)

start_rule-Runs : (r : Rule) (c : Client) → Runs r c → Runs r (start_rule r c)
unfolding start_rule
start_rule-Runs r c running =
    let started = start_forwarder-Runs r c in
    if_case (Runs r) _ _ _ started
      (if_case (Runs r) _ _ _ (if_case (Runs r) c.ws_connected _ _ started running) running)

start_rule-started :
    (r : Rule) (c : Client)
    → is_startable c.ws_connected r ≡ true
    → start_rule r c ≡ start_forwarder r c
unfolding start_rule
start_rule-started r c startable = ground arith

-- Starting the forwarder of another rule keeps what is under the id, and the connection.
abbrev Keeps : Bytes → Client → Client → Type 0
Keeps k c c' = (lookup k c'.forwarders ≡ lookup k c.forwarders) × (c'.ws_connected ≡ c.ws_connected)

start_rule-Keeps :
    (k : Bytes) (q : Rule) (c : Client) → str_eq q.id k ≡ false → Keeps k c (start_rule q c)
unfolding start_rule start_forwarder
start_rule-Keeps k q c other =
    let started : Keeps k c (start_forwarder q c) = (
      ground (
        arith,
        lookup-insert q.id k (record { ref = c.next_ref; config_hash = rule_config_hash q })
            c.forwarders,
      ),
      refl,
    ) in
    if_case (Keeps k c) _ _ _ started (
      if_case (Keeps k c) _ _ _ (if_case (Keeps k c) c.ws_connected _ _ started (refl, refl))
        (refl, refl))

start_rules-Keeps :
    (k : Bytes) (skip : List Bytes) (rules : List Rule) (c : Client)
    → has_rule k rules ≡ false
    → Keeps k c (start_rules skip rules c)
unfolding start_rules has_rule
start_rules-Keeps k skip [] c absent = (refl, refl)
start_rules-Keeps k skip (q ∷ rules) c absent =
    let step : Keeps k c (if is_skipped q.id skip then c else start_rule q c) =
      if_case (Keeps k c) (is_skipped q.id skip) _ _ (refl, refl)
        (start_rule-Keeps k q c (ground arith)) in
    let (same, up) = start_rules-Keeps k skip rules _ (ground arith) in (same ∙ step.0, up ∙ step.1)

start_rules-++ :
    (skip : List Bytes) (xs ys : List Rule) (c : Client)
    → start_rules skip (xs ++ ys) c ≡ start_rules skip ys (start_rules skip xs c)
unfolding start_rules
start_rules-++ skip [] ys c = refl
start_rules-++ skip (x ∷ xs) ys c = start_rules-++ skip xs ys _

Keeps-Runs : (r : Rule) (c c' : Client) → Keeps r.id c c' → Runs r c → Runs r c'
Keeps-Runs r c c' kept (f, e, own) = (f, kept.0 ∙ e, own)

start_own-Runs :
    (skip : List Bytes) (r : Rule) (c : Client)
    → is_startable c.ws_connected r ≡ true
    → Runs r c ⊎ (is_skipped r.id skip ≡ false)
    → Runs r (if is_skipped r.id skip then c else start_rule r c)
start_own-Runs skip r c startable (inl running) =
    if_case (Runs r) (is_skipped r.id skip) _ _ running (start_rule-Runs r c running)
start_own-Runs skip r c startable (inr started) =
    rw (started, start_rule-started r c startable) (start_forwarder-Runs r c)

start_rules-Runs :
    (skip : List Bytes) (r : Rule) (before after : List Rule) (c : Client)
    → has_rule r.id before ≡ false
    → has_rule r.id after ≡ false
    → is_startable c.ws_connected r ≡ true
    → Runs r c ⊎ (is_skipped r.id skip ≡ false)
    → Runs r (start_rules skip (before ++ r ∷ after) c)
unfolding start_rules
start_rules-Runs skip r before after c first last startable settled =
    let c' = start_rules skip before c in
    let kept = start_rules-Keeps r.id skip before c first in
    let settled' : Runs r c' ⊎ (is_skipped r.id skip ≡ false) = elim settled [
      | inl running ↦ inl (Keeps-Runs r c c' kept running)
      | inr started ↦ inr started
    ] in
    let c'' : Client = if is_skipped r.id skip then c' else start_rule r c' in
    let own = start_own-Runs skip r c' (ap (λ b. is_startable b r) kept.1 ∙ startable) settled' in
    rw (start_rules-++ skip before (r ∷ after) c) (
      Keeps-Runs r c'' (start_rules skip after c'') (start_rules-Keeps r.id skip after c'' last)
        own)

-- A rule whose id no other rule has, and which is direct or finds the connection up, has a forwarder
-- of its configuration after the rules have been applied, whatever ran before.
pub apply_rules_started :
    (r : Rule) (before after : List Rule) (c : Client)
    → has_rule r.id before ≡ false
    → has_rule r.id after ≡ false
    → is_startable c.ws_connected r ≡ true
    → IsRunning (apply_rules (before ++ r ∷ after) c).forwarders r
unfolding apply_rules
apply_rules_started r before after c first last startable =
    let rules = before ++ r ∷ after in
    start_rules-Runs _ r before after _ first last startable
      (diff-Settled r before after (remove_old rules c.forwarders).0 first last)
