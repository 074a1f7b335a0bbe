-- ===== src/Rules.antt =====
-- internal/client/client.go, applyRules: a client's forwarders follow the rules that the server sends.
-- The forwarders run on their own; here they are objects under references, with the hash of their
-- configuration, and stopping them is recorded.
pub mod Applying
pub mod Started
use message_boy.Base.{
  ℕ, ◌+◌, Bool, true, false, List, [], ◌∷◌, ◌++◌, Option, none, some, Bytes, codes, if◌then◌else◌,
  Map, bytes_eq, lookup, insert, delete, str_eq,
}

-- A rule as `clientGetRules` returns it.
pub record Rule : Type 0 where
  pub id : Bytes
  pub type : Bytes
  pub listen_addr : Bytes
  pub target_addr : Bytes
  pub exit_addr : Bytes
  pub relay_chain : List Bytes

-- The items of a chain, each with a comma behind it.
unfoldable pub chain_text : List Bytes → Bytes
chain_text [] = []
chain_text (item ∷ chain) = item ++ 44 ∷ chain_text chain

-- `computeRuleConfigHash`, which is what the forwarder of the rule answers to `GetConfigHash`.
unfoldable pub rule_config_hash : Rule → Bytes
unfolding chain_text
rule_config_hash r =
    if str_eq r.type (codes "direct")
    then codes "direct:" ++ (r.listen_addr ++ 58 ∷ r.target_addr)
    else codes "relay:" ++ (r.listen_addr ++ 58 ∷ (r.exit_addr ++ 58 ∷ chain_text r.relay_chain))

pub record Forwarder : Type 0 where
  pub ref : ℕ
  pub config_hash : Bytes

-- `stopped` has the forwarders that were told to stop, in their order.
pub record Client : Type 0 where
  pub forwarders : Map Bytes Forwarder
  pub next_ref : ℕ
  pub stopped : List ℕ
  pub ws_connected : Bool

unfoldable pub has_rule : Bytes → List Rule → Bool
has_rule id [] = false
has_rule id (r ∷ rules) = if str_eq r.id id then true else has_rule id rules

-- The first loop of the first phase: forwarders without a rule.
unfoldable pub remove_old : List Rule → Map Bytes Forwarder → Map Bytes Forwarder × List ℕ
unfolding has_rule
remove_old rules [] = ([], [])
remove_old rules ((id, f) ∷ fs) =
    let (kept, stops) = remove_old rules fs in
    if has_rule id rules then ((id, f) ∷ kept, stops) else (kept, f.ref ∷ stops)

-- What becomes of one rule with the forwarder that it has.
unfoldable pub diff_rule :
    Rule → Forwarder → Map Bytes Forwarder → Map Bytes Forwarder × List Bytes × List ℕ
unfolding rule_config_hash
diff_rule r f fs =
    if str_eq f.config_hash (rule_config_hash r)
    then (fs, r.id ∷ [], [])
    else (delete r.id fs, [], f.ref ∷ [])

unfoldable pub diff_found :
    Rule → Option Forwarder → Map Bytes Forwarder → Map Bytes Forwarder × List Bytes × List ℕ
unfolding diff_rule
diff_found r none fs = (fs, [], [])
diff_found r (some f) fs = diff_rule r f fs

-- The second loop: the forwarders left, the rules to skip, and the forwarders to stop.
unfoldable pub diff : List Rule → Map Bytes Forwarder → Map Bytes Forwarder × List Bytes × List ℕ
unfolding diff_found
diff [] fs = (fs, [], [])
diff (r ∷ rules) fs =
    let (fs', skip, stops) = diff_found r (lookup r.id fs) fs in
    let (fs'', skip', stops') = diff rules fs' in (fs'', skip ++ skip', stops ++ stops')

unfoldable pub is_skipped : Bytes → List Bytes → Bool
is_skipped id [] = false
is_skipped id (k ∷ skip) = if str_eq k id then true else is_skipped id skip

unfoldable pub start_forwarder : Rule → Client → Client
unfolding rule_config_hash
start_forwarder r c = record c {
  forwarders =
      insert r.id (record { ref = c.next_ref; config_hash = rule_config_hash r }) c.forwarders;
  next_ref = c.next_ref + 1;
}

-- The switch of the third phase.
unfoldable pub start_rule : Rule → Client → Client
unfolding start_forwarder
start_rule r c =
    if str_eq r.type (codes "direct")
    then start_forwarder r c
    else if str_eq r.type (codes "relay")
    then if c.ws_connected then start_forwarder r c else c
    else c

unfoldable pub start_rules : List Bytes → List Rule → Client → Client
unfolding start_rule is_skipped
start_rules skip [] c = c
start_rules skip (r ∷ rules) c =
    start_rules skip rules (if is_skipped r.id skip then c else start_rule r c)

unfoldable pub apply_rules : List Rule → Client → Client
unfolding remove_old diff start_rules
apply_rules rules c =
    let (kept, stops) = remove_old rules c.forwarders in
    let (fs, skip, stops') = diff rules kept in
    start_rules skip rules (record c { forwarders = fs; stopped = c.stopped ++ (stops ++ stops') })
