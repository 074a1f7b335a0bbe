-- ===== src/Api/Forward/Reading.antt =====
-- internal/api/forward_rpc.go: getForwardRule and getForwardRuleList.
use message_boy.Base.{
  ℕ, ◌+◌, ◌-◌, ◌/◌, List, [], ◌∷◌, ◌++◌, Option, none, some, Bytes, codes, if◌then◌else◌, Map,
  bytes_eq, lookup, insert, is_empty,
}
use message_boy.Storage.{ForwardRule, ForwardListParams}
use message_boy.Api.{
  found, missing, broken, Rows, rows, no_rows, Reply, reply, refuse, refuse_text, need, Backend,
}
use message_boy.Api.Forward.{GetForwardRuleListParams, ListedRule, RuleList, shown, list_params}

-- One rule is shown without its status.
abbrev pub show_rule : Reply ForwardRule → Reply ForwardRule
show_rule (refuse e) = refuse e
show_rule (reply r) = reply (record (shown r) { status = []; last_error = [] })

-- An entry that is not in the map reads as the empty name.
abbrev pub name_in : Map Bytes Bytes → Bytes → Bytes
name_in names client = elim (lookup client names) [ none ↦ [] | some name ↦ name ]

unfoldable pub listed_rules : Map Bytes Bytes → List ForwardRule → List ListedRule
listed_rules names [] = []
listed_rules names (r ∷ rules) =
    record { rule = shown r; listen_client_name = name_in names r.listen_client }
    ∷ listed_rules names rules

module _ (b : Backend) where
  unfoldable pub get_forward_rule : Option Bytes → b.State → Reply ForwardRule
  get_forward_rule none s = refuse_text (codes "invalid params")
  get_forward_rule (some id) s =
      if is_empty id
      then refuse_text (codes "id is required")
      else show_rule
          (need (codes "rule not found") (codes "failed to get rule: ") (b.rule_by_id id s))

  -- A client that cannot be read gets no entry.
  unfoldable pub with_name : Bytes → Map Bytes Bytes → b.State → Map Bytes Bytes
  with_name client names s = elim (lookup client names) [
    | some name ↦ names
    | none ↦ elim (b.client_by_id client s) [
      | found c ↦ insert client c.name names
      | missing ↦ names
      | broken e ↦ names
    ]
  ]

  unfoldable pub client_names : List ForwardRule → Map Bytes Bytes → b.State → Map Bytes Bytes
  unfolding with_name
  client_names [] names s = names
  client_names (r ∷ rules) names s = client_names rules (with_name r.listen_client names s) s

  unfoldable pub listed : ForwardListParams → Rows (List ForwardRule × ℕ) → b.State → Reply RuleList
  unfolding client_names listed_rules
  listed p (no_rows e) s = refuse_text (codes "failed to get rule list: " ++ e)
  listed p (rows (rules, total)) s = reply (record {
    rules = listed_rules (client_names rules [] s) rules;
    total = total;
    page = p.page;
    limit = p.limit;
    pages = (total + p.limit - 1) / p.limit;
  })

  unfoldable pub get_forward_rule_list : Option GetForwardRuleListParams → b.State → Reply RuleList
  unfolding listed list_params
  get_forward_rule_list none s = refuse_text (codes "invalid params")
  get_forward_rule_list (some p) s = listed (list_params p) (b.list_rules (list_params p) s) s
