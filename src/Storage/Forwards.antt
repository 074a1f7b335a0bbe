-- ===== src/Storage/Forwards.antt =====
-- internal/storage/forward_repo.go over the rows of the table.
use mathlib.Core.List.{reverse}
use message_boy.Base.{
  ℕ, ◌-◌, ◌*◌, Bool, true, false, ◌&&◌, ◌||◌, not, List, [], ◌∷◌, ◌++◌, Option, none, some, Bytes,
  if◌then◌else◌, length, take, drop, find, filter, update_where, str_eq, is_empty,
}
use message_boy.Storage.{ForwardRule, ForwardListParams, rule_status_pending}

abbrev pub Rules : Type 0
Rules = List ForwardRule

abbrev pub has_id : Bytes → ForwardRule → Bool
has_id id r = str_eq r.id id

unfoldable pub create : ForwardRule → Rules → Rules
create r rules = rules ++ r ∷ []

unfoldable pub get_by_id : Bytes → Rules → Option ForwardRule
get_by_id id rules = find (has_id id) rules

-- `Save` writes the whole row of the id, and inserts the row if there is none.
unfoldable pub update : ForwardRule → Rules → Rules
update r [] = r ∷ []
update r (x ∷ rules) = if str_eq x.id r.id then r ∷ rules else x ∷ update r rules

unfoldable pub delete_rule : Bytes → Rules → Rules
delete_rule id rules = filter (λ (r : ForwardRule). not (str_eq r.id id)) rules

abbrev pub same_bool : Bool → Bool → Bool
same_bool true b = b
same_bool false b = not b

abbrev pub matches_enabled : Option Bool → Bool → Bool
matches_enabled none b = true
matches_enabled (some e) b = same_bool e b

-- The conditions that `List` adds for the parameters that are there.
abbrev pub matches : ForwardListParams → ForwardRule → Bool
matches p r =
    (is_empty p.client_id || str_eq r.listen_client p.client_id)
    && ((is_empty p.type || str_eq r.type p.type) && matches_enabled p.enabled r.enabled)

-- "created_at DESC", and the window of the page.
unfoldable pub list : ForwardListParams → Rules → List ForwardRule × ℕ
list p rules =
    let found = reverse (filter (matches p) rules) in
    (take p.limit (drop ((p.page - 1) * p.limit) found), length (filter (matches p) rules))

abbrev pub runs_on : Bytes → ForwardRule → Bool
runs_on client r = str_eq r.listen_client client && r.enabled

unfoldable pub get_by_client_id : Bytes → Rules → List ForwardRule
get_by_client_id client rules = filter (runs_on client) rules

unfoldable pub toggle_enabled : Bytes → Bool → Rules → Rules
toggle_enabled id e rules =
    update_where (has_id id) (λ (r : ForwardRule). record r { enabled = e }) rules

abbrev pub with_status : Bytes → Bytes → ForwardRule → ForwardRule
with_status status error r = record r { status = status; last_error = error }

unfoldable pub update_status : Bytes → Bytes → Bytes → Rules → Rules
update_status id status error rules = update_where (has_id id) (with_status status error) rules

unfoldable pub reset_status_by_client_id : Bytes → Rules → Rules
reset_status_by_client_id client rules =
    update_where (λ (r : ForwardRule). str_eq r.listen_client client)
      (with_status rule_status_pending []) rules
