-- ===== src/Api/Forward/Paging.antt =====
-- internal/api/forward_rpc.go, getForwardRuleList: the pages of the list together.
use mathlib.Core.List.{reverse, reverse-cons, map-append}
use message_boy.Base.{
  ℕ, zero, suc, ◌+◌, ◌-◌, ◌*◌, ◌/◌, ◌≤◌, ◌<◌, ◌≡◌, refl, sym, ap, ◌∙◌, arith, List, [], ◌∷◌, ◌++◌,
  some, lt→ltb, le→ltb, length, length-append, take, drop, take_all, drop_all, take_nil, take-add,
  filter, map,
}
use message_boy.Storage.{ForwardRule, ForwardListParams}
use message_boy.Storage.Forwards
use message_boy.Hub.{Services}
use message_boy.Api.{rows, Reply, reply, refuse}
use message_boy.Api.Site.{Site, Outside, site_backend}
use message_boy.Api.Forward.{GetForwardRuleListParams, ListedRule, RuleList, list_params}
use message_boy.Api.Forward.Reading.{listed, get_forward_rule_list}
use message_boy.Api.Forward.Naming.{listed_rule, listed_rules-client_names}

length-reverse : {A : Type 0} (xs : List A) → length (reverse xs) ≡ length xs
length-reverse [] = refl
length-reverse (x ∷ xs) =
    ap length (reverse-cons x xs)
    ∙ length-append (reverse xs) (x ∷ [])
    ∙ (let e = length-reverse xs in omega arith)

-- Pages of the size that the division gives cover a list.
pages_cover : (total limit : ℕ) → 0 < limit → total ≤ (total + limit - 1) / limit * limit
pages_cover total limit h = grind arith

module _ {svc : Services} (out : Outside svc) where
  -- The rules of the page `n` of a list.
  abbrev pub page_of : GetForwardRuleListParams → ℕ → Site svc → List ListedRule
  page_of p n s = elim (get_forward_rule_list (site_backend out) (some (record p { page = n })) s) [
    | reply l ↦ l.rules
    | refuse e ↦ []
  ]

  -- The pages 1 to `n`, one after the other.
  abbrev pub pages_up_to : GetForwardRuleListParams → ℕ → Site svc → List ListedRule
  pages_up_to p zero s = []
  pages_up_to p (suc n) s = pages_up_to p n s ++ page_of p (suc n) s

  abbrev pub selected : GetForwardRuleListParams → Site svc → List ForwardRule
  selected p s = reverse (filter (Forwards.matches (list_params p)) s.rules)

  abbrev clamped : GetForwardRuleListParams → ℕ → ForwardListParams
  clamped p n = record {
    page = suc n;
    limit = p.limit;
    client_id = p.client_id;
    type = p.type;
    enabled = p.enabled;
  }

  list_params-clamped :
      (p : GetForwardRuleListParams) (n : ℕ)
      → 0 < p.limit
      → p.limit ≤ 100
      → list_params (record p { page = suc n }) ≡ clamped p n
  unfolding list_params
  list_params-clamped p n pos small =
      rw (lt→ltb 0 (suc n) (omega arith), lt→ltb 0 p.limit pos, le→ltb 100 p.limit small) refl

  abbrev rules_of : Reply RuleList → List ListedRule
  rules_of (reply l) = l.rules
  rules_of (refuse e) = []

  list_params_limit :
      (p : GetForwardRuleListParams) → 0 < p.limit → p.limit ≤ 100 → (list_params p).limit ≡ p.limit
  unfolding list_params
  list_params_limit p pos small = rw (lt→ltb 0 p.limit pos, le→ltb 100 p.limit small) refl

  abbrev total_of : Reply RuleList → ℕ
  total_of (reply l) = l.total
  total_of (refuse e) = 0

  abbrev pages_of : Reply RuleList → ℕ
  pages_of (reply l) = l.pages
  pages_of (refuse e) = 0

  page_of_lem :
      (p : GetForwardRuleListParams) (n : ℕ) (s : Site svc)
      → 0 < p.limit
      → p.limit ≤ 100
      → page_of p (suc n) s ≡ map (listed_rule s) (take p.limit (drop (n * p.limit) (selected p s)))
  unfolding get_forward_rule_list listed list_params Forwards.list
  page_of_lem p n s pos small =
      let back : suc n - 1 ≡ n = omega arith in
      ap (λ q. rules_of (listed (site_backend out) q (rows (Forwards.list q s.rules)) s))
        (list_params-clamped p n pos small)
      ∙ listed_rules-client_names out s (take p.limit (drop ((suc n - 1) * p.limit) (selected p s)))
      ∙ ap (λ m. map (listed_rule s) (take p.limit (drop (m * p.limit) (selected p s)))) back

  pages_up_to_lem :
      (p : GetForwardRuleListParams) (n : ℕ) (s : Site svc)
      → 0 < p.limit
      → p.limit ≤ 100
      → pages_up_to p n s ≡ map (listed_rule s) (take (n * p.limit) (selected p s))
  pages_up_to_lem p zero s pos small =
      let e : 0 * p.limit ≡ 0 = omega arith in
      ap (λ m. map (listed_rule s) (take m (selected p s))) (sym e)
  pages_up_to_lem p (suc n) s pos small =
      let e : n * p.limit + p.limit ≡ suc n * p.limit = grind arith in
      ap (λ l. l ++ page_of p (suc n) s) (pages_up_to_lem p n s pos small)
      ∙ ap (λ l. map (listed_rule s) (take (n * p.limit) (selected p s)) ++ l)
          (page_of_lem p n s pos small)
      ∙ sym (map-append (listed_rule s) (take (n * p.limit) (selected p s)) _)
      ∙ ap (map (listed_rule s)) (sym (take-add (n * p.limit) p.limit (selected p s)))
      ∙ ap (λ m. map (listed_rule s) (take m (selected p s))) e

  -- For every filter and every limit from 1 to 100, the pages that the answer counts are together
  -- all the rules that match, newest first and each once, each with the name of its client; and
  -- there is no further page.
  pub get_forward_rule_list_complete :
      (p : GetForwardRuleListParams) (l : RuleList) (s : Site svc)
      → 0 < p.limit
      → p.limit ≤ 100
      → get_forward_rule_list (site_backend out) (some p) s ≡ reply l
      → (pages_up_to p l.pages s ≡ map (listed_rule s) (selected p s))
        × (l.total ≡ length (selected p s))
        × (page_of p (suc l.pages) s ≡ [])
  unfolding get_forward_rule_list listed list_params Forwards.list
  get_forward_rule_list_complete p l s pos small e =
      let total : length (filter (Forwards.matches (list_params p)) s.rules) ≡ l.total =
        ap total_of e in
      let len : length (selected p s) ≡ l.total =
        length-reverse (filter (Forwards.matches (list_params p)) s.rules) ∙ total in
      let counted : (l.total + p.limit - 1) / p.limit ≡ l.pages =
        ap (λ t. (t + p.limit - 1) / p.limit) (sym total)
        ∙ ap (λ m. (length (filter (Forwards.matches (list_params p)) s.rules) + m - 1) / m)
            (sym (list_params_limit p pos small))
        ∙ ap pages_of e in
      let covers : length (selected p s) ≤ l.pages * p.limit =
        rw (len, ← counted) (pages_cover l.total p.limit pos) in
      (
        pages_up_to_lem p l.pages s pos small
            ∙ ap (map (listed_rule s)) (take_all (l.pages * p.limit) (selected p s) covers),
        sym len,
        page_of_lem p l.pages s pos small
            ∙ ap (λ xs. map (listed_rule s) (take p.limit xs))
                (drop_all (l.pages * p.limit) (selected p s) covers)
            ∙ ap (map (listed_rule s)) (take_nil p.limit),
      )
