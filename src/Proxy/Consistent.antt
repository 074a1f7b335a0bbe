-- ===== src/Proxy/Consistent.antt =====
-- internal/storage/proxy_group_repo.go: groups and nodes that belong together, and what the queries and
-- the writes of rows do to them.
pub mod Operations
use message_boy.Base.{
  ℕ, ◌+◌, ◌≤◌, ◌≡◌, inl, inr, refl, sym, ap, ◌∙◌, arith, Bool, true, false, ◌&&◌, ◌||◌, not,
  Bool-cases, List, [], ◌∷◌, ◌++◌, Option, none, some, Bytes, if◌then◌else◌, if_case, str_eq,
  str_eq_iff, find, find_sound, filter, update_where, insert_sorted, order_by, All, All-append,
  All-filter, All-find, All-update_where,
}
use message_boy.Proxy.{ProxyGroup, ProxyGroupNode}
use message_boy.Proxy.Tables.{
  ProxyTables, has_id, in_group, by_priority, get_by_id, save_group, delete_group, get_node,
  get_nodes_by_group_id, save_node,
}

abbrev pub present : Bytes → List ProxyGroup → Bool
present id [] = false
present id (g ∷ groups) = str_eq g.id id || present id groups

abbrev pub is_member : Bytes → Bytes → ProxyGroupNode → Bool
is_member group client n = str_eq n.group_id group && str_eq n.client_id client

abbrev pub count : Bytes → Bytes → List ProxyGroupNode → ℕ
count group client [] = 0
count group client (n ∷ nodes) =
    (if is_member group client n then 1 else 0) + count group client nodes

-- Every node belongs to a group that is there, and a client is in a group once at most.
pub record IsConsistent (db : ProxyTables) : Type 0 where
  pub placed : All (λ (n : ProxyGroupNode). present n.group_id db.groups ≡ true) db.nodes
  pub once : (group client : Bytes) → count group client db.nodes ≤ 1

pub get_by_id-present :
    (id : Bytes) (groups : List ProxyGroup) {g : ProxyGroup}
    → find (λ (x : ProxyGroup). str_eq x.id id) groups ≡ some g
    → present id groups ≡ true
unfolding find
get_by_id-present id [] e = absurd (cc)
get_by_id-present id (x ∷ groups) {g = g} e =
    let rest = get_by_id-present id groups {g = g} in ground (arith, rest)

pub present-append :
    (id : Bytes) (xs ys : List ProxyGroup) → present id xs ≡ true → present id (xs ++ ys) ≡ true
present-append id [] ys e = absurd (cc)
present-append id (x ∷ xs) ys e = let rest = present-append id xs ys in ground (arith, rest)

pub present-save_group :
    (id : Bytes) (g : ProxyGroup) (groups : List ProxyGroup)
    → present id groups ≡ true
    → present id (save_group g groups) ≡ true
unfolding save_group
present-save_group id g [] e = absurd (cc)
present-save_group id g (x ∷ groups) e =
    let rest = present-save_group id g groups in
    elim (Bool-cases (str_eq x.id g.id)) [
      | inl same ↦
          let eq = ap (λ i. str_eq i id) ((str_eq_iff x.id g.id).0 same) in
          rw same (ground (arith, eq))
      | inr other ↦ rw other (ground (arith, rest))
    ]

pub present-filter :
    (id gone : Bytes) (groups : List ProxyGroup)
    → str_eq id gone ≡ false
    → present id groups ≡ true
    → present id (filter (λ (g : ProxyGroup). not (str_eq g.id gone)) groups) ≡ true
unfolding filter
present-filter id gone [] ne e = absurd (cc)
present-filter id gone (x ∷ groups) ne e =
    let rest = present-filter id gone groups ne in
    elim (Bool-cases (str_eq x.id id)) [
      | inl same ↦
          let eq = ap (λ i. str_eq i gone) ((str_eq_iff x.id id).0 same) in ground (arith, eq, rest)
      | inr other ↦ ground (arith, rest)
    ]

pub count-append :
    (group client : Bytes) (xs ys : List ProxyGroupNode)
    → count group client (xs ++ ys) ≡ count group client xs + count group client ys
count-append group client [] ys = omega arith
count-append group client (x ∷ xs) ys =
    let rest = count-append group client xs ys in omega (arith, rest)

pub count-filter :
    (group client : Bytes) (q : ProxyGroupNode → Bool) (xs : List ProxyGroupNode)
    → count group client (filter q xs) ≤ count group client xs
unfolding filter
count-filter group client q [] = omega arith
count-filter group client q (x ∷ xs) =
    let rest = count-filter group client q xs in
    if_case (λ ys. count group client ys ≤ count group client (x ∷ xs)) (q x) _ _
      (omega (arith, rest)) (omega (arith, rest))

-- An update of rows that leaves the group and the client of a node.
pub count-update_where :
    (group client : Bytes) (q : ProxyGroupNode → Bool) (f : ProxyGroupNode → ProxyGroupNode)
    (xs : List ProxyGroupNode)
    → ((n : ProxyGroupNode) → is_member group client (f n) ≡ is_member group client n)
    → count group client (update_where q f xs) ≡ count group client xs
unfolding update_where
count-update_where group client q f [] keep = refl
count-update_where group client q f (x ∷ xs) keep =
    let rest = count-update_where group client q f xs keep in
    let own : is_member group client (if q x then f x else x) ≡ is_member group client x =
      if_case (λ n. is_member group client n ≡ is_member group client x) (q x) _ _ (keep x) refl in
    rw (own, rest) refl

pub count-save_node :
    (group client : Bytes) (n m : ProxyGroupNode) (nodes : List ProxyGroupNode)
    → find (has_id n.id) nodes ≡ some m
    → is_member group client n ≡ is_member group client m
    → count group client (save_node n nodes) ≡ count group client nodes
unfolding save_node find
count-save_node group client n m [] e same = absurd (cc)
count-save_node group client n m (x ∷ nodes) e same = elim (Bool-cases (str_eq x.id n.id)) [
  | inl hit ↦ let eq : x ≡ m = ground arith in rw (hit, same, eq) refl
  | inr other ↦
      let rest = count-save_node group client n m nodes (ground arith) same in rw (other, rest) refl
]

pub save_node-All :
    (P : ProxyGroupNode → Type 0) (n : ProxyGroupNode) (nodes : List ProxyGroupNode)
    → P n
    → All P nodes
    → All P (save_node n nodes)
unfolding save_node
save_node-All P n [] h hs = (h, tt)
save_node-All P n (x ∷ nodes) h hs =
    if_case (All P) (str_eq x.id n.id) _ _ (h, hs.1) (hs.0, save_node-All P n nodes h hs.1)
