-- ===== src/Proxy/RelayChain.antt =====
-- internal/api/client_internal_rpc.go, resolveRelayChain: names of groups in a rule's relay chain are
-- replaced by their ids before a client gets the rule.
use message_boy.Base.{
  suc, ◌≡◌, refl, sym, ap, ◌∙◌, inl, inr, Bool, true, false, List, [], ◌∷◌, Option, none, some,
  arith, Bytes, if◌then◌else◌, Bool-cases, length, str_eq, str_eq_iff, str_eq_refl, find,
}
use message_boy.Proxy.{ProxyGroup}
use message_boy.Proxy.Balancer.{is_group_reference, parse_group_reference}
use message_boy.Proxy.Tables.{ProxyTables, get_by_id, get_by_name}

unfoldable pub resolve_name : Bytes → Bytes → ProxyTables → Bytes
resolve_name ref item db = elim (get_by_name ref db) [ none ↦ item | some g ↦ b'@' ∷ g.id ]

unfoldable pub resolve_ref : Bytes → Bytes → ProxyTables → Bytes
unfolding resolve_name
resolve_ref ref item db = elim (get_by_id ref db) [
  | none ↦ resolve_name ref item db
  | some g ↦ b'@' ∷ g.id
]

unfoldable pub resolve_item : ProxyTables → Bytes → Bytes
unfolding resolve_ref
resolve_item db item =
    if is_group_reference item then resolve_ref (parse_group_reference item) item db else item

unfoldable pub resolve_relay_chain : ProxyTables → List Bytes → List Bytes
unfolding resolve_item
resolve_relay_chain db [] = []
resolve_relay_chain db (item ∷ chain) = resolve_item db item ∷ resolve_relay_chain db chain

-- A row that one query finds is found by its id, up to rows of the same id.
find_by_id :
    (q : ProxyGroup → Bool) (gs : List ProxyGroup) (g : ProxyGroup)
    → find q gs ≡ some g
    → (g' : ProxyGroup) × (find (λ (x : ProxyGroup). str_eq x.id g.id) gs ≡ some g')
      × (g'.id ≡ g.id)
unfolding find
find_by_id q [] g e = absurd (cc)
find_by_id q (x ∷ xs) g e = elim (Bool-cases (str_eq x.id g.id)) [
  | inl same ↦ (x, rw same refl, (str_eq_iff x.id g.id).0 same)
  | inr other ↦
      let rest : find q xs ≡ some g = ground (arith, str_eq_refl g.id) in
      let (g', found, eq) = find_by_id q xs g rest in (g', rw other found, eq)
]

-- The id of a group is resolved to itself.
resolve_id :
    (db : ProxyTables) (g : ProxyGroup) (q : ProxyGroup → Bool)
    → find q db.groups ≡ some g
    → resolve_item db (b'@' ∷ g.id) ≡ b'@' ∷ g.id
unfolding resolve_item resolve_ref parse_group_reference get_by_id
resolve_id db g q e =
    let (g', found, same) = find_by_id q db.groups g e in
    elim (Bool-cases (is_group_reference (b'@' ∷ g.id))) [
      | inl group ↦ rw (group, found, resolve_ref) (ap (λ i. b'@' ∷ i) same)
      | inr plain ↦ rw plain refl
    ]

resolve_item_idem :
    (db : ProxyTables) (item : Bytes)
    → resolve_item db (resolve_item db item) ≡ resolve_item db item
unfolding resolve_item resolve_ref resolve_name get_by_id get_by_name
resolve_item_idem db item = elim (Bool-cases (is_group_reference item)) [
  | inr plain ↦ ap (resolve_item db) (resolve_plain plain)
  | inl group ↦ by_id (get_by_id ref db) (get_by_name ref db) refl refl group
]
  where
    ref : Bytes
    ref = parse_group_reference item

    resolve_plain : is_group_reference item ≡ false → resolve_item db item ≡ item
    resolve_plain plain = rw (plain, resolve_item) refl

    keep :
        (x : Bytes)
        → resolve_item db item ≡ x
        → resolve_item db x ≡ x
        → resolve_item db (resolve_item db item) ≡ resolve_item db item
    keep x e h = ap (resolve_item db) e ∙ h ∙ sym e

    by_id :
        (o n : Option ProxyGroup)
        → get_by_id ref db ≡ o
        → get_by_name ref db ≡ n
        → is_group_reference item ≡ true
        → resolve_item db (resolve_item db item) ≡ resolve_item db item
    by_id (some g) n e f group =
        keep (b'@' ∷ g.id) (rw (group, resolve_item, e, resolve_ref) refl)
          (resolve_id db g (λ (x : ProxyGroup). str_eq x.id ref) e)
    by_id none (some g) e f group =
        keep (b'@' ∷ g.id) (rw (group, resolve_item, e, resolve_ref, f, resolve_name) refl)
          (resolve_id db g (λ (x : ProxyGroup). str_eq x.name ref) f)
    by_id none none e f group =
        let same : resolve_item db item ≡ item =
          rw (group, resolve_item, e, resolve_ref, f, resolve_name) refl in
        keep item same same

-- Resolving a chain keeps its length, and a chain that is resolved stays as it is: group ids are not
-- taken for names afterwards, whatever the groups are called.
pub resolve_relay_chain_idem :
    (db : ProxyTables) (chain : List Bytes)
    → (resolve_relay_chain db (resolve_relay_chain db chain) ≡ resolve_relay_chain db chain)
      × (length (resolve_relay_chain db chain) ≡ length chain)
unfolding resolve_relay_chain
resolve_relay_chain_idem db [] = (refl, refl)
resolve_relay_chain_idem db (item ∷ chain) =
    let (idem, len) = resolve_relay_chain_idem db chain in
    let item_idem = resolve_item_idem db item in (cc, ap suc len)
