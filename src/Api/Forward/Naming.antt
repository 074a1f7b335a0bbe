-- ===== src/Api/Forward/Naming.antt =====
-- internal/api/forward_rpc.go, getForwardRuleList: the map of client names, which is filled once for a
-- client, agrees with a query for each rule.
use message_boy.Base.{
  ◌≡◌, ◌⊎◌, inl, inr, refl, arith, false, Bool-cases, Option-cases, List, [], ◌∷◌, Option, none,
  some, Bytes, Map, bytes_eq, lookup, insert, lookup-insert, str_eq, str_eq_iff, str_eq_refl, All,
  map,
}
use message_boy.Storage.{ForwardRule, ClientRow}
use message_boy.Storage.Clients
use message_boy.Hub.{Services}
use message_boy.Api.Site.{Site, Outside, site_backend}
use message_boy.Api.Forward.{ListedRule, shown}
use message_boy.Api.Forward.Reading.{name_in, listed_rules, with_name, client_names}

abbrev pub name_of : {svc : Services} → Site svc → Bytes → Bytes
name_of s client = elim (Clients.get_by_id client s.clients) [ none ↦ [] | some c ↦ c.name ]

-- A rule with the name that its client has in the table.
abbrev pub listed_rule : {svc : Services} → Site svc → ForwardRule → ListedRule
listed_rule s r = record { rule = shown r; listen_client_name = name_of s r.listen_client }

module _ {svc : Services} (out : Outside svc) (s : Site svc) where
  -- The map answers for the client what the table does.
  abbrev IsRight : Bytes → Map Bytes Bytes → Type 0
  IsRight k names = name_in names k ≡ name_of s k

  abbrev IsSound : Bytes → Map Bytes Bytes → Type 0
  IsSound k names = (lookup k names ≡ none) ⊎ IsRight k names

  -- The map after a query for `j`.
  abbrev queried : Bytes → Option ClientRow → Map Bytes Bytes → Map Bytes Bytes
  queried j none names = names
  queried j (some c) names = insert j c.name names

  with_name-queried :
      (j : Bytes) (names : Map Bytes Bytes)
      → lookup j names ≡ none
      → with_name (site_backend out) j names s ≡ queried j (Clients.get_by_id j s.clients) names
  unfolding with_name
  with_name-queried j names e = elim (Option-cases (Clients.get_by_id j s.clients)) [
    | inl unknown ↦ ground arith
    | inr (c, known) ↦ ground arith
  ]

  with_name_known :
      (j name : Bytes) (names : Map Bytes Bytes)
      → lookup j names ≡ some name
      → with_name (site_backend out) j names s ≡ names
  unfolding with_name
  with_name_known j name names e = ground arith

  queried-IsRight :
      (j k : Bytes) (o : Option ClientRow) (names : Map Bytes Bytes)
      → Clients.get_by_id j s.clients ≡ o
      → IsRight k names
      → IsRight k (queried j o names)
  queried-IsRight j k none names e h = h
  queried-IsRight j k (some c) names e h =
      ground (arith, lookup-insert j k c.name names, str_eq_iff j k)

  queried_own :
      (k : Bytes) (o : Option ClientRow) (names : Map Bytes Bytes)
      → Clients.get_by_id k s.clients ≡ o
      → lookup k names ≡ none
      → IsRight k (queried k o names)
  queried_own k none names e h = ground arith
  queried_own k (some c) names e h = ground (arith, lookup-insert k k c.name names, str_eq_refl k)

  queried_other :
      (j k : Bytes) (o : Option ClientRow) (names : Map Bytes Bytes)
      → str_eq j k ≡ false
      → lookup k names ≡ none
      → lookup k (queried j o names) ≡ none
  queried_other j k none names ne h = h
  queried_other j k (some c) names ne h = rw (lookup-insert j k c.name names, ne) h

  with_name-IsRight :
      (j k : Bytes) (names : Map Bytes Bytes)
      → IsRight k names
      → IsRight k (with_name (site_backend out) j names s)
  with_name-IsRight j k names h = elim (Option-cases (lookup j names)) [
    | inl fresh ↦ rw (with_name-queried j names fresh) (queried-IsRight j k _ names refl h)
    | inr (name, e) ↦ rw (with_name_known j name names e) h
  ]

  -- A query for a client makes the map right for it.
  with_name_own :
      (k : Bytes) (names : Map Bytes Bytes)
      → IsSound k names
      → IsRight k (with_name (site_backend out) k names s)
  with_name_own k names (inl fresh) =
      rw (with_name-queried k names fresh) (queried_own k _ names refl fresh)
  with_name_own k names (inr right) = with_name-IsRight k k names right

  with_name-IsSound :
      (j k : Bytes) (names : Map Bytes Bytes)
      → IsSound k names
      → IsSound k (with_name (site_backend out) j names s)
  with_name-IsSound j k names (inr right) = inr (with_name-IsRight j k names right)
  with_name-IsSound j k names (inl fresh) = elim (Bool-cases (str_eq j k)) [
    | inl same ↦ let eq = (str_eq_iff j k).0 same in inr (rw eq (with_name_own k names (inl fresh)))
    | inr other ↦ elim (Option-cases (lookup j names)) [
      | inl new ↦ inl (rw (with_name-queried j names new) (queried_other j k _ names other fresh))
      | inr (name, e) ↦ inl (rw (with_name_known j name names e) fresh)
    ]
  ]

  client_names-IsRight :
      (k : Bytes) (rules : List ForwardRule) (names : Map Bytes Bytes)
      → IsRight k names
      → IsRight k (client_names (site_backend out) rules names s)
  unfolding client_names
  client_names-IsRight k [] names h = h
  client_names-IsRight k (r ∷ rules) names h =
      client_names-IsRight k rules (with_name (site_backend out) r.listen_client names s)
        (with_name-IsRight r.listen_client k names h)

  client_names-AllRight :
      (rules : List ForwardRule) (names : Map Bytes Bytes)
      → ((k : Bytes) → IsSound k names)
      → All
          (λ (r : ForwardRule).
            IsRight r.listen_client (client_names (site_backend out) rules names s))
          rules
  unfolding client_names
  client_names-AllRight [] names h = tt
  client_names-AllRight (r ∷ rules) names h =
      let names' = with_name (site_backend out) r.listen_client names s in
      (
        client_names-IsRight r.listen_client rules names'
            (with_name_own r.listen_client names (h r.listen_client)),
        client_names-AllRight rules names' (λ k. with_name-IsSound r.listen_client k names (h k)),
      )

  listed_rules-right :
      (names : Map Bytes Bytes) (rules : List ForwardRule)
      → All (λ (r : ForwardRule). IsRight r.listen_client names) rules
      → listed_rules names rules ≡ map (listed_rule s) rules
  unfolding listed_rules
  listed_rules-right names [] h = refl
  listed_rules-right names (r ∷ rules) h =
      let rest = listed_rules-right names rules h.1 in let own = h.0 in ground arith

  -- The rows of the answer are the rules with the names that their clients have.
  pub listed_rules-client_names :
      (rules : List ForwardRule)
      → listed_rules (client_names (site_backend out) rules [] s) rules ≡ map (listed_rule s) rules
  unfolding lookup
  listed_rules-client_names rules =
      listed_rules-right _ rules (client_names-AllRight rules [] (λ k. inl refl))
