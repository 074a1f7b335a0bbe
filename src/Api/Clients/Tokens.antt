-- ===== src/Api/Clients/Tokens.antt =====
-- internal/api/client_rpc.go with clientRegister: how the token of a client comes and goes.
use message_boy.Base.{
  ℕ, ◌+◌, ◌≡◌, inl, inr, refl, ap, ◌∙◌, arith, Bool, true, false, Bool-cases, List, [], ◌∷◌, ◌++◌,
  Option, none, some, Bytes, codes, str_eq, str_eq_refl, str_eq_iff, is_empty, find, update_where,
  All, All-find,
}
use message_boy.Storage.{ClientRow}
use message_boy.Storage.Clients
use message_boy.Hub.{Services}
use message_boy.Api.{reply, refuse_text, Config}
use message_boy.Api.Site.{Site, Outside, site_backend}
use message_boy.Api.Internal.{ClientRegisterParams, Registered, client_register, register_found}
use message_boy.Api.Clients.{CreateClientParams, encode_to_string, install_command, new_client}
use message_boy.Api.Clients.Methods.{
  generate_token, create_client, regenerate_found, regenerate_client_token,
}
use message_boy.Api.Clients.Tables.{client_backend}

find-last :
    (q : ClientRow → Bool) (c : ClientRow) (clients : List ClientRow)
    → find q clients ≡ none
    → q c ≡ true
    → find q (clients ++ c ∷ []) ≡ some c
unfolding find
find-last q c [] e h = rw h refl
find-last q c (x ∷ clients) e h = let rest = find-last q c clients in ground (arith, rest, h)

find-none :
    (q : ClientRow → Bool) (clients : List ClientRow)
    → find q clients ≡ none
    → All (λ c. q c ≡ false) clients
unfolding find
find-none q [] e = tt
find-none q (x ∷ clients) e = elim (Bool-cases (q x)) [
  | inl hit ↦ absurd (ground (arith, hit))
  | inr other ↦ (other, find-none q clients (ground (arith, other)))
]

-- The row that gets a new token is the one that is found under it.
find-new_token :
    (id token : Bytes) (clients : List ClientRow)
    → All (λ (c : ClientRow). str_eq c.token token ≡ false) clients
    → {c : ClientRow} → Clients.get_by_id id clients ≡ some c
    → Clients.get_by_token token (Clients.update_token id token clients)
      ≡ some (record c { token = token })
unfolding Clients.get_by_id Clients.get_by_token Clients.update_token find update_where
find-new_token id token [] fresh e = absurd (cc)
find-new_token id token (x ∷ clients) fresh {c = c} e = elim (Bool-cases (str_eq x.id id)) [
  | inl own ↦ let eq : x ≡ c = ground (arith, own) in rw (own, str_eq_refl token, eq) refl
  | inr other ↦
      rw (other, fresh.0) (find-new_token id token clients fresh.1 {c = c} (ground (arith, other)))
]

-- Nothing is found any more under the token that was replaced.
find-old_token :
    (id old token : Bytes) (clients : List ClientRow)
    → str_eq token old ≡ false
    → All (λ (c : ClientRow). str_eq c.token old ≡ true → str_eq c.id id ≡ true) clients
    → Clients.get_by_token old (Clients.update_token id token clients) ≡ none
unfolding Clients.get_by_token Clients.update_token find update_where
find-old_token id old token [] ne only = refl
find-old_token id old token (x ∷ clients) ne only =
    let rest = find-old_token id old token clients ne only.1 in
    elim (Bool-cases (str_eq x.id id)) [
      | inl own ↦ rw (own, ne) rest
      | inr other ↦ elim (Bool-cases (str_eq x.token old)) [
        | inl has ↦ absurd (cc (only.0 has))
        | inr free ↦ rw (other, free) rest
      ]
    ]

free_All :
    (token : Bytes) (clients : List ClientRow)
    → Clients.get_by_token token clients ≡ none
    → All (λ (c : ClientRow). str_eq c.token token ≡ false) clients
unfolding Clients.get_by_token
free_All token clients e = find-none (λ (c : ClientRow). str_eq c.token token) clients e

found_fresh :
    (id token : Bytes) (clients : List ClientRow)
    → All (λ (c : ClientRow). str_eq c.token token ≡ false) clients
    → {c : ClientRow} → Clients.get_by_id id clients ≡ some c
    → str_eq c.token token ≡ false
unfolding Clients.get_by_id
found_fresh id token clients fresh {c = c} e =
    All-find (λ (r : ClientRow). str_eq r.token token ≡ false) (Clients.has_id id) clients {x = c}
      fresh e

differs :
    (token old : Bytes) (c : ClientRow)
    → old ≡ c.token
    → str_eq c.token token ≡ false
    → str_eq token old ≡ false
differs token old c was ne = elim (Bool-cases (str_eq token old)) [
  | inr other ↦ other
  | inl same ↦
      let eq : token ≡ c.token = (str_eq_iff token old).0 same ∙ was in
      absurd (cc (ap (λ t. str_eq c.token t) eq ∙ str_eq_refl c.token))
]

-- What a client is answered that registers with the token of a row.
abbrev pub answer_for : Config → ClientRow → Registered
answer_for cfg c = record {
  client_id = c.id;
  secret_key = c.secret_key;
  ws_endpoint = cfg.external_url ++ cfg.endpoint;
  heartbeat_interval = cfg.ping_interval;
}

module _ {svc : Services} (out : Outside svc) where
  client_register_with :
      (cfg : Config) (p : ClientRegisterParams) (ip : Option Bytes) (s : Site svc) (c : ClientRow)
      → is_empty p.token ≡ false
      → Clients.get_by_token p.token s.clients ≡ some c
      → (client_register (site_backend out) cfg (some p) ip s).1 ≡ reply (answer_for cfg c)
  unfolding client_register register_found
  client_register_with cfg p ip s c sent found = rw (sent, found) refl

  client_register_without :
      (cfg : Config) (p : ClientRegisterParams) (ip : Option Bytes) (s : Site svc)
      → is_empty p.token ≡ false
      → Clients.get_by_token p.token s.clients ≡ none
      → (client_register (site_backend out) cfg (some p) ip s).1
        ≡ refuse_text (codes "invalid token")
  unfolding client_register register_found
  client_register_without cfg p ip s sent absent = rw (sent, absent) refl

module _ {svc : Services} (out : Outside svc) (contains : Bytes → Bytes → Bool) (random : ℕ → Bytes)
    (cfg : Config) where
  -- A created client can register with the token that createClient answers, where no other client has
  -- it: it is told the id that createClient answered, and the new secret.
  pub create_client_registers :
      (p : CreateClientParams) (q : ClientRegisterParams) (ip : Option Bytes) (s : Site svc)
      → is_empty p.name ≡ false
      → q.token ≡ encode_to_string (random s.drawn)
      → is_empty q.token ≡ false
      → Clients.get_by_token q.token s.clients ≡ none
      → ((create_client (client_backend contains random out) cfg (some p) s).1
          ≡ reply (record {
            id = out.uuid (s.drawn + 1 + 1);
            name = p.name;
            token = q.token;
            install_command = install_command cfg q.token;
          }))
        × ((client_register
              (site_backend out)
              cfg
              (some q)
              ip
              (create_client (client_backend contains random out) cfg (some p) s).0).1
            ≡ reply (
                answer_for cfg (
                  new_client
                    (out.uuid (s.drawn + 1 + 1))
                    q.token
                    (encode_to_string (random (s.drawn + 1)))
                    p)))
  unfolding create_client generate_token Clients.get_by_token Clients.create new_client
  create_client_registers p q ip s named same sent free =
      let id = out.uuid (s.drawn + 1 + 1) in
      let c = new_client id q.token (encode_to_string (random (s.drawn + 1))) p in
      let made : create_client (client_backend contains random out) cfg (some p) s ≡ (
        record s { clients = Clients.create c s.clients; drawn = s.drawn + 1 + 1 + 1 },
        reply (record {
          id = id;
          name = p.name;
          token = q.token;
          install_command = install_command cfg q.token;
        }),
      ) =
        rw (named, ← same, free) refl in
      (
        ap (λ x. x.1) made,
        client_register_with out cfg q ip _ c sent (
            ap (λ x. Clients.get_by_token q.token x.0.clients) made
            ∙ find-last (λ (r : ClientRow). str_eq r.token q.token) c s.clients free
                (str_eq_refl q.token)),
      )

  -- regenerateClientToken answers a new token for the client, where no client has it: a clientRegister
  -- that follows it directly is refused with the old token, and with the new one the client is told
  -- its id and secret. (The old token is the client's alone, as the index of the table sees to.)
  pub regenerate_client_token_revokes :
      (id : Bytes) (c : ClientRow) (old new : ClientRegisterParams) (ip : Option Bytes)
      (s : Site svc)
      → is_empty id ≡ false
      → Clients.get_by_id id s.clients ≡ some c
      → All (λ (r : ClientRow). str_eq r.token c.token ≡ true → str_eq r.id id ≡ true) s.clients
      → old.token ≡ c.token
      → new.token ≡ encode_to_string (random s.drawn)
      → is_empty old.token ≡ false
      → is_empty new.token ≡ false
      → Clients.get_by_token new.token s.clients ≡ none
      → ((regenerate_client_token (client_backend contains random out) cfg (some id) s).1
          ≡ reply (new.token, install_command cfg new.token))
        × ((client_register
              (site_backend out)
              cfg
              (some old)
              ip
              (regenerate_client_token (client_backend contains random out) cfg (some id) s).0).1
            ≡ refuse_text (codes "invalid token"))
        × ((client_register
              (site_backend out)
              cfg
              (some new)
              ip
              (regenerate_client_token (client_backend contains random out) cfg (some id) s).0).1
            ≡ reply (answer_for cfg c))
  unfolding regenerate_client_token regenerate_found generate_token
  regenerate_client_token_revokes id c old new ip s named found only was drew old_sent new_sent
        free =
      let clients' = Clients.update_token id new.token s.clients in
      let fresh = free_All new.token s.clients free in
      let made : regenerate_client_token (client_backend contains random out) cfg (some id) s ≡ (
        record s { clients = clients'; drawn = s.drawn + 1 },
        reply (new.token, install_command cfg new.token),
      ) =
        rw (named, found, ← drew, free) refl in
      let differ : str_eq new.token old.token ≡ false =
        differs new.token old.token c was (found_fresh id new.token s.clients fresh found) in
      (
        ap (λ x. x.1) made,
        client_register_without out cfg old ip _ old_sent (
            ap (λ x. Clients.get_by_token old.token x.0.clients) made
            ∙ find-old_token id old.token new.token s.clients differ (rw was only)),
        client_register_with out cfg new ip _ (record c { token = new.token }) new_sent
            (ap (λ x. Clients.get_by_token new.token x.0.clients) made
              ∙ find-new_token id new.token s.clients fresh found),
      )
