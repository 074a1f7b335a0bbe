-- ===== src/Api/Clients/Tables.antt =====
-- The storage behind the methods on clients: the table of client_repo.go at the site of Api/Site, in
-- which no query fails. The unique index on the token refuses a second row with it.
use mathlib.Core.List.{reverse}
use message_boy.Base.{
  ℕ, ◌+◌, ◌-◌, ◌*◌, Bool, ◌&&◌, ◌||◌, List, Option, none, some, Bytes, codes, length, take, drop,
  filter, str_eq, is_empty, if◌then◌else◌,
}
use message_boy.Storage.{ClientRow}
use message_boy.Storage.Clients
use message_boy.Hub.{Services}
use message_boy.Api.{rows}
use message_boy.Api.Site.{Site, Outside, to_found}
use message_boy.Api.Clients.{ClientBackend}

-- `contains text search` is the `ILIKE` of the database.
abbrev pub selects : (Bytes → Bytes → Bool) → Bytes → Bytes → ClientRow → Bool
selects contains search status c =
    (is_empty search || (contains c.name search || contains c.description search))
    && (is_empty status || str_eq c.status status)

unfoldable pub list :
    (Bytes → Bytes → Bool) → ℕ → ℕ → Bytes → Bytes → Clients.Clients → List ClientRow × ℕ
list contains page limit search status clients =
    let matching = filter (selects contains search status) clients in
    (take limit (drop ((page - 1) * limit) (reverse matching)), length matching)

module _ {svc : Services} where
  -- A row is created unless its token is taken.
  abbrev pub created : ClientRow → Option ClientRow → Site svc → Site svc × Option Bytes
  created c none s = (record s { clients = Clients.create c s.clients }, none)
  created c (some other) s = (s, some (codes "duplicate key value violates unique constraint"))

  -- A token is written unless another row has it.
  abbrev pub written_token : Bytes → Bytes → Option ClientRow → Site svc → Site svc × Option Bytes
  written_token id token none s =
      (record s { clients = Clients.update_token id token s.clients }, none)
  written_token id token (some other) s =
      if str_eq other.id id
      then (record s { clients = Clients.update_token id token s.clients }, none)
      else (s, some (codes "duplicate key value violates unique constraint"))

  -- `random` answers the bytes of the n-th draw.
  abbrev pub client_backend : (Bytes → Bytes → Bool) → (ℕ → Bytes) → Outside svc → ClientBackend
  client_backend contains random out = record {
    State = Site svc;
    new_id = λ s. (record s { drawn = s.drawn + 1 }, out.uuid s.drawn);
    random_bytes = λ s. (record s { drawn = s.drawn + 1 }, random s.drawn);
    client_by_id = λ id s. to_found (Clients.get_by_id id s.clients);
    list_clients =
        λ page limit search status s. rows (list contains page limit search status s.clients);
    create_client = λ c s. created c (Clients.get_by_token c.token s.clients) s;
    update_client = λ c s. (record s { clients = Clients.update c s.clients }, none);
    delete_client = λ id s. (record s { clients = Clients.delete_client id s.clients }, none);
    update_token = λ id token s. written_token id token (Clients.get_by_token token s.clients) s;
  }
