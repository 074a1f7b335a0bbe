-- ===== src/Storage/Clients.antt =====
-- internal/storage/client_repo.go over the rows of the table.
use message_boy.Base.{
  Bool, not, List, [], ◌∷◌, ◌++◌, Option, Bytes, if◌then◌else◌, find, filter, update_where, str_eq,
}
use message_boy.Storage.{ClientRow}

abbrev pub Clients : Type 0
Clients = List ClientRow

abbrev pub has_id : Bytes → ClientRow → Bool
has_id id c = str_eq c.id id

unfoldable pub create : ClientRow → Clients → Clients
create c clients = clients ++ c ∷ []

unfoldable pub get_by_id : Bytes → Clients → Option ClientRow
get_by_id id clients = find (has_id id) clients

unfoldable pub get_by_token : Bytes → Clients → Option ClientRow
get_by_token token clients = find (λ (c : ClientRow). str_eq c.token token) clients

-- `Save` writes the whole row of the id, and inserts the row if there is none.
unfoldable pub update : ClientRow → Clients → Clients
update c [] = c ∷ []
update c (x ∷ clients) = if str_eq x.id c.id then c ∷ clients else x ∷ update c clients

unfoldable pub delete_client : Bytes → Clients → Clients
delete_client id clients = filter (λ (c : ClientRow). not (str_eq c.id id)) clients

unfoldable pub update_status : Bytes → Bytes → Bytes → Clients → Clients
update_status id status ip clients =
    update_where (has_id id) (λ (c : ClientRow). record c { status = status; last_ip = ip }) clients

unfoldable pub update_token : Bytes → Bytes → Clients → Clients
update_token id token clients =
    update_where (has_id id) (λ (c : ClientRow). record c { token = token }) clients
