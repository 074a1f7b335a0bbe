-- ===== src/Api/Clients/Methods.antt =====
-- internal/api/client_rpc.go: the bodies of the methods.
use message_boy.Base.{Option, none, some, Bytes, codes, if◌then◌else◌, is_empty}
use message_boy.Storage.{ClientRow}
use message_boy.Api.{Reply, reply, refuse, refuse_text, need, Config}
use message_boy.Api.Clients.{
  ClientBackend, CreateClientParams, UpdateClientParams, GetClientListParams, CreatedClient,
  ClientList, encode_to_string, install_command, new_client, with_client_params, shown_client,
  client_list_params, client_page, answered,
}

module _ (b : ClientBackend) where
  -- `generateToken` and `generateSecretKey`.
  unfoldable pub generate_token : b.State → b.State × Bytes
  unfolding encode_to_string
  generate_token s = let (s', bytes) = b.random_bytes s in (s', encode_to_string bytes)

  unfoldable pub create_client :
      Config → Option CreateClientParams → b.State → b.State × Reply CreatedClient
  unfolding generate_token answered new_client install_command
  create_client cfg none s = (s, refuse_text (codes "invalid params"))
  create_client cfg (some p) s =
      let (s1, token) = generate_token s in
      let (s2, secret) = generate_token s1 in
      let (s3, id) = b.new_id s2 in
      if is_empty p.name
      then (s, refuse_text (codes "name is required"))
      else answered (codes "failed to create client: ")
          (record {
            id = id;
            name = p.name;
            token = token;
            install_command = install_command cfg token;
          })
          (b.create_client (new_client id token secret p) s3)

  unfoldable pub get_client_list : Option GetClientListParams → b.State → Reply ClientList
  unfolding client_page client_list_params
  get_client_list none s = refuse_text (codes "invalid params")
  get_client_list (some p) s =
      let q = client_list_params p in
      client_page q (b.list_clients q.page q.limit q.search q.status s)

  abbrev pub show_client : Reply ClientRow → Reply ClientRow
  show_client (refuse e) = refuse e
  show_client (reply c) = reply (shown_client c)

  unfoldable pub get_client : Option Bytes → b.State → Reply ClientRow
  get_client none s = refuse_text (codes "invalid params")
  get_client (some id) s =
      if is_empty id
      then refuse_text (codes "id is required")
      else show_client
          (need (codes "client not found") (codes "failed to get client: ") (b.client_by_id id s))

  unfoldable pub update_client_found :
      UpdateClientParams → Reply ClientRow → b.State → b.State × Reply Unit
  unfolding answered with_client_params
  update_client_found p (refuse e) s = (s, refuse e)
  update_client_found p (reply c) s =
      answered (codes "failed to update client: ") tt (b.update_client (with_client_params p c) s)

  unfoldable pub update_client : Option UpdateClientParams → b.State → b.State × Reply Unit
  unfolding update_client_found
  update_client none s = (s, refuse_text (codes "invalid params"))
  update_client (some p) s =
      if is_empty p.id
      then (s, refuse_text (codes "id is required"))
      else update_client_found p
          (need (codes "client not found") (codes "failed to get client: ") (b.client_by_id p.id s))
          s

  -- The rules and the nodes of the client are left as they are.
  unfoldable pub delete_client : Option Bytes → b.State → b.State × Reply Unit
  unfolding answered
  delete_client none s = (s, refuse_text (codes "invalid params"))
  delete_client (some id) s =
      if is_empty id
      then (s, refuse_text (codes "id is required"))
      else answered (codes "failed to delete client: ") tt (b.delete_client id s)

  unfoldable pub regenerate_found :
      Config → Bytes → Reply ClientRow → b.State → b.State × Reply (Bytes × Bytes)
  unfolding generate_token answered install_command
  regenerate_found cfg id (refuse e) s = (s, refuse e)
  regenerate_found cfg id (reply c) s =
      let (s', token) = generate_token s in
      answered (codes "failed to update token: ") (token, install_command cfg token)
        (b.update_token id token s')

  unfoldable pub regenerate_client_token :
      Config → Option Bytes → b.State → b.State × Reply (Bytes × Bytes)
  unfolding regenerate_found
  regenerate_client_token cfg none s = (s, refuse_text (codes "invalid params"))
  regenerate_client_token cfg (some id) s =
      if is_empty id
      then (s, refuse_text (codes "id is required"))
      else regenerate_found cfg id
          (need (codes "client not found") (codes "failed to get client: ") (b.client_by_id id s)) s

  abbrev pub command_of : Config → Reply ClientRow → Reply Bytes
  command_of cfg (refuse e) = refuse e
  command_of cfg (reply c) = reply (install_command cfg c.token)

  unfoldable pub get_client_install_command : Config → Option Bytes → b.State → Reply Bytes
  get_client_install_command cfg none s = refuse_text (codes "invalid params")
  get_client_install_command cfg (some id) s =
      if is_empty id
      then refuse_text (codes "id is required")
      else command_of cfg
          (need (codes "client not found") (codes "failed to get client: ") (b.client_by_id id s))
