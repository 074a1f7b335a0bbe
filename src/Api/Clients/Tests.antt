-- ===== src/Api/Clients/Tests.antt =====
-- The tokens of clients at the site of the tests of Api.
use message_boy.Base.{
  ℕ, ◌≡◌, refl, Bool, [], ◌∷◌, none, some, Bytes, codes, str_eq, is_empty, bytes_eq, find,
}
use message_boy.Storage.Clients
use message_boy.Api.{reply, refuse_text, Config}
use message_boy.Api.Tests.{site, outside, row}
use message_boy.Api.Site.{site_backend}
use message_boy.Api.Internal.{ClientRegisterParams, client_register}
use message_boy.Api.Clients.{CreateClientParams, encode_to_string, install_command, new_client}
use message_boy.Api.Clients.Methods.{create_client, regenerate_client_token}
use message_boy.Api.Clients.Tables.{client_backend}
use message_boy.Api.Clients.Tokens.{
  answer_for, create_client_registers, regenerate_client_token_revokes,
}

abbrev contains : Bytes → Bytes → Bool
contains text search = str_eq text search

abbrev random : ℕ → Bytes
random n = 171 ∷ n ∷ []

abbrev config : Config
config = record {
  external_url = codes "https://m";
  install_script_url = codes "https://m/install.sh";
  endpoint = codes "/ws";
  ping_interval = 30;
}

abbrev carol : CreateClientParams
carol = record {
  name = codes "carol";
  description = [];
  relay_ip = [];
  ssh_host = [];
  ssh_port = 0;
  ssh_user = [];
  ssh_password = [];
  ssh_key_path = [];
}

abbrev registration : Bytes → ClientRegisterParams
registration token = record {
  token = token;
  hostname = codes "host";
  version = codes "2";
  relay_ip = [];
  report_ip = [];
}

create_client_registers_example :
    ((create_client (client_backend contains random outside) config (some carol) site).1
      ≡ reply (record {
        id = codes "id";
        name = codes "carol";
        token = codes "ab00";
        install_command = install_command config (codes "ab00");
      }))
    × ((client_register
          (site_backend outside)
          config
          (some (registration (codes "ab00")))
          none
          (create_client (client_backend contains random outside) config (some carol) site).0).1
        ≡ reply (answer_for config (new_client (codes "id") (codes "ab00") (codes "ab01") carol)))
unfolding is_empty encode_to_string Clients.get_by_token find str_eq
create_client_registers_example =
    create_client_registers outside contains random config carol (registration (codes "ab00")) none
      site refl refl refl refl

regenerate_client_token_revokes_example :
    ((regenerate_client_token
        (client_backend contains random outside)
        config
        (some (codes "c1"))
        site).1
      ≡ reply (codes "ab00", install_command config (codes "ab00")))
    × ((client_register
          (site_backend outside)
          config
          (some (registration (codes "c1")))
          none
          (regenerate_client_token
            (client_backend contains random outside)
            config
            (some (codes "c1"))
            site).0).1
        ≡ refuse_text (codes "invalid token"))
    × ((client_register
          (site_backend outside)
          config
          (some (registration (codes "ab00")))
          none
          (regenerate_client_token
            (client_backend contains random outside)
            config
            (some (codes "c1"))
            site).0).1
        ≡ reply (answer_for config (row (codes "c1"))))
unfolding is_empty encode_to_string Clients.get_by_token Clients.get_by_id find str_eq
regenerate_client_token_revokes_example =
    regenerate_client_token_revokes outside contains random config (codes "c1") (row (codes "c1"))
      (registration (codes "c1")) (registration (codes "ab00")) none site refl refl
      ((λ e. refl), ((λ e. e), tt)) refl refl refl refl refl
