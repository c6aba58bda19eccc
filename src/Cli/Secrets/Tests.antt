-- ===== src/Cli/Secrets/Tests.antt =====
-- A secret that is set, listed and deleted.
use santokit.Base.{
  ℕ, ◌≡◌, refl, Bool, true, false, Option, none, some, List, [], ◌∷◌, contains, if◌then◌else◌, Text,
  lit, ◌==◌, lookup, insert, delete, keys, Result, ok,
}
use santokit.Base
use santokit.Base.Strings.{trim_space, to_lower, has_prefix}
use santokit.Base.Encoding.{encode}
use santokit.Vault
use santokit.Vault.{encrypt}
use santokit.Vault.Memory
use santokit.Vault.Memory.{repository-IsKeyed}
use santokit.Api.Auth.{AuthEnv, auth_middleware}
use santokit.Api.Hub.{Hub}
use santokit.Api.Hub.Handlers.{
  serve, dispatch, handle_set_secret, handle_list_secrets, handle_delete_secret,
}
use santokit.Api.Tests.{deps, hub, request}
use santokit.Cli.Client.{
  ClientConfig, headers, set_secret_at, list_secrets_at, delete_reached, delete_secret_at,
}
use santokit.Cli.Client.Laws.{connect}
use santokit.Cli.Configs.{project_of}
use santokit.Cli.Secrets.{secret_set_command, secret_list_command, secret_delete_command}
use santokit.Cli.Secrets.Laws.{secret_list-secret_set, secret_list-secret_delete}

abbrev client : ClientConfig
client = record { hub_url = lit "http://a"; token = []; project_id = lit "shop" }

abbrev open_hub : AuthEnv
open_hub = record { mode = []; disable_auth = lit "true" }

secrets : Unit {0}
unfolding secret_set_command secret_list_command secret_delete_command set_secret_at list_secrets_at
    delete_secret_at delete_reached serve dispatch handle_set_secret handle_list_secrets
    handle_delete_secret Vault.set Vault.list Vault.delete encrypt encode Memory.set Memory.list
    Memory.delete lookup insert keys Base.delete ◌==◌ trim_space to_lower headers auth_middleware
    project_of has_prefix
secrets = tt

abbrev with_url : Hub deps
with_url =
    (secret_set_command (connect deps (lit "secret") open_hub (request [] [])) client hub []
      (lit "url") (lit "pg://")).0

set_test :
    (secret_set_command
      (connect deps (lit "secret") open_hub (request [] []))
      client
      hub
      []
      (lit "url")
      (lit "pg://")).1
    ≡ ok tt
unfolding secrets
set_test = refl

list_test :
    (secret_list_command
      (connect deps (lit "secret") open_hub (request [] []))
      client
      with_url
      []).1
    ≡ ok (lit "url" ∷ [])
unfolding secrets
list_test = refl

-- What a URL makes of two keys: the text behind a question mark is the query.
abbrev key_in : Text → Option Text
key_in typed =
    if typed == lit "url"
    then some typed
    else if typed == lit "url?x"
    then some (lit "url")
    else none

delete_test :
    (secret_delete_command
      (connect deps (lit "secret") open_hub (request [] []))
      client
      with_url
      key_in
      []
      (lit "url?x")).1
    ≡ ok tt
unfolding secrets
delete_test = refl

empty_test :
    (secret_list_command
      (connect deps (lit "secret") open_hub (request [] []))
      client
      (secret_delete_command
        (connect deps (lit "secret") open_hub (request [] []))
        client
        with_url
        key_in
        []
        (lit "url?x")).0
      []).1
    ≡ ok []
unfolding secrets
empty_test = refl

secret_list-secret_set_example : contains (lit "url") (lit "url" ∷ []) ≡ true
unfolding secrets
secret_list-secret_set_example =
    secret_list-secret_set deps repository-IsKeyed (lit "secret") open_hub (request [] []) client
      (lit "local") (lit "shop") [] refl refl hub (lit "url") (lit "url" ∷ []) (lit "pg://")
      set_test list_test

secret_list-secret_delete_example : contains (lit "url") [] ≡ false
unfolding secrets
secret_list-secret_delete_example =
    secret_list-secret_delete deps repository-IsKeyed (lit "secret") open_hub (request [] []) client
      (lit "local") (lit "shop") [] refl refl with_url (lit "url") [] key_in (lit "url?x") refl
      delete_test empty_test
