-- ===== src/Cli/Schemas/Tests.antt =====
-- `schema apply` and `schema plan` of one file against a hub.
use santokit.Base.{
  ◌≡◌, refl, true, Option, some, List, [], ◌∷◌, Text, lit, ◌==◌, lookup, insert, delete, Result, ok,
}
use santokit.Base.Strings.{trim_space, to_lower, has_prefix}
use santokit.Base.Strings.Search.{trim_left}
use santokit.Base.Encoding.{decode}
use santokit.Base.Paths.{ext, base}
use santokit.Vault
use santokit.Vault.{decrypt, Secret}
use santokit.Vault.Memory
use santokit.Schema.{validate}
use santokit.Schema.Tests.{toy-Settles}
use santokit.Schema.Atlas.{plan, plan_native, apply, changes_to, url_of}
use santokit.Api.Auth.{AuthEnv, auth_middleware}
use santokit.Api.Hub.{Hub}
use santokit.Api.Hub.Handlers.{
  serve, dispatch, database_url, handle_schema_plan, handle_schema_apply, check_schemas,
}
use santokit.Api.Tests.{deps, hub, request}
use santokit.Cli.Scanner.{ScannedFile, FileType}
use santokit.Cli.Client.{ClientConfig, headers, plan_schema, apply_schema}
use santokit.Cli.Client.Laws.{connect}
use santokit.Cli.Configs.{project_of}
use santokit.Cli.Schemas.{applied, load_schema_files, schema_apply_command}
use santokit.Cli.Schemas.Settled.{ShowsNothing, schema_plan-schema_apply}

-- The hub knows the database of the project.
abbrev with_database : Hub deps
with_database = record hub {
  secrets =
      (
        lit "shop",
        (
          lit "database_url",
          record {
            key = lit "database_url";
            encrypted_val = lit "dHdlbHZlIGJ5dGVzIHU=";
            project_id = lit "shop";
          },
        )
            ∷ [],
      )
      ∷ [];
}

abbrev client : ClientConfig
client = record { hub_url = lit "http://a"; token = []; project_id = lit "shop" }

abbrev open_hub : AuthEnv
open_hub = record { mode = []; disable_auth = lit "true" }

abbrev read : Text → Option Text
read _ = some (lit "table users {}")

abbrev scan : Result (List ScannedFile)
scan = ok (record { path = lit "schema/main.hcl"; type = FileType.hcl; is_public = true } ∷ [])

url_test : url_of (database_url deps with_database (trim_space (lit "shop"))) ≡ some (lit "u")
unfolding url_of database_url Vault.get decrypt decode Memory.get lookup ◌==◌ trim_space
url_test = refl

load_test : load_schema_files read scan ≡ ok ((lit "main", lit "table users {}") ∷ [])
unfolding load_schema_files ext base ◌==◌ insert trim_left
load_test = refl

applied_test :
    (schema_apply_command
      (connect deps (lit "secret") open_hub (request [] []))
      client
      true
      with_database
      []
      read
      scan).1
    ≡ ok (applied 1)
unfolding schema_apply_command load_schema_files ext base trim_left ◌==◌ insert lookup delete
    plan_schema apply_schema serve dispatch database_url handle_schema_plan handle_schema_apply
    check_schemas validate plan plan_native apply changes_to url_of Vault.get decrypt decode
    Memory.get trim_space to_lower headers auth_middleware project_of has_prefix
applied_test = refl

schema_plan-schema_apply_example :
    ShowsNothing deps
      (lit "secret")
      open_hub
      (request [] [])
      client
      (schema_apply_command
        (connect deps (lit "secret") open_hub (request [] []))
        client
        true
        with_database
        []
        read
        scan).0
      []
      read
      scan
unfolding headers auth_middleware to_lower ◌==◌ trim_space has_prefix project_of
schema_plan-schema_apply_example =
    schema_plan-schema_apply deps toy-Settles (lit "secret") open_hub (request [] []) client
      (lit "local") (lit "shop") refl (lit "main") (lit "table users {}") [] (lit "u") (lit "u")
      with_database [] read scan (applied 1) refl load_test url_test refl applied_test
