-- ===== src/Cli/Sync/Tests.antt =====
-- `sync` after `logic apply` of a directory with one file.
use santokit.Base.{
  ◌≡◌, refl, Bool, true, Option, some, [], ◌∷◌, All, Text, lit, ◌==◌, lookup, insert, ok,
}
use santokit.Base.Strings.{trim_space, to_lower, has_prefix, has_suffix, split}
use santokit.Base.Strings.Search.{cut}
use santokit.Base.Paths.{split_path, ext, clean, join}
use santokit.Registry
use santokit.Registry.{push, new_manifest}
use santokit.Registry.Memory
use santokit.Registry.Memory.Versions.{repository-IsLog}
use santokit.Api.Auth.{auth_middleware}
use santokit.Api.Hub.Handlers.{serve, dispatch, handle_push_manifest, handle_get_manifest}
use santokit.Api.Tests.{deps, hub, request}
use santokit.Cli.Integrator.{Manifest, create_manifest}
use santokit.Cli.Parser.{parse_logic_file, validate_logic_config}
use santokit.Cli.Logic.{build_logic_configs, apply_logic_metadata}
use santokit.Cli.Deploy.{logic_apply_command}
use santokit.Cli.Scanner.{FileType}
use santokit.Cli.Parser.Laws.{IsDeployable}
use santokit.Cli.Logic.Laws.{Distinct, places}
use santokit.Cli.Client.{headers, push_manifest_to, fetch_manifest, answered, manifest_in, fetched}
use santokit.Cli.Configs.{project_of}
use santokit.Cli.Deploy.Laws.{AreBundlesOf}
use santokit.Cli.Deploy.Tests.{digest, pushed_test}
use santokit.Cli.Disk.{Disk, write_file}
use santokit.Cli.Sync.{resolve_codegen_output, save, sync_command}
use santokit.Cli.Sync.Declared.{IsDeclared, declared_in}
use santokit.Cli.Sync.Laws.{IsSynced, sync-logic_apply}
use santokit.Cli.Client.Laws.{connect}
use santokit.Cli.Tests.{query, yaml, read, files, built, client, open_hub}

abbrev output_in : Text → Option Text
output_in config = some (lit "types.d.ts")

abbrev marshal : Manifest → Text
marshal m = m.version

abbrev writable : Text → Bool
writable path = true

abbrev after : Disk
after =
    (sync_command output_in marshal writable (lit "/shop")
      (connect deps (lit "secret") open_hub (request [] [])) client
      (logic_apply_command yaml read digest 7 (connect deps (lit "secret") open_hub (request [] []))
        client hub [] (ok files)).0
      [] []).1.0

sync_test :
    (sync_command output_in marshal writable
      (lit "/shop")
      (connect deps (lit "secret") open_hub (request [] []))
      client
      (logic_apply_command yaml read digest 7
        (connect deps (lit "secret") open_hub (request [] []))
        client
        hub
        []
        (ok files)).0
      []
      []).1
    ≡ (after, ok tt)
unfolding logic_apply_command build_logic_configs split_path ext clean join lookup insert ◌==◌
    parse_logic_file trim_space has_suffix has_prefix cut validate_logic_config split
    apply_logic_metadata push_manifest_to serve dispatch handle_push_manifest handle_get_manifest
    push new_manifest Memory.save Memory.get_latest to_lower headers auth_middleware project_of
    create_manifest fetch_manifest answered manifest_in save write_file resolve_codegen_output
    sync_command Registry.get_latest
sync_test = refl

sync-logic_apply_example :
    (m : Registry.Manifest) × IsSynced output_in marshal writable (lit "/shop") [] after (fetched m)
    × AreBundlesOf digest (query ∷ []) m.bundles
    × All (IsDeclared (declared_in (fetched m).bundles)) (query ∷ [])
    × All IsDeployable (query ∷ [])
    × Distinct (places (query ∷ []))
unfolding to_lower headers auth_middleware project_of has_prefix ◌==◌ trim_space
sync-logic_apply_example =
    sync-logic_apply deps repository-IsLog (lit "secret") open_hub (request [] []) (request [] [])
      client (lit "local") (lit "local") (lit "shop") [] refl refl refl yaml read digest 7 hub
      (record { path = lit "shop/list.sql"; type = FileType.sql; is_public = true }) [] (query ∷ [])
      output_in marshal writable (lit "/shop") [] after built pushed_test sync_test
