-- ===== src/Cli/Deploy/Tests.antt =====
-- `logic apply` of a directory with one file.
use santokit.Base.{◌≡◌, refl, true, [], ◌∷◌, All, Text, lit, ◌==◌, lookup, insert, ok}
use santokit.Base.Strings.{trim_space, to_lower, has_prefix, has_suffix, split}
use santokit.Base.Strings.Search.{cut}
use santokit.Base.Paths.{split_path, ext, clean, join}
use santokit.Registry
use santokit.Registry.{push, new_manifest}
use santokit.Registry.Memory
use santokit.Registry.Memory.Versions.{repository-IsLog}
use santokit.Api.Auth.{auth_middleware}
use santokit.Api.Http.{manifest, respond}
use santokit.Api.Hub.Handlers.{serve, dispatch, handle_push_manifest, handle_get_manifest}
use santokit.Api.Tests.{deps, hub, request}
use santokit.Cli.Scanner.{FileType}
use santokit.Cli.Parser.Laws.{IsDeployable}
use santokit.Cli.Parser.{parse_logic_file, validate_logic_config}
use santokit.Cli.Integrator.{create_manifest}
use santokit.Cli.Logic.{build_logic_configs, apply_logic_metadata}
use santokit.Cli.Logic.Laws.{Distinct, places}
use santokit.Cli.Client.{headers, push_manifest_to}
use santokit.Cli.Client.Laws.{connect}
use santokit.Cli.Configs.{project_of}
use santokit.Cli.Deploy.{logic_apply_command}
use santokit.Cli.Deploy.Laws.{AreBundlesOf, get_manifest-logic_apply}
use santokit.Cli.Tests.{query, yaml, read, files, built, client, open_hub}

abbrev pub digest : Text → Text
digest s = lit "abcdefgh"

pub pushed_test :
    (logic_apply_command yaml read digest 7
      (connect deps (lit "secret") open_hub (request [] []))
      client
      hub
      []
      (ok files)).1
    ≡ ok tt
unfolding logic_apply_command build_logic_configs split_path ext clean join lookup insert ◌==◌
    parse_logic_file trim_space has_suffix has_prefix cut validate_logic_config split
    apply_logic_metadata push_manifest_to serve dispatch handle_push_manifest push new_manifest
    Memory.save to_lower headers auth_middleware project_of create_manifest
pushed_test = refl

get_manifest-logic_apply_example :
    (m : Registry.Manifest) × (handle_get_manifest deps
        (logic_apply_command yaml read digest 7
          (connect deps (lit "secret") open_hub (request [] []))
          client
          hub
          []
          (ok files)).0
        (lit "shop")
      ≡ respond 200 (manifest m))
    × AreBundlesOf digest (query ∷ []) m.bundles
    × All IsDeployable (query ∷ [])
    × Distinct (places (query ∷ []))
unfolding to_lower headers auth_middleware project_of has_prefix ◌==◌ trim_space
get_manifest-logic_apply_example =
    get_manifest-logic_apply deps repository-IsLog (lit "secret") open_hub (request [] []) client
      (lit "local") (lit "shop") [] refl refl yaml read digest 7 hub
      (record { path = lit "shop/list.sql"; type = FileType.sql; is_public = true }) [] (query ∷ [])
      built pushed_test
