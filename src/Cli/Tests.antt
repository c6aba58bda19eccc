-- ===== src/Cli/Tests.antt =====
-- The tool at small inputs.
use santokit.Base.{
  ◌≡◌, ◌↔◌, refl, ◌++◌, true, false, Option, some, List, [], ◌∷◌, All, if◌then◌else◌, or_error,
  Text, lit, ◌==◌, lookup, insert, ok, ◌>>=◌, yaml_failed,
}
use santokit.Base.Strings.{trim_space, to_lower, split, has_prefix, has_suffix}
use santokit.Base.Strings.Search.{dashes, cut}
use santokit.Base.Paths.{split_path, ext, clean, join}
use santokit.ProjectConfig.{set}
use santokit.ProjectConfig.Laws.{by_project-IsMap}
use santokit.Cli.Scanner.{ScannedFile, FileType}
use santokit.Cli.Parser.{LogicConfig, no_config, Yaml, validate_logic_config, parse_logic_file}
use santokit.Cli.Parser.Laws.{IsDeployable, validate_logic_config_iff, parse_logic_file_lem}
use santokit.Cli.Logic.{build_logic_configs, apply_logic_metadata}
use santokit.Cli.Logic.Laws.{places, Distinct, build_logic_configs_lem}
use santokit.Api.Auth.{AuthEnv, auth_middleware}
use santokit.Api.Hub.Handlers.{serve, dispatch, handle_config_apply}
use santokit.Api.Tests.{deps, hub, request}
use santokit.Cli.Configs.{
  FileRead, contents, load_configs, parse_config_only, read_optional_file, project_of,
  config_apply_command, config_show_command,
}
use santokit.Cli.Configs.Readback.{config_show-config_apply}
use santokit.Cli.Client.Laws.{connect}
use santokit.Cli.Client.{ClientConfig, headers, apply_config}
use santokit.Cli.Profiles.{ConfigFile, holds, run, load, log_in}

abbrev pub query : LogicConfig
query = record no_config { namespace = lit "shop"; name = lit "list"; sql = lit "SELECT 1" }

validate_logic_config_iff_example : (validate_logic_config query ≡ ok tt) ↔ IsDeployable query
validate_logic_config_iff_example = validate_logic_config_iff query

-- A reader of YAML that takes every header as an access.
abbrev pub yaml : Yaml
yaml text config = some (record config { access = text })

parse_logic_file_lem_example :
    parse_logic_file yaml (dashes ++ (lit "\nx" ++ 10 ∷ (dashes ++ lit "\nSELECT 1"))) (lit "a.sql")
    ≡ (or_error (yaml (lit "\nx" ++ 10 ∷ []) no_config) yaml_failed >>= λ config. ok (
        if has_suffix (lit "a.sql") (lit ".sql")
        then record config { sql = trim_space (lit "\nSELECT 1") }
        else if has_suffix (lit "a.sql") (lit ".js")
        then record config { js = trim_space (lit "\nSELECT 1") }
        else config))
parse_logic_file_lem_example =
    parse_logic_file_lem yaml (lit "\nx") (lit "\nSELECT 1") (lit "a.sql")
      (unfold trim_space in refl) (unfold cut has_prefix in refl)

-- A directory with one file.
abbrev pub read : Text → Option Text
read _ = some (lit "SELECT 1")

abbrev pub files : List ScannedFile
files = record { path = lit "shop/list.sql"; type = FileType.sql; is_public = true } ∷ []

pub built : build_logic_configs yaml read files ≡ ok (query ∷ [])
unfolding build_logic_configs split_path ext clean join lookup insert ◌==◌ parse_logic_file
    trim_space has_suffix has_prefix cut validate_logic_config split apply_logic_metadata
built = refl

build_logic_configs_lem_example : All IsDeployable (query ∷ []) × Distinct (places (query ∷ []))
build_logic_configs_lem_example = build_logic_configs_lem yaml read files (query ∷ []) built

abbrev before : ConfigFile
before = holds (record {
  current = lit "default";
  profiles =
      (
        lit "default",
        record { hub_url = lit "http://a"; project_id = lit "shop"; token = lit "t1" },
      )
      ∷ [];
})

abbrev after : ConfigFile
after = holds (record {
  current = lit "default";
  profiles =
      (lit "default", record { hub_url = lit "http://b"; project_id = []; token = lit "t2" }) ∷ [];
})

logged_in : run true before (log_in (lit "http://b") (lit "t2")) ≡ (after, ok tt)
unfolding run log_in load insert ◌==◌
logged_in = refl

abbrev pub client : ClientConfig
client = record { hub_url = lit "http://a"; token = []; project_id = lit "shop" }

abbrev pub open_hub : AuthEnv
open_hub = record { mode = []; disable_auth = lit "true" }

abbrev config_files : Text → FileRead
config_files name = if name == lit "auth" then contents (lit "a: 1") else FileRead.absent

config_show-config_apply_example :
    (config_show_command
      (connect deps (lit "secret") open_hub (request [] []))
      client
      (config_apply_command
        (connect deps (lit "secret") open_hub (request [] []))
        client
        hub
        []
        config_files
        (lit "auth")).0
      []).1
    ≡ ok (record { databases = []; auth = lit "a: 1"; storage = [] })
unfolding lookup insert ◌==◌ split trim_space to_lower load_configs parse_config_only
    read_optional_file project_of config_apply_command apply_config serve dispatch
    handle_config_apply auth_middleware set headers has_prefix
config_show-config_apply_example =
    config_show-config_apply deps (lit "secret") open_hub (request [] []) client (lit "local")
      (lit "shop") [] refl refl hub config_files (lit "auth")
      ((lit "databases", false) ∷ (lit "auth", true) ∷ (lit "storage", false) ∷ [])
      (lit "auth", lit "a: 1") [] by_project-IsMap refl refl refl
