-- ===== src/Cli/Configs.antt =====
-- The commands `config apply` and `config show` of packages/cli/internal/commands/config.go. The files
-- of the directory config are an argument, and so is the connection to the hub.
pub mod Laws
pub mod Readback
use santokit.Base.{
  ℕ, Bool, true, false, not, Option, none, some, List, [], ◌∷◌, ◌++◌, is_some, get_or,
  if◌then◌else◌, is_empty, Text, lit, ◌==◌, Map, lookup, insert, Result, ok, err, ◌>>=◌, ◌>>◌,
  fail_if, unknown_config_type, project_id_unset, file_unreadable,
}
use santokit.Base.Strings.{split, trim_space, to_lower}
use santokit.ProjectConfig
use santokit.Api.Http.{Response}
use santokit.Api.Hub.{Call}
use santokit.Cli.Client.{ClientConfig, Headers, apply_config, get_config}

-- The types of configurations.
abbrev pub all_as : Bool → Map Bool
all_as b = (lit "databases", b) ∷ (lit "auth", b) ∷ (lit "storage", b) ∷ []

mark_part : Map Bool → Text → Result (Map Bool)
mark_part chosen part =
    let key = trim_space (to_lower part) in
    if is_empty key
    then ok chosen
    else if is_some (lookup key chosen)
    then ok (insert key true chosen)
    else err unknown_config_type

mark_parts : Map Bool → List Text → Result (Map Bool)
unfolding mark_part
mark_parts chosen [] = ok chosen
mark_parts chosen (part ∷ parts) = mark_part chosen part >>= λ chosen. mark_parts chosen parts

-- `parseConfigOnly`
unfoldable pub parse_config_only : Text → Result (Map Bool)
unfolding mark_parts
parse_config_only value =
    if is_empty value then ok (all_as true) else mark_parts (all_as false) (split value b',')

-- What reading a file answers.
pub data FileRead : Type 0 where
  absent : FileRead
  unreadable : FileRead
  contents : Text → FileRead

-- `readOptionalFile`
unfoldable pub read_optional_file : FileRead → Result Text
read_optional_file absent = ok []
read_optional_file unreadable = err file_unreadable
read_optional_file (contents content) = ok content

-- One of the three blocks of `config apply`: read a selected file, and keep what is not empty.
load_config : Map Bool → (Text → FileRead) → Text → Map Text → Result (Map Text)
load_config only read name configs =
    if get_or (lookup name only) false
    then (read_optional_file (read name) >>= λ content.
        ok (if is_empty content then configs else insert name content configs))
    else ok configs

-- `read` is the file of config/ with the type's name.
unfoldable pub load_configs : (Text → FileRead) → Text → Result (Map Text)
unfolding load_config
load_configs read only = parse_config_only only >>= λ chosen.
    load_config chosen read (lit "databases") [] >>= λ configs.
    load_config chosen read (lit "auth") configs >>= λ configs.
    load_config chosen read (lit "storage") configs

-- The project of the communicator, or else of STK_PROJECT_ID.
unfoldable pub project_of : ClientConfig → Text → Result Text
project_of c variable =
    let project_id = if is_empty c.project_id then variable else c.project_id in
    fail_if (is_empty project_id) project_id_unset >> ok project_id

module _ {S : Type 0} (send : S → Headers → Call → S × Option Response) (c : ClientConfig)
    (s : S) where
  send_configs : Text → Map Text → S × Result (Unit {0})
  send_configs project_id [] = (s, ok tt)
  send_configs project_id (config ∷ configs) = apply_config send c s project_id (config ∷ configs)

  send_loaded : Result (Text × Map Text) → S × Result (Unit {0})
  unfolding send_configs
  send_loaded (ok (project_id, configs)) = send_configs project_id configs
  send_loaded (err e) = (s, err e)

  -- `config apply`, with the value of the flag only
  unfoldable pub config_apply_command : Text → (Text → FileRead) → Text → S × Result (Unit {0})
  unfolding send_loaded
  config_apply_command variable read only = send_loaded (
      project_of c variable >>= λ project_id.
      load_configs read only >>= λ configs. ok (project_id, configs))

  show_project : Result Text → S × Result ProjectConfig.Config
  show_project (ok project_id) = get_config send c s project_id
  show_project (err e) = (s, err e)

  -- `config show`, which prints what it returns
  unfoldable pub config_show_command : Text → S × Result ProjectConfig.Config
  unfolding show_project
  config_show_command variable = show_project (project_of c variable)
