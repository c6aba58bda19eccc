-- ===== src/Cli/Parser.antt =====
-- The parser of packages/cli/internal/engine/parser/parser.go. `yaml.Unmarshal` into a configuration
-- is an argument, `none` where it fails.
pub mod Laws
use santokit.Base.{
  Bool, not, ◌&&◌, ◌||◌, Option, none, some, List, [], ◌∷◌, if◌then◌else◌, ltb, length, drop,
  is_empty, Text, lit, ◌==◌, Map, Result, ok, err, ◌>>=◌, ◌>>◌, fail_if, or_error,
  slice_out_of_range, yaml_failed, namespace_required, name_required, no_content, two_contents,
  invalid_access, invalid_param,
}
use santokit.Base.Json.{Json}
use santokit.Base.Strings.{trim_space, has_prefix, has_suffix}
use santokit.Base.Strings.Search.{dashes, cut, split_three, trim_suffix}

pub record Param : Type 0 where
  pub type : Text
  pub required : Bool
  pub default : Json

pub record LogicConfig : Type 0 where
  pub target : Text
  -- `none` is the nil map
  pub params : Option (Map Param)
  pub access : Text
  pub cache : Text
  pub namespace : Text
  pub name : Text
  pub sql : Text
  pub js : Text

abbrev pub no_config : LogicConfig
no_config = record {
  target = [];
  params = none;
  access = [];
  cache = [];
  namespace = [];
  name = [];
  sql = [];
  js = [];
}

-- `yaml.Unmarshal(text, config)`
abbrev pub Yaml : Type 0
Yaml = Text → LogicConfig → Option LogicConfig

abbrev pub blank : Text → Bool
blank s = is_empty (trim_space s)

module _ (yaml : Yaml) where
  -- The second part is YAML, and the content goes on with `rest`.
  front_matter :
      LogicConfig → Text → (Text → Text) → Option (Text × Text) → Result (LogicConfig × Text)
  front_matter config content next none = ok (config, content)
  front_matter config content next (some (text, rest)) = do
    config ← or_error (yaml text config) yaml_failed
    ok (config, next rest)

  -- A block comment, split at its end; `trimmed[2:end]` panics where the end is before byte 2.
  in_comment : LogicConfig → Text → Option (Text × Text) → Result (LogicConfig × Text)
  unfolding front_matter
  in_comment config content none = ok (config, content)
  in_comment config content (some (before, after)) =
      if ltb (length before) 2
      then err slice_out_of_range
      else let comment = trim_space (drop 2 before) in
        if has_prefix comment dashes
        then front_matter config content (λ rest. trim_space after) (split_three dashes comment)
        else ok (config, content)

  comment_stage : LogicConfig → Text → Result (LogicConfig × Text)
  unfolding in_comment
  comment_stage config content =
      if has_prefix (trim_space content) (lit "/*")
      then in_comment config content (cut (lit "*/") (trim_space content))
      else ok (config, content)

  dashes_stage : LogicConfig × Text → Result (LogicConfig × Text)
  unfolding front_matter
  dashes_stage (config, content) =
      if has_prefix (trim_space content) dashes
      then front_matter config content trim_space (split_three dashes (trim_space content))
      else ok (config, content)

  by_name : Text → LogicConfig × Text → LogicConfig
  by_name filename (config, content) =
      if has_suffix filename (lit ".sql")
      then record config { sql = content }
      else if has_suffix filename (lit ".js")
      then record config { js = content }
      else config

  -- `ParseLogicFile`; a panic is the error `slice_out_of_range`
  unfoldable pub parse_logic_file : Text → Text → Result LogicConfig
  unfolding comment_stage dashes_stage by_name
  parse_logic_file content filename = do
    state ← comment_stage no_config content
    state ← dashes_stage state
    ok (by_name filename state)

  -- `ParseLogicMetadata`
  unfoldable pub parse_logic_metadata : Text → Result LogicConfig
  parse_logic_metadata content = or_error (yaml content no_config) yaml_failed

abbrev pub allowed : Text → Bool
allowed type = type == lit "string" || type == lit "int" || type == lit "bool" || type == lit "json"

check_params : Map Param → Result (Unit {0})
check_params [] = ok tt
check_params ((name, param) ∷ params) =
    let rest = check_params params in if not (allowed param.type) then err invalid_param else rest

check_all_params : Option (Map Param) → Result (Unit {0})
unfolding check_params
check_all_params none = ok tt
check_all_params (some params) = check_params params

-- `ValidateLogicConfig`
unfoldable pub validate_logic_config : LogicConfig → Result (Unit {0})
unfolding check_all_params
validate_logic_config config = do
  fail_if (blank config.namespace || config.namespace == lit ".") namespace_required
  fail_if (blank config.name) name_required
  fail_if (blank config.sql && blank config.js) no_content
  fail_if (not (blank config.sql) && not (blank config.js)) two_contents
  fail_if (not (is_empty config.access) && blank config.access) invalid_access
  check_all_params config.params

-- `SchemaConfig`; its tables are never filled in.
pub record SchemaConfig : Type 0 where
  pub alias : Text
  pub raw : Text

-- `ParseSchemaFile`
unfoldable pub parse_schema_file : Text → Text → SchemaConfig
parse_schema_file content filename = record {
  alias = trim_suffix filename (lit ".hcl");
  raw = content;
}
