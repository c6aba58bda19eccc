-- ===== src/Cli/Logic.antt =====
-- The logic commands of packages/cli/internal/commands/logic.go: from the scanned files to the
-- configurations. `os.ReadFile` and `yaml.Unmarshal` are arguments.
pub mod Laws
use santokit.Base.{
  Bool, true, false, not, ◌||◌, Option, none, some, List, [], ◌∷◌, ◌-◌, is_some, get_or,
  if◌then◌else◌, is_empty, length, take, Text, lit, ◌==◌, Map, lookup, insert, Result, ok, err,
  ◌>>=◌, ◌>>◌, fail_if, or_error, file_unreadable, two_sources, missing_content,
}
use santokit.Base.Paths.{split_path, ext, clean, join}
use santokit.Cli.Scanner.{ScannedFile}
use santokit.Cli.Parser.{
  Param, LogicConfig, Yaml, parse_logic_file, parse_logic_metadata, validate_logic_config,
}

-- `logicEntry`
pub record Entry : Type 0 where
  pub namespace : Text
  pub name : Text
  pub is_public : Bool
  pub meta : Option LogicConfig
  pub content : Option LogicConfig

-- `applyLogicMetadata`
apply_metadata_of : LogicConfig → LogicConfig → LogicConfig
apply_metadata_of target meta = record target {
  target = if is_empty meta.target then target.target else meta.target;
  access = if is_empty meta.access then target.access else meta.access;
  cache = if is_empty meta.cache then target.cache else meta.cache;
  params = if is_some meta.params then meta.params else target.params;
}

unfoldable pub apply_logic_metadata : LogicConfig → Option LogicConfig → LogicConfig
unfolding apply_metadata_of
apply_logic_metadata target none = target
apply_logic_metadata target (some meta) = apply_metadata_of target meta

-- The place of a file: its namespace and its name.
pub namespace_of : Text → Text
namespace_of path = clean (split_path path).0

pub name_of : Text → Text
name_of path =
    let filename = (split_path path).1 in take (length filename - length (ext filename)) filename

abbrev pub key_at : Text → Text → Text
key_at namespace name = join namespace name

abbrev new_entry : Text → Text → Entry
new_entry namespace name = record {
  namespace = namespace;
  name = name;
  is_public = true;
  meta = none;
  content = none;
}

marked : Bool → Entry → Entry
marked true entry = entry
marked false entry = record entry { is_public = false }

module _ (yaml : Yaml) (read : Text → Option Text) where
  -- The entry of a file with that file's content.
  read_into : Entry → Text → Text → Result Entry
  read_into entry path content =
      let e = ext (split_path path).1 in
      if e == lit ".yaml" || e == lit ".yml"
      then (parse_logic_metadata yaml content >>= λ meta. ok (record entry { meta = some meta }))
      else if e == lit ".sql" || e == lit ".js"
      then (fail_if (is_some entry.content) two_sources
          >> (parse_logic_file yaml content path >>= λ config.
              ok (record entry { content = some config })))
      else ok entry

  -- One round of the first loop of `buildLogicConfigs`.
  add_file : Map Entry → ScannedFile → Result (Map Entry)
  unfolding read_into marked namespace_of name_of
  add_file entries file = do
    let namespace = namespace_of file.path
    let name = name_of file.path
    let key = key_at namespace name
    let entry = marked file.is_public (get_or (lookup key entries) (new_entry namespace name))
    content ← or_error (read file.path) file_unreadable
    entry ← read_into entry file.path content
    ok (insert key entry entries)

  add_files : Map Entry → List ScannedFile → Result (Map Entry)
  unfolding add_file
  add_files entries [] = ok entries
  add_files entries (file ∷ files) = do entries ← add_file entries file; add_files entries files

  -- The configuration of an entry with its content.
  placed : Entry → LogicConfig → LogicConfig
  placed entry content = record (apply_logic_metadata content entry.meta) {
    namespace = entry.namespace;
    name = entry.name;
  }

  -- One round of the second loop.
  finish_entry : Entry → Result LogicConfig
  unfolding placed
  finish_entry entry = do
    content ← or_error entry.content missing_content
    validate_logic_config (placed entry content)
    ok (placed entry content)

  finish : Map Entry → Result (List LogicConfig)
  unfolding finish_entry
  finish [] = ok []
  finish ((_, entry) ∷ entries) = do
    config ← finish_entry entry
    configs ← finish entries
    ok (config ∷ configs)

  -- `buildLogicConfigs`
  unfoldable pub build_logic_configs : List ScannedFile → Result (List LogicConfig)
  unfolding add_files finish
  build_logic_configs files = do entries ← add_files [] files; finish entries
