-- ===== src/Cli/Init.antt =====
-- `stk init`, packages/cli/internal/commands/init.go. `can_make` tells whether `os.MkdirAll` makes a
-- directory, and `writable` whether a file is written; `os.Stat` finds the files that the disk holds.
pub mod Templates
pub mod Laws
mod Tests
use santokit.Base.{
  Bool, true, false, not, Option, none, some, List, [], ◌∷◌, if◌then◌else◌, is_empty, is_some, Text,
  lit, Map, lookup, Result, ok, err, file_unreadable,
}
use santokit.Base.Paths.{join}
use santokit.Cli.Disk.{Disk, write_file}
use santokit.Cli.Init.Templates.{
  schema_content, auth_content, logic_content, config_content, tsconfig_content,
}

-- The directories, in their order.
abbrev pub dirs : Text → List Text
dirs project =
    join project (lit "schema")
    ∷ join project (lit "config")
    ∷ join project (lit "logic")
    ∷ join (join project (lit "logic")) (lit "hello")
    ∷ join project (lit ".stk")
    ∷ []

-- The files that are written whether or not they are there, in their order.
abbrev pub samples : Text → Map Text
samples project =
    (join (join project (lit "schema")) (lit "main.hcl"), schema_content)
    ∷ (join (join project (lit "config")) (lit "auth.yaml"), auth_content)
    ∷ (join (join (join project (lit "logic")) (lit "hello")) (lit "ping.js"), logic_content)
    ∷ (join project (lit "stk.config.json"), config_content)
    ∷ (join (join project (lit ".stk")) (lit "types.d.ts"), lit "import '@santokit/client';\n")
    ∷ []

-- The directory of the project: the argument, or the working directory.
pub project_name : Option Text → Text
project_name none = lit "."
project_name (some []) = lit "."
project_name (some (c ∷ name)) = c ∷ name

make_all : (Text → Bool) → List Text → Bool
make_all can_make [] = true
make_all can_make (d ∷ ds) = if can_make d then make_all can_make ds else false

module _ (writable : Text → Bool) where
  -- The next step, unless the file could not be written.
  then_ : (Disk → Disk × Result (Unit {0})) → Disk × Result (Unit {0}) → Disk × Result (Unit {0})
  then_ next (disk, err e) = (disk, err e)
  then_ next (disk, ok _) = next disk

  write_all : Map Text → (Disk → Disk × Result (Unit {0})) → Disk → Disk × Result (Unit {0})
  unfolding then_
  write_all [] next disk = next disk
  write_all ((path, content) ∷ files) next disk =
      then_ (write_all files next) (write_file writable path content disk)

  write_tsconfig : Text → Disk → Disk × Result (Unit {0})
  write_tsconfig path disk =
      if is_some (lookup path disk)
      then (disk, ok tt)
      else write_file writable path tsconfig_content disk

  -- `init`, with its argument if there is one
  unfoldable pub init_command : (Text → Bool) → Option Text → Disk → Disk × Result (Unit {0})
  unfolding make_all write_all write_tsconfig project_name
  init_command can_make arg disk =
      let project = project_name arg in
      if not (make_all can_make (dirs project))
      then (disk, err file_unreadable)
      else write_all (samples project) (write_tsconfig (join project (lit "tsconfig.json"))) disk
