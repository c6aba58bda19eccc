-- ===== src/Cli/Init/Tests.antt =====
-- `init` in a directory whose configuration was edited.
use santokit.Base.{◌≡◌, refl, Bool, true, none, some, [], ◌∷◌, Text, lit, ◌==◌, lookup, insert, ok}
use santokit.Base.Strings.{has_prefix, split}
use santokit.Base.Paths.{clean, join}
use santokit.Cli.Disk.{Disk, write_file}
use santokit.Cli.Init.Templates.{config_content}
use santokit.Cli.Init.{init_command, project_name}
use santokit.Cli.Init.Laws.{init_command_lem}

init : Unit {0}
unfolding init_command write_file lookup insert ◌==◌ join clean split has_prefix project_name
init = tt

abbrev all : Text → Bool
all path = true

abbrev edited : Disk
edited = (lit "stk.config.json", lit "{\"project_id\": \"shop\"}") ∷ []

abbrev after : Disk
after = (init_command all all none edited).0

written : init_command all all none edited ≡ (after, ok tt)
unfolding init
written = refl

-- The project that was set is gone.
init_command_lem_example : lookup (lit "stk.config.json") after ≡ some config_content
unfolding init
init_command_lem_example =
    init_command_lem all all none edited after (lit "stk.config.json") written
