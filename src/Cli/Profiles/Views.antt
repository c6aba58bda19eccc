-- ===== src/Cli/Profiles/Views.antt =====
-- The commands that show the user's configuration: `profile list`, `profile current`, `project info` and
-- `project auth show` of packages/cli/internal/commands/profile.go and project.go. What they print is
-- a warning, or the cells of a table with what follows it; titles and styles are left out.
pub mod Masking
mod Tests
use santokit.Base.{
  ◌++◌, ◌-◌, Bool, Option, none, some, List, [], ◌∷◌, if◌then◌else◌, length, take, drop, leb,
  is_empty, Text, lit, ◌==◌, Map, lookup, Result, ok, err, ◌>>=◌, or_error, no_current_profile,
  profile_not_found,
}
use santokit.Cli.Profiles.{Profile, UserConfig, ConfigFile, load}

-- The cells of a row: the name, the hub's URL and the project.
pub record Row : Type 0 where
  pub name : Text
  pub hub_url : Text
  pub project_id : Text

pub data Output : Type 0 where
  warning : Text → Output
  table : List Row → Output
  -- the table of `project info`, and the line with the masked token
  settings : Row → Text → Output

pub row_of : Text → Profile → Row
row_of name p = record { name = name; hub_url = p.hub_url; project_id = p.project_id }

rows : Text → Map Profile → List Row
unfolding row_of
rows current [] = []
rows current ((name, p) ∷ profiles) =
    row_of (if current == name then name ++ lit " (current)" else name) p ∷ rows current profiles

list_output : UserConfig → Output
unfolding rows
list_output c = elim c.profiles [
  | [] ↦ warning (lit "No profiles configured.")
  | ◌∷◌ p ps ↦ table (rows c.current (p ∷ ps))
]

-- `profile list`
unfoldable pub profile_list : ConfigFile → Result Output
unfolding list_output
profile_list file = load file >>= λ c. ok (list_output c)

-- What is shown of the current profile, or a warning that there is none.
current_output : (Text → Profile → Output) → UserConfig → Output
current_output show c =
    if is_empty c.current
    then warning (lit "No current profile set.")
    else elim (lookup c.current c.profiles) [
      | none ↦ warning (lit "Current profile not found.")
      | some p ↦ show c.current p
    ]

-- `profile current`
unfoldable pub profile_current : ConfigFile → Result Output
unfolding current_output row_of
profile_current file =
    load file >>= λ c. ok (current_output (λ name p. table (row_of name p ∷ [])) c)

-- `maskToken`
unfoldable pub mask_token : Text → Text
mask_token token =
    if is_empty token
    then []
    else if leb (length token) 8
    then lit "****"
    else take 4 token ++ (lit "..." ++ drop (length token - 4) token)

-- `project info`
unfoldable pub project_info : ConfigFile → Result Output
unfolding current_output row_of
project_info file = load file >>= λ c.
    ok (current_output (λ name p. settings (row_of name p) (mask_token p.token)) c)

masked_token : UserConfig → Result Text
masked_token c =
    if is_empty c.current
    then err no_current_profile
    else or_error (lookup c.current c.profiles) profile_not_found >>= λ p. ok (mask_token p.token)

-- `project auth show`
unfoldable pub auth_show : ConfigFile → Result Text
unfolding masked_token
auth_show file = load file >>= masked_token
