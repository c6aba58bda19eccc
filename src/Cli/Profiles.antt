-- ===== src/Cli/Profiles.antt =====
-- The user's configuration of the tool, packages/cli/internal/userconfig/config.go, with the commands
-- that change it (profile.go, project.go, login.go) and `NewFromEnv` of the communicator, which reads
-- it. The file is an argument, as is what saving it answers; a file that can not be read or decoded
-- is unreadable.
pub mod Laws
pub mod Views
use santokit.Base.{
  ℕ, Bool, Option, none, some, List, [], get_or, if◌then◌else◌, is_empty, Text, lit, Map, lookup,
  insert, Result, ok, err, ◌>>=◌, or_error, file_unreadable, profile_not_found, no_current_profile,
}
use santokit.Cli.Client.{ClientConfig}

-- `Profile`
pub record Profile : Type 0 where
  pub hub_url : Text
  pub project_id : Text
  pub token : Text

-- `Config`
pub record UserConfig : Type 0 where
  pub current : Text
  pub profiles : Map Profile

-- What is on disk: nothing, something unreadable, or a configuration.
pub data ConfigFile : Type 0 where
  absent : ConfigFile
  broken : ConfigFile
  holds : UserConfig → ConfigFile

abbrev pub no_profile : Profile
no_profile = record { hub_url = []; project_id = []; token = [] }

-- `Load`
unfoldable pub load : ConfigFile → Result UserConfig
load absent = ok (record { current = []; profiles = [] })
load broken = err file_unreadable
load (holds c) = ok c

-- `CurrentProfile`
unfoldable pub current_profile : UserConfig → Option Profile
current_profile c = if is_empty c.current then none else lookup c.current c.profiles

-- `Save`, where the disk takes the file or not
save_file : Bool → ConfigFile → UserConfig → ConfigFile × Result (Unit {0})
save_file writable file c = if writable then (holds c, ok tt) else (file, err file_unreadable)

saved : Bool → ConfigFile → Result UserConfig → ConfigFile × Result (Unit {0})
unfolding save_file
saved writable file (ok c) = save_file writable file c
saved writable file (err e) = (file, err e)

-- A command that loads the configuration, changes it, and saves it.
unfoldable pub run :
    Bool → ConfigFile → (UserConfig → Result UserConfig) → ConfigFile × Result (Unit {0})
unfolding saved
run writable file change = saved writable file (load file >>= change)

-- `profile use`
unfoldable pub use_profile : Text → UserConfig → Result UserConfig
use_profile name c =
    or_error (lookup name c.profiles) profile_not_found >>= λ _. ok (record c { current = name })

pub given_or : Text → Text → Text
given_or given old = if is_empty given then old else given

-- `profile set`
unfoldable pub set_profile : Text → Profile → UserConfig → Result UserConfig
unfolding given_or
set_profile name flags c =
    let profile = get_or (lookup name c.profiles) no_profile in
    ok (record {
      current = if is_empty c.current then name else c.current;
      profiles =
          insert name
            (record {
              hub_url = given_or flags.hub_url profile.hub_url;
              project_id = given_or flags.project_id profile.project_id;
              token = given_or flags.token profile.token;
            })
            c.profiles;
    })

-- The commands that change the current profile.
pub change_current : (Profile → Profile) → UserConfig → Result UserConfig
change_current change c =
    if is_empty c.current
    then err no_current_profile
    else (or_error (lookup c.current c.profiles) profile_not_found >>= λ profile.
        ok (record c { profiles = insert c.current (change profile) c.profiles }))

-- `project set`
unfoldable pub set_project : Text → UserConfig → Result UserConfig
unfolding change_current
set_project project_id = change_current (λ profile. record profile { project_id = project_id })

-- `project auth set`
unfoldable pub set_token : Text → UserConfig → Result UserConfig
unfolding change_current
set_token token = change_current (λ profile. record profile { token = token })

-- What `login` saves once the hub has told whose token it is.
unfoldable pub log_in : Text → Text → UserConfig → Result UserConfig
log_in hub_url token c = ok (record {
  current = lit "default";
  profiles =
      insert (lit "default") (record { hub_url = hub_url; project_id = []; token = token })
        c.profiles;
})

pub profile_of : Result UserConfig → Profile
profile_of (ok c) = get_or (current_profile c) no_profile
profile_of (err _) = no_profile

-- The variables of the environment that `NewFromEnv` reads; an unset one is empty.
pub record Environment : Type 0 where
  pub stk_hub_url : Text
  pub stk_token : Text
  pub stk_project_id : Text

-- `NewFromEnv`
unfoldable pub new_from_env : Environment → ConfigFile → ClientConfig
unfolding profile_of given_or
new_from_env env file =
    let profile = profile_of (load file) in
    record {
      hub_url =
          given_or env.stk_hub_url (given_or profile.hub_url (lit "https://hub.santokit.dev"));
      token = given_or env.stk_token profile.token;
      project_id = given_or env.stk_project_id profile.project_id;
    }
