-- ===== src/Cli/Profiles/Laws.antt =====
-- Which profile a command works under.
use santokit.Base.{
  ◌≡◌, refl, sym, ap, ◌∙◌, inl, inr, Bool-cases, Bool, true, false, [], is_empty, Text, lit, Map,
  lookup, insert, lookup-insert_self, Result, ok, err, >>=-eq-ok, Option-cases, profile_not_found,
  no_current_profile, file_unreadable,
}
use santokit.Cli.Client.{ClientConfig}
use santokit.Cli.Profiles.{
  Profile, UserConfig, ConfigFile, holds, load, current_profile, save_file, saved, run, given_or,
  change_current, set_project, log_in, Environment, profile_of, new_from_env,
}

-- An environment that sets none of the variables.
abbrev pub unset : Environment
unset = record { stk_hub_url = []; stk_token = []; stk_project_id = [] }

abbrev pub default_hub : Text
default_hub = lit "https://hub.santokit.dev"

run_eq :
    (writable : Bool) (file file' : ConfigFile) (result : Result UserConfig)
    → saved writable file result ≡ (file', ok tt)
    → (c : UserConfig) × (result ≡ ok c) × (file' ≡ holds c)
unfolding saved save_file
run_eq true file file' (ok c) e = (c, refl, sym (ap (λ x. x.0) e))
run_eq false file file' (ok c) e =
    absurd (let impossible : err file_unreadable ≡ ok tt = ap (λ x. x.1) e in cc)
run_eq writable file file' (err failed) e =
    absurd (let impossible : err failed ≡ ok tt = ap (λ x. x.1) e in cc)

profile_of_new :
    (name : Text) (profile : Profile) (profiles : Map Profile)
    → is_empty name ≡ false
    → profile_of (ok (record { current = name; profiles = insert name profile profiles })) ≡ profile
unfolding profile_of current_profile
profile_of_new name profile profiles named =
    rw (named, lookup-insert_self name profile profiles) refl

pub change_current_eq :
    (change : Profile → Profile) (c c' : UserConfig)
    → change_current change c ≡ ok c'
    → (is_empty c.current ≡ false)
      × (c' ≡ record {
        current = c.current;
        profiles = insert c.current (change (profile_of (ok c))) c.profiles;
      })
unfolding change_current profile_of current_profile
change_current_eq change c c' changed = elim (Bool-cases (is_empty c.current)) [
  | inl unnamed ↦ absurd (let e : err no_current_profile ≡ ok c' = rw unnamed at changed in cc)
  | inr named ↦ elim (Option-cases (lookup c.current c.profiles)) [
    | inl unknown ↦
        absurd (let e : err profile_not_found ≡ ok c' = rw (named, unknown) at changed in cc)
    | inr (profile, found) ↦ (
      named,
      rw (named, found)
          (let e : ok (record {
            current = c.current;
            profiles = insert c.current (change profile) c.profiles;
          })
                ≡ ok c' =
              rw (named, found) at changed in
            cc),
    )
  ]
]

-- The client that reads the profile from the file.
client_of : Profile → ClientConfig
unfolding given_or
client_of profile = record {
  hub_url = given_or profile.hub_url default_hub;
  token = profile.token;
  project_id = profile.project_id;
}

module _ (writable : Bool) (file file' : ConfigFile) where
  pub written :
      (change : UserConfig → Result UserConfig)
      → run writable file change ≡ (file', ok tt)
      → (c c' : UserConfig) × (load file ≡ ok c) × (change c ≡ ok c') × (file' ≡ holds c')
  unfolding run
  written change good =
      let (c', changed, on_disk) = run_eq writable file file' _ good in
      let (c, loaded, change_eq) = >>=-eq-ok (load file) change changed in
      (c, c', loaded, change_eq, on_disk)

  -- After a `login` that saved the profile, in an environment that sets no variable, the client works
  -- with the hub that was logged in to, or the usual one if its URL is empty, with the new token, and
  -- without a project, whichever project was set before.
  pub new_from_env-log_in :
      (hub_url token : Text)
      → run writable file (log_in hub_url token) ≡ (file', ok tt)
      → new_from_env unset file'
        ≡ record { hub_url = given_or hub_url default_hub; token = token; project_id = [] }
  unfolding new_from_env log_in load client_of
  new_from_env-log_in hub_url token good =
      let (c, c', loaded, change_eq, on_disk) = written (log_in hub_url token) good in
      let same : c' ≡ record {
        current = lit "default";
        profiles =
            insert (lit "default") (record { hub_url = hub_url; project_id = []; token = token })
              c.profiles;
      } =
        cc in
      ap (new_from_env unset) (on_disk ∙ ap holds same)
      ∙ ap client_of (profile_of_new (lit "default") _ c.profiles refl)

  -- After a `project set` that saved the profile, in an environment that sets no variable, the client
  -- works with that project, and with the hub and the token it worked with before.
  pub new_from_env-set_project :
      (project_id : Text)
      → run writable file (set_project project_id) ≡ (file', ok tt)
      → new_from_env unset file' ≡ record (new_from_env unset file) { project_id = project_id }
  unfolding new_from_env set_project load client_of
  new_from_env-set_project project_id good =
      let (c, c', loaded, change_eq, on_disk) = written (set_project project_id) good in
      let (named, same) = change_current_eq _ c c' change_eq in
      let at_new =
        profile_of_new c.current (record (profile_of (ok c)) { project_id = project_id }) c.profiles
          named in
      ap (new_from_env unset) (on_disk ∙ ap holds same) ∙ ap client_of at_new ∙ rw loaded refl
