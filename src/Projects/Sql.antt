-- ===== src/Projects/Sql.antt =====
-- Projects, teams and members in a database: the functions of
-- packages/hub/internal/projects/service.go over `s.db`, with the tables of
-- packages/hub/internal/store/sqlstore/store.go.
pub mod Load
pub mod Refines
pub mod Unknown
pub mod Invites
pub mod Queries
mod Tests
use santokit.Base.{
  ℕ, Bool, not, ◌&&◌, ◌||◌, Option, none, some, List, [], ◌∷◌, if◌then◌else◌, is_empty, Text, lit,
  ◌==◌, or_error, Result, ok, err, ◌>>=◌, ◌>>◌, Error, fail_if, no_rows, no_master_key,
  invalid_role, project_name_required, owner_id_required, team_name_required, team_id_required,
  user_id_or_email_required, project_id_required,
}
use santokit.Sqlstore.Table.{select, exists, query_row, delete_where, insert_row, answered}
use santokit.Sqlstore.Transaction
use santokit.Sqlstore.Transaction.{Step, idle, begin_tx, exec_tx, rollback, ◌>=>◌}
use santokit.Projects.{
  Project, Member, Team, IdSource, random_id, CreateEnv, generate_master_key, new_project, new_team,
  normalize_role, blank,
}

pub record TeamRow : Type 0 where
  pub id : Text
  pub name : Text
  pub created_at : ℕ

pub record MemberRow : Type 0 where
  pub team_id : Text
  pub user_id : Text
  pub email : Text
  pub role : Text

pub record PersonalRow : Type 0 where
  pub user_id : Text
  pub team_id : Text

-- The tables that `migrate` creates for the projects service.
pub record Tables : Type 0 where
  pub projects : List Project
  pub teams : List TeamRow
  pub team_members : List MemberRow
  pub personal_teams : List PersonalRow

-- The statements, for the driver's answer to each of them.
pub data Statement : Type 0 where
  begin commit : Statement
  insert_project insert_team insert_member insert_personal delete_member : Statement
  select_project select_projects select_teams select_personal : Statement

-- The primary keys.
abbrev pub same_project : Project → Project → Bool
same_project new row = row.id == new.id

abbrev pub same_team : TeamRow → TeamRow → Bool
same_team new row = row.id == new.id

abbrev pub same_place : MemberRow → MemberRow → Bool
same_place new row =
    row.team_id == new.team_id && row.user_id == new.user_id && row.email == new.email

abbrev pub same_owner : PersonalRow → PersonalRow → Bool
same_owner new row = row.user_id == new.user_id

abbrev pub owner_of : Text → Text → MemberRow
owner_of team_id user_id = record {
  team_id = team_id;
  user_id = user_id;
  email = [];
  role = lit "owner";
}

abbrev pub team_row : Team → TeamRow
team_row team = record { id = team.id; name = team.name; created_at = team.created_at }

-- One statement outside a transaction, and what is returned where it worked.
pub executed {ℓ} : {A : Type ℓ} → Tables → A → Result Tables → Tables × Result A
executed s value (ok s') = (s', ok value)
executed s value (err e) = (s, err e)

-- What is stored at the end of a transaction, and what is returned where every step of it worked.
pub transact {ℓ} : {A : Type ℓ} → A → Step Tables → Tables × Result A
transact value (s, ok _) = (s.stored, ok value)
transact value (s, err e) = (s.stored, err e)

pub insert_team_row : TeamRow → Tables → Result Tables
insert_team_row row s = do
  rows ← insert_row (same_team row) row s.teams
  ok (record s { teams = rows })

pub insert_member_row : MemberRow → Tables → Result Tables
insert_member_row row s = do
  rows ← insert_row (same_place row) row s.team_members
  ok (record s { team_members = rows })

pub insert_personal_row : PersonalRow → Tables → Result Tables
insert_personal_row row s = do
  rows ← insert_row (same_owner row) row s.personal_teams
  ok (record s { personal_teams = rows })

pub delete_member_row : MemberRow → Tables → Result Tables
delete_member_row row s =
    ok (record s { team_members = delete_where (same_place row) s.team_members })

module _ (fails : Statement → Option Error) where
  -- The transaction of `createTeamDB`.
  team_transaction : Tables → Team → Text → Step Tables
  unfolding insert_team_row insert_member_row
  team_transaction s team owner_id = rollback (
      begin_tx (fails begin) (idle s)
      >=> exec_tx (fails insert_team) (insert_team_row (team_row team))
      >=> exec_tx (fails insert_member) (insert_member_row (owner_of team.id owner_id))
      >=> Transaction.commit (fails commit))

  -- `createTeamDB`
  unfoldable pub create_team_db : IdSource → ℕ → Tables → Text → Text → Tables × Result Team
  unfolding team_transaction transact new_team
  create_team_db src now s owner_id name =
      let team = new_team src now name owner_id in transact team (team_transaction s team owner_id)

  -- `CreateTeam` of a service with a database
  unfoldable pub create_team : IdSource → ℕ → Tables → Text → Text → Tables × Result Team
  create_team src now s owner_id name =
      if blank owner_id
      then (s, err owner_id_required)
      else if blank name
      then (s, err team_name_required)
      else create_team_db src now s owner_id name

  -- The transaction of `ensurePersonalTeamDB`.
  personal_transaction : Tables → Team → Text → Step Tables
  unfolding insert_team_row insert_member_row insert_personal_row
  personal_transaction s team user_id = rollback (
      begin_tx (fails begin) (idle s)
      >=> exec_tx (fails insert_team) (insert_team_row (team_row team))
      >=> exec_tx (fails insert_member) (insert_member_row (owner_of team.id user_id))
      >=> exec_tx (fails insert_personal)
          (insert_personal_row (record { user_id = user_id; team_id = team.id }))
      >=> Transaction.commit (fails commit))

  -- What the query of `ensurePersonalTeamDB` scans; an error reads as no team.
  personal_team_id : Tables → Text → Option Error → Text
  personal_team_id s user_id (some e) = []
  personal_team_id s user_id none =
      elim (query_row (λ row. row.user_id == user_id) s.personal_teams) [
        | none ↦ []
        | some row ↦ row.team_id
      ]

  personal_or_new : IdSource → ℕ → Tables → Text → Text → Tables × Result Text
  unfolding personal_transaction transact new_team
  personal_or_new src now s user_id [] =
      let team = new_team src now (lit "Personal") user_id in
      transact team.id (personal_transaction s team user_id)
  personal_or_new src now s user_id (c ∷ team_id) = (s, ok (c ∷ team_id))

  -- `ensurePersonalTeamDB`
  unfoldable pub ensure_personal_team_db : IdSource → ℕ → Tables → Text → Tables × Result Text
  unfolding personal_or_new personal_team_id
  ensure_personal_team_db src now s user_id =
      personal_or_new src now s user_id (personal_team_id s user_id (fails select_personal))

  add_project_row : Tables → Project → Result Tables
  add_project_row s project = do
    rows ← answered (fails insert_project) (insert_row (same_project project) project s.projects)
    ok (record s { projects = rows })

  -- `createProjectDB` after the team is known
  project_keyed :
      CreateEnv → Text → Text → Text → Tables → Text → Result Text → Tables × Result Project
  unfolding add_project_row executed
  project_keyed env owner_id name description s team_id (err e) = (s, err e)
  project_keyed env owner_id name description s team_id (ok key) =
      let project = new_project env owner_id name description team_id key in
      executed s project (add_project_row s project)

  project_in : CreateEnv → Text → Text → Text → Tables × Result Text → Tables × Result Project
  unfolding project_keyed
  project_in env owner_id name description (s, err e) = (s, err e)
  project_in env owner_id name description (s, ok team_id) =
      project_keyed env owner_id name description s team_id (generate_master_key env.key_bytes)

  choose_team_db : CreateEnv → Tables → Text → Text → Tables × Result Text
  unfolding ensure_personal_team_db
  choose_team_db env s owner_id team_id =
      if is_empty team_id
      then ensure_personal_team_db env.team_source env.now s owner_id
      else (s, ok team_id)

  -- `createProjectDB`
  unfoldable pub create_project_db :
      CreateEnv → Tables → Text → Text → Text → Text → Tables × Result Project
  unfolding project_in choose_team_db
  create_project_db env s owner_id name description team_id =
      project_in env owner_id name description (choose_team_db env s owner_id team_id)

  -- `CreateProject` of a service with a database
  unfoldable pub create_project :
      CreateEnv → Tables → Text → Text → Text → Text → Tables × Result Project
  create_project env s owner_id name description team_id =
      if blank name
      then (s, err project_name_required)
      else if blank owner_id
      then (s, err owner_id_required)
      else create_project_db env s owner_id name description team_id

  -- The transaction of `inviteMemberDB`.
  pub invite_transaction : Tables → MemberRow → Step Tables
  unfolding delete_member_row insert_member_row
  invite_transaction s row = rollback (
      begin_tx (fails begin) (idle s)
      >=> exec_tx (fails delete_member) (delete_member_row row)
      >=> exec_tx (fails insert_member) (insert_member_row row)
      >=> Transaction.commit (fails commit))

  -- `inviteMemberDB`
  unfoldable pub invite_member_db : Tables → Text → Text → Text → Text → Tables × Result Member
  unfolding invite_transaction transact
  invite_member_db s team_id user_id email role =
      let r = normalize_role role in
      if is_empty r
      then (s, err invalid_role)
      else transact (record { user_id = user_id; email = email; role = r })
          (invite_transaction s
            (record { team_id = team_id; user_id = user_id; email = email; role = r }))

  -- `InviteMember` of a service with a database
  unfoldable pub invite_member : Tables → Text → Text → Text → Text → Tables × Result Member
  invite_member s team_id user_id email role =
      if blank team_id
      then (s, err team_id_required)
      else if blank user_id && blank email
      then (s, err user_id_or_email_required)
      else invite_member_db s team_id user_id email role

  -- `getProjectDB`
  unfoldable pub get_project_db : Tables → Text → Result Project
  get_project_db s id =
      answered (fails select_project)
        (or_error (query_row (λ row. row.id == id) s.projects) no_rows)

  -- `GetProject` of a service with a database
  unfoldable pub get_project : Tables → Text → Result Project
  get_project s id = if blank id then err project_id_required else get_project_db s id

  checked_key : Text → Result Text
  checked_key key = if is_empty key then err no_master_key else ok key

  -- `getProjectMasterKeyDB`
  unfoldable pub get_project_master_key_db : Tables → Text → Result Text
  unfolding checked_key get_project_db
  get_project_master_key_db s project_id = do
    project ← get_project_db s project_id
    checked_key project.master_key
