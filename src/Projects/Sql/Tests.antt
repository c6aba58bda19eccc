-- ===== src/Projects/Sql/Tests.antt =====
-- A database in which ann owns a team.
use santokit.Base.{
  ◌≡◌, refl, true, Option, none, some, [], ◌∷◌, lit, ◌==◌, lookup, ok, Error, constraint_failed,
}
use santokit.Base.Strings.{trim_space, to_lower}
use santokit.Sqlstore.Table.{exists, iterated}
use santokit.Projects
use santokit.Projects.{Project, IdSource, CreateEnv, normalize_role}
use santokit.Projects.Queries.{list_projects}
use santokit.Projects.Sql
use santokit.Projects.Sql.{Tables, Statement, MemberRow, invite_member_db}
use santokit.Projects.Sql.Queries.{list_projects_db}
use santokit.Projects.Sql.Load.{load, teams_map}
use santokit.Projects.Sql.Invites.{exactly, invite_member_db_keeps}
use santokit.Projects.Queries.Sql.{list_projects_db-load}

abbrev up : Statement → Option Error
up _ = none

abbrev source : IdSource
source = record { random = some (lit "ABCDEFGH"); nanos = 0 }

abbrev env : CreateEnv
env = record {
  team_source = source;
  project_source = source;
  key_bytes = some (lit "0123456789abcdefghijklmnopqrstuv");
  now = 7;
}

abbrev owner : MemberRow
owner = record { team_id = lit "team_1"; user_id = lit "ann"; email = []; role = lit "owner" }

abbrev shop : Project
shop = record {
  id = lit "prj_1";
  name = lit "shop";
  description = [];
  created_at = 3;
  updated_at = 3;
  team_id = lit "team_1";
  owner_id = lit "ann";
  master_key = lit "key";
}

abbrev tables : Tables
tables = record {
  projects = shop ∷ [];
  teams = record { id = lit "team_1"; name = lit "crew"; created_at = 2 } ∷ [];
  team_members = owner ∷ [];
  personal_teams = [];
}

list_projects_db-load_example :
    list_projects_db up (some 5) tables (lit "ann") []
    ≡ ok (iterated (some 5) (list_projects (load tables) (lit "ann") []))
unfolding teams_map lookup ◌==◌
list_projects_db-load_example =
    list_projects_db-load up (λ _. refl) tables (some 5) (lit "ann") [] (refl, tt)

-- A driver that refuses to insert members.
abbrev no_members : Statement → Option Error
no_members Statement.insert_member = some constraint_failed
no_members _ = none

invite_member_db_keeps_example :
    exists
      (exactly owner)
      (invite_member_db up tables
        (lit "team_1")
        (lit "ann")
        (lit "ann@x")
        (lit "member")).0.team_members
    ≡ true
unfolding normalize_role trim_space to_lower ◌==◌ exists
invite_member_db_keeps_example =
    invite_member_db_keeps up (λ _. refl) tables (lit "team_1") (lit "ann") (lit "ann@x")
      (lit "member") refl owner (λ e. cc) refl
