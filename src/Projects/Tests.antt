-- ===== src/Projects/Tests.antt =====
-- One user who creates a project and invites members.
use santokit.Base.{◌≡◌, refl, some, [], Text, lit, ◌==◌, lookup, insert, ok}
use santokit.Base.Strings.{trim_space, to_lower}
use santokit.Base.Encoding.{hex}
use santokit.Projects.{
  Project, Member, Service, new_service, IdSource, CreateEnv, random_id, generate_master_key,
  normalize_role, create_project, choose_team, ensure_personal_team, new_project, get_project,
  has_user, is_member, put_member, invite_member,
}
use santokit.Projects.Queries.{stats, list_projects}
use santokit.Projects.Invariant.{IsValid, start, next, created, invited, Reachable-IsValid}

projects : Unit {0}
unfolding create_project choose_team ensure_personal_team new_project random_id generate_master_key
    get_project invite_member is_member put_member has_user normalize_role trim_space to_lower hex
    lookup insert ◌==◌ stats list_projects
projects = tt

abbrev source : IdSource
source = record { random = some (lit "ABCDEFGH"); nanos = 0 }

abbrev key_bytes : Text
key_bytes = lit "0123456789abcdefghijklmnopqrstuv"

abbrev env : CreateEnv
env = record { team_source = source; project_source = source; key_bytes = some key_bytes; now = 7 }

abbrev pub project : Project
project = record {
  id = lit "prj_4142434445464748";
  name = lit "shop";
  description = lit "demo";
  created_at = 7;
  updated_at = 7;
  team_id = lit "team_4142434445464748";
  owner_id = lit "ann";
  master_key = lit "303132333435363738396162636465666768696a6b6c6d6e6f70717273747576";
}

abbrev pub shop : Service
shop = (create_project env new_service (lit "ann") (lit "shop") (lit "demo") []).0

create_test :
    (create_project env new_service (lit "ann") (lit "shop") (lit "demo") []).1 ≡ ok project
unfolding projects
create_test = refl

key_test : generate_master_key (some key_bytes) ≡ ok project.master_key
unfolding projects
key_test = refl

abbrev bob : Member
bob = record { user_id = lit "bob"; email = []; role = lit "member" }

abbrev ann : Member
ann = record { user_id = lit "ann"; email = lit "ann@x"; role = lit "owner" }

invite_test : (invite_member shop project.team_id (lit "bob") [] (lit "")).1 ≡ ok bob
unfolding projects
invite_test = refl

abbrev visited : Service
visited = (invite_member shop project.team_id (lit "bob") [] (lit "")).0

Reachable-IsValid_example : IsValid visited
Reachable-IsValid_example = Reachable-IsValid (
    next (next start (created new_service env (lit "ann") (lit "shop") (lit "demo") [] refl))
      (invited shop project.team_id (lit "bob") [] (lit "")))
