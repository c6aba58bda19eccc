-- ===== src/Projects.antt =====
-- Projects, teams and members in memory: packages/hub/internal/projects/service.go with no database.
pub mod Queries
pub mod Members
pub mod Creation
pub mod Invariant
pub mod Sql
mod Tests
use santokit.Base.{
  ℕ, ◌++◌, Bool, true, false, not, ◌&&◌, ◌||◌, Option, none, some, List, [], ◌∷◌, is_some,
  if◌then◌else◌, is_empty, Text, lit, ◌==◌, Map, lookup, insert, or_error, Result, ok, err, ◌>>=◌,
  ◌>>◌, fail_if, project_name_required, owner_id_required, team_not_found, master_key_failed,
  project_id_required, project_not_found, team_name_required, team_id_required,
  user_id_or_email_required, invalid_role, no_master_key,
}
use santokit.Base.Strings.{trim_space, to_lower}
use santokit.Base.Encoding.{hex}
use santokit.Base.Decimal.{decimal}

pub record Project : Type 0 where
  pub id : Text
  pub name : Text
  pub description : Text
  pub created_at : ℕ
  pub updated_at : ℕ
  pub team_id : Text
  pub owner_id : Text
  pub master_key : Text

pub record Member : Type 0 where
  pub user_id : Text
  pub email : Text
  pub role : Text

pub record Team : Type 0 where
  pub id : Text
  pub name : Text
  pub members : List Member
  pub created_at : ℕ

pub record Service : Type 0 where
  pub projects : Map Project
  pub teams : Map Team
  pub personal_team_by_user : Map Text

-- `NewService`
abbrev pub new_service : Service
new_service = record { projects = []; teams = []; personal_team_by_user = [] }

-- What one `randomID` reads: eight bytes from `rand.Read`, or `none` and the clock in nanoseconds.
pub record IdSource : Type 0 where
  pub random : Option Text
  pub nanos : ℕ

abbrev pub blank : Text → Bool
blank s = is_empty (trim_space s)

suffix : IdSource → Option Text → Text
suffix src none = decimal src.nanos
suffix src (some buf) = hex buf

-- `randomID`
unfoldable pub random_id : Text → IdSource → Text
unfolding suffix
random_id prefix src = prefix ++ (lit "_" ++ suffix src src.random)

-- `generateMasterKey`, from the 32 bytes of `rand.Read`
unfoldable pub generate_master_key : Option Text → Result Text
generate_master_key none = err master_key_failed
generate_master_key (some key) = ok (hex key)

-- `normalizeRole`
unfoldable pub normalize_role : Text → Text
normalize_role role =
    let r = to_lower (trim_space role) in
    if r == lit "owner" || r == lit "admin" || r == lit "member"
    then r
    else if is_empty r
    then lit "member"
    else []

pub new_team : IdSource → ℕ → Text → Text → Team
new_team src now name owner_id = record {
  id = random_id (lit "team") src;
  name = name;
  members = record { user_id = owner_id; email = []; role = lit "owner" } ∷ [];
  created_at = now;
}

add_personal_team : Service → Text → Team → Service × Text
add_personal_team s user_id team = (
  record s {
    teams = insert team.id team s.teams;
    personal_team_by_user = insert user_id team.id s.personal_team_by_user;
  },
  team.id,
)

personal_team : Service → IdSource → ℕ → Text → Option Text → Service × Text
personal_team s src now user_id (some team_id) = (s, team_id)
personal_team s src now user_id none =
    add_personal_team s user_id (new_team src now (lit "Personal") user_id)

-- `ensurePersonalTeamLocked`
pub ensure_personal_team : Service → IdSource → ℕ → Text → Service × Text
unfolding personal_team add_personal_team new_team
ensure_personal_team s src now user_id =
    personal_team s src now user_id (lookup user_id s.personal_team_by_user)

-- What `CreateProject` reads from outside.
pub record CreateEnv : Type 0 where
  pub team_source : IdSource
  pub project_source : IdSource
  pub key_bytes : Option Text
  pub now : ℕ

pub new_project : CreateEnv → Text → Text → Text → Text → Text → Project
new_project env owner_id name description team_id master_key = record {
  id = random_id (lit "prj") env.project_source;
  name = name;
  description = description;
  created_at = env.now;
  updated_at = env.now;
  team_id = team_id;
  owner_id = owner_id;
  master_key = master_key;
}

-- `CreateProject` after a team was chosen. A personal team made on the way stays, also on failure.
add_project :
    CreateEnv → Service → Text → Text → Text → Text → Result Text → Service × Result Project
add_project env s owner_id name description team_id (err e) = (s, err e)
add_project env s owner_id name description team_id (ok key) =
    let project = new_project env owner_id name description team_id key in
    (record s { projects = insert project.id project s.projects }, ok project)

pub create_in : CreateEnv → Text → Text → Text → Service × Text → Service × Result Project
unfolding add_project new_project
create_in env owner_id name description (s, team_id) =
    if is_some (lookup team_id s.teams)
    then add_project env s owner_id name description team_id (generate_master_key env.key_bytes)
    else (s, err team_not_found)

-- The team of a new project: the one that is named, or the owner's personal team.
pub choose_team : CreateEnv → Service → Text → Text → Service × Text
unfolding ensure_personal_team
choose_team env s owner_id team_id =
    if is_empty team_id
    then ensure_personal_team s env.team_source env.now owner_id
    else (s, team_id)

-- `CreateProject`
unfoldable pub create_project :
    CreateEnv → Service → Text → Text → Text → Text → Service × Result Project
unfolding create_in choose_team
create_project env s owner_id name description team_id =
    if blank name
    then (s, err project_name_required)
    else if blank owner_id
    then (s, err owner_id_required)
    else create_in env owner_id name description (choose_team env s owner_id team_id)

-- `GetProject`
unfoldable pub get_project : Service → Text → Result Project
get_project s id =
    if blank id then err project_id_required else or_error (lookup id s.projects) project_not_found

-- `CreateTeam`
unfoldable pub create_team : IdSource → ℕ → Service → Text → Text → Service × Result Team
unfolding new_team
create_team src now s owner_id name =
    if blank owner_id
    then (s, err owner_id_required)
    else if blank name
    then (s, err team_name_required)
    else let team = new_team src now name owner_id in
      (record s { teams = insert team.id team s.teams }, ok team)

-- the loop of `isMemberLocked`
pub has_user : Text → List Member → Bool
has_user user_id [] = false
has_user user_id (m ∷ ms) = m.user_id == user_id || has_user user_id ms

is_member_of : Text → Option Team → Bool
is_member_of user_id none = false
is_member_of user_id (some team) = has_user user_id team.members

-- `isMemberLocked`
unfoldable pub is_member : Service → Text → Text → Bool
unfolding is_member_of has_user
is_member s team_id user_id = is_member_of user_id (lookup team_id s.teams)

-- The test of `InviteMember` for an existing member who is replaced.
abbrev pub same_member : Member → Member → Bool
same_member existing member =
    (not (is_empty existing.user_id) && existing.user_id == member.user_id)
    || (not (is_empty existing.email) && existing.email == member.email)

-- The loop of `InviteMember` and the append behind it.
pub put_member : Member → List Member → List Member
put_member member [] = member ∷ []
put_member member (existing ∷ ms) =
    if same_member existing member then member ∷ ms else existing ∷ put_member member ms

invite : Service → Text → Member → Option Team → Service × Result Member
invite s team_id member none = (s, err team_not_found)
invite s team_id member (some team) = (
  record s {
    teams = insert team_id (record team { members = put_member member team.members }) s.teams;
  },
  ok member,
)

-- `InviteMember`
unfoldable pub invite_member : Service → Text → Text → Text → Text → Service × Result Member
unfolding invite put_member
invite_member s team_id user_id email role =
    if blank team_id
    then (s, err team_id_required)
    else if blank user_id && blank email
    then (s, err user_id_or_email_required)
    else if is_empty (normalize_role role)
    then (s, err invalid_role)
    else invite s team_id (record { user_id = user_id; email = email; role = normalize_role role })
        (lookup team_id s.teams)

checked_key : Project → Result Text
checked_key p = if is_empty p.master_key then err no_master_key else ok p.master_key

-- `GetProjectMasterKey`
unfoldable pub get_project_master_key : Service → Text → Result Text
unfolding checked_key
get_project_master_key s project_id = do
  project ← or_error (lookup project_id s.projects) project_not_found
  checked_key project
