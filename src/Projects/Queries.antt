-- ===== src/Projects/Queries.antt =====
-- `ListProjects`, `ListTeams` and `Stats`, and what they return.
pub mod Sql
pub mod Teams
use santokit.Base.{
  ℕ, suc, ◌≡◌, refl, Bool, not, ◌||◌, List, [], ◌∷◌, arith, if◌then◌else◌, length, is_empty, Text,
  ◌==◌, Map, insert,
}
use santokit.Projects.{Project, Team, Member, Service, is_member}

-- The tests of `ListProjects`: an empty argument does not filter.
abbrev pub in_team : Text → Project → Bool
in_team team_id p = is_empty team_id || p.team_id == team_id

abbrev pub sees : Service → Text → Text → Bool
sees s user_id team_id = is_empty user_id || is_member s team_id user_id

list_from : Service → Text → Text → Map Project → List Project
list_from s user_id team_id [] = []
list_from s user_id team_id ((_, p) ∷ ps) =
    let rest = list_from s user_id team_id ps in
    if not (in_team team_id p)
    then rest
    else if not (sees s user_id p.team_id)
    then rest
    else p ∷ rest

-- `ListProjects`
unfoldable pub list_projects : Service → Text → Text → List Project
unfolding list_from
list_projects s user_id team_id = list_from s user_id team_id s.projects

teams_from : Service → Text → Map Team → List Team
teams_from s user_id [] = []
teams_from s user_id ((_, t) ∷ ts) =
    let rest = teams_from s user_id ts in if sees s user_id t.id then t ∷ rest else rest

-- `ListTeams`
unfoldable pub list_teams : Service → Text → List Team
unfolding teams_from
list_teams s user_id = teams_from s user_id s.teams

-- the key of a member in `memberSet`
abbrev member_key : Member → Text
member_key m = if is_empty m.user_id then m.email else m.user_id

member_set : List Member → Map (Unit {0}) → Map (Unit {0})
member_set [] set = set
member_set (m ∷ ms) set =
    member_set ms (if is_empty (member_key m) then set else insert (member_key m) tt set)

team_set : Service → Text → Map Team → Map (Unit {0}) → Map (Unit {0})
unfolding member_set
team_set s user_id [] set = set
team_set s user_id ((_, t) ∷ ts) set =
    team_set s user_id ts (if sees s user_id t.id then member_set t.members set else set)

count_projects : Service → Text → Map Project → ℕ
count_projects s user_id [] = 0
count_projects s user_id ((_, p) ∷ ps) =
    let rest = count_projects s user_id ps in if sees s user_id p.team_id then suc rest else rest

-- The two counts of `Stats` that are not constants: projects and users.
unfoldable pub stats : Service → Text → ℕ × ℕ
unfolding count_projects team_set
stats s user_id = (count_projects s user_id s.projects, length (team_set s user_id s.teams []))

count-list_from :
    (s : Service) (user_id : Text) (ps : Map Project)
    → count_projects s user_id ps ≡ length (list_from s user_id [] ps)
unfolding count_projects list_from
count-list_from s user_id [] = refl
count-list_from s user_id ((_, p) ∷ ps) = ground (arith, count-list_from s user_id ps)

-- The number of projects in the statistics of a user is the length of the list that `ListProjects`
-- gives the user with no team.
pub stats-list_projects :
    (s : Service) (user_id : Text) → (stats s user_id).0 ≡ length (list_projects s user_id [])
unfolding stats list_projects
stats-list_projects s user_id = count-list_from s user_id s.projects
