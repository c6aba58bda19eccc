-- ===== src/Projects/Sql/Load.antt =====
-- The tables as the maps of the service: every project and team under its identifier, a team with the
-- members of its rows.
use santokit.Base.{
  ◌≡◌, refl, ◌++◌, false, ◌&&◌, none, some, List, [], ◌∷◌, arith, if◌then◌else◌, Text, ◌==◌, eq_iff,
  eq_refl, Map, lookup, insert, is_some,
}
use santokit.Sqlstore.Table.{exists, query_row}
use santokit.Projects.{Project, Member, Team, Service, has_user}
use santokit.Projects.Sql.{
  TeamRow, MemberRow, PersonalRow, Tables, same_team, same_project, same_owner, owner_of,
}

abbrev member_of_row : MemberRow → Member
member_of_row m = record { user_id = m.user_id; email = m.email; role = m.role }

unfoldable pub members_of : Text → List MemberRow → List Member
members_of team_id [] = []
members_of team_id (m ∷ rows) =
    let rest = members_of team_id rows in
    if m.team_id == team_id then member_of_row m ∷ rest else rest

abbrev pub team_of : List MemberRow → TeamRow → Team
team_of rows t = record {
  id = t.id;
  name = t.name;
  members = members_of t.id rows;
  created_at = t.created_at;
}

unfoldable pub teams_map : List MemberRow → List TeamRow → Map Team
teams_map rows [] = []
teams_map rows (t ∷ ts) = (t.id, team_of rows t) ∷ teams_map rows ts

unfoldable pub projects_map : List Project → Map Project
projects_map [] = []
projects_map (p ∷ ps) = (p.id, p) ∷ projects_map ps

unfoldable pub personal_map : List PersonalRow → Map Text
personal_map [] = []
personal_map (r ∷ rs) = (r.user_id, r.team_id) ∷ personal_map rs

-- The service that the tables stand for.
abbrev pub load : Tables → Service
load s = record {
  projects = projects_map s.projects;
  teams = teams_map s.team_members s.teams;
  personal_team_by_user = personal_map s.personal_teams;
}

pub projects_map-append :
    (p : Project) (ps : List Project)
    → exists (same_project p) ps ≡ false
    → projects_map (ps ++ p ∷ []) ≡ insert p.id p (projects_map ps)
unfolding projects_map insert exists
projects_map-append p [] h = refl
projects_map-append p (x ∷ ps) h = ground (arith, h, projects_map-append p ps)

pub personal_map-append :
    (r : PersonalRow) (rs : List PersonalRow)
    → exists (same_owner r) rs ≡ false
    → personal_map (rs ++ r ∷ []) ≡ insert r.user_id r.team_id (personal_map rs)
unfolding personal_map insert exists
personal_map-append r [] h = refl
personal_map-append r (x ∷ rs) h = ground (arith, h, personal_map-append r rs)

members_of-append :
    (t : Text) (m : MemberRow) (rows : List MemberRow)
    → members_of t (rows ++ m ∷ [])
      ≡ (if m.team_id == t then members_of t rows ++ member_of_row m ∷ [] else members_of t rows)
unfolding members_of
members_of-append t m [] = refl
members_of-append t m (x ∷ rows) = ground (arith, members_of-append t m rows)

members_of_none :
    (t : Text) (rows : List MemberRow)
    → exists (λ m. m.team_id == t) rows ≡ false
    → members_of t rows ≡ []
unfolding members_of exists
members_of_none t [] h = refl
members_of_none t (x ∷ rows) h = ground (arith, h, members_of_none t rows)

-- A member of another team changes no team of the list.
teams_map_other :
    (m : MemberRow) (rows : List MemberRow) (ts : List TeamRow)
    → exists (λ t. t.id == m.team_id) ts ≡ false
    → teams_map (rows ++ m ∷ []) ts ≡ teams_map rows ts
unfolding teams_map exists
teams_map_other m rows [] h = refl
teams_map_other m rows (t ∷ ts) h = ground (
  arith,
  h,
  teams_map_other m rows ts,
  members_of-append t.id m rows,
  eq_iff t.id m.team_id,
  eq_iff m.team_id t.id,
)

teams_map-append :
    (rows : List MemberRow) (r : TeamRow) (ts : List TeamRow)
    → exists (same_team r) ts ≡ false
    → teams_map rows (ts ++ r ∷ []) ≡ insert r.id (team_of rows r) (teams_map rows ts)
unfolding teams_map insert exists
teams_map-append rows r [] h = refl
teams_map-append rows r (t ∷ ts) h = ground (arith, h, teams_map-append rows r ts)

-- A new team with its owner is the team that is inserted into the map.
pub teams_map-new :
    (r : TeamRow) (user : Text) (rows : List MemberRow) (ts : List TeamRow)
    → exists (same_team r) ts ≡ false
    → exists (λ m. m.team_id == r.id) rows ≡ false
    → teams_map (rows ++ owner_of r.id user ∷ []) (ts ++ r ∷ [])
      ≡ insert r.id
          (record {
            id = r.id;
            name = r.name;
            members = member_of_row (owner_of r.id user) ∷ [];
            created_at = r.created_at;
          })
          (teams_map rows ts)
teams_map-new r user rows ts fresh unused =
    rw
      (
        teams_map-append (rows ++ owner_of r.id user ∷ []) r ts fresh,
        teams_map_other (owner_of r.id user) rows ts fresh,
        members_of-append r.id (owner_of r.id user) rows,
        members_of_none r.id rows unused,
        eq_refl r.id,
      )
      refl

pub lookup-projects_map :
    (id : Text) (ps : List Project)
    → lookup id (projects_map ps) ≡ query_row (λ row. row.id == id) ps
unfolding projects_map lookup query_row
lookup-projects_map id [] = refl
lookup-projects_map id (p ∷ ps) = ground (arith, lookup-projects_map id ps)

pub has_user-members_of :
    (user t : Text) (rows : List MemberRow)
    → has_user user (members_of t rows) ≡ exists (λ m. m.team_id == t && m.user_id == user) rows
unfolding members_of exists has_user
has_user-members_of user t [] = refl
has_user-members_of user t (m ∷ rows) = ground (arith, has_user-members_of user t rows)

pub lookup-teams_map :
    (id : Text) (rows : List MemberRow) (ts : List TeamRow) (team : Team)
    → lookup id (teams_map rows ts) ≡ some team
    → team.members ≡ members_of id rows
unfolding teams_map lookup
lookup-teams_map id rows [] team h = cc
lookup-teams_map id rows (t ∷ ts) team h =
    ground (arith, h, eq_iff t.id id, lookup-teams_map id rows ts team)

-- Both ways to look for the personal team of a user.
pub lookup-personal_map :
    (user : Text) (rows : List PersonalRow)
    → (exists (λ r. r.user_id == user) rows ≡ is_some (lookup user (personal_map rows)))
      × (elim (query_row (λ r. r.user_id == user) rows) [ none ↦ [] | some r ↦ r.team_id ]
          ≡ elim (lookup user (personal_map rows)) [ none ↦ [] | some t ↦ t ])
unfolding exists query_row personal_map lookup
lookup-personal_map user [] = (refl, refl)
lookup-personal_map user (r ∷ rows) =
    let (known, found) = lookup-personal_map user rows in
    (ground (arith, known), ground (arith, found))
