-- ===== src/Projects/Sql/Queries.antt =====
-- `listProjectsDB`, `listTeamsDB` and `statsDB`.
use santokit.Base.{
  ℕ, Bool, true, ◌&&◌, ◌||◌, Option, List, [], ◌∷◌, if◌then◌else◌, is_empty, length, Text, ◌==◌,
  Map, insert, Result, ok, err, Error,
}
use santokit.Sqlstore.Table.{select, exists, answered, iterated}
use santokit.Projects.{Project, Team}
use santokit.Projects.Sql.{TeamRow, MemberRow, Tables, Statement, select_projects, select_teams}

-- JOIN team_members m ON m.team_id = … WHERE m.user_id = ?
abbrev pub joined : Tables → Text → Text → Bool
joined s user_id team_id = exists (λ m. m.team_id == team_id && m.user_id == user_id) s.team_members

-- The condition of the query that the four cases of `listProjectsDB` choose. DISTINCT leaves one row of
-- a project, since its identifier is the primary key.
abbrev pub chosen : Tables → Text → Text → Project → Bool
chosen s [] [] p = true
chosen s (c ∷ user_id) [] p = joined s (c ∷ user_id) p.team_id
chosen s [] (d ∷ team_id) p = p.team_id == d ∷ team_id
chosen s (c ∷ user_id) (d ∷ team_id) p =
    joined s (c ∷ user_id) p.team_id && p.team_id == d ∷ team_id

-- The key COALESCE(NULLIF(user_id, ''), NULLIF(email, '')), empty for NULL.
abbrev key_of : MemberRow → Text
key_of m = if is_empty m.user_id then m.email else m.user_id

-- COUNT(DISTINCT …), which leaves NULL out
distinct : List MemberRow → Map (Unit {0}) → Map (Unit {0})
distinct [] set = set
distinct (m ∷ rows) set =
    distinct rows (if is_empty (key_of m) then set else insert (key_of m) tt set)

module _ (fails : Statement → Option Error) where
  -- `listProjectsDB`; `stops` is where the iteration breaks off, if it does.
  unfoldable pub list_projects_db : Option ℕ → Tables → Text → Text → Result (List Project)
  list_projects_db stops s user_id team_id =
      answered (fails select_projects)
        (ok (iterated stops (select (chosen s user_id team_id) s.projects)))

  teams_of : List TeamRow → List Team
  teams_of [] = []
  teams_of (t ∷ rows) =
      record { id = t.id; name = t.name; members = []; created_at = t.created_at } ∷ teams_of rows

  -- `listTeamsDB`, which reads no members
  unfoldable pub list_teams_db : Option ℕ → Tables → Text → Result (List Team)
  unfolding teams_of
  list_teams_db stops s user_id = answered (fails select_teams) (
      ok (
        teams_of
          (iterated stops (select (λ t. is_empty user_id || joined s user_id t.id) s.teams))))

  -- The count of a query whose error is ignored.
  abbrev pub counted : Result ℕ → ℕ
  counted (ok n) = n
  counted (err e) = 0

  -- The members who share a team that exists with the user.
  abbrev shares : Tables → Text → MemberRow → Bool
  shares s user_id m = exists (λ t. t.id == m.team_id) s.teams && joined s user_id m.team_id

  -- The two counts of `statsDB` that are not constants: projects and users.
  unfoldable pub stats_db : Tables → Text → ℕ × ℕ
  unfolding distinct
  stats_db s user_id = (
    counted (
        answered (fails select_projects)
          (ok (length (select (λ p. is_empty user_id || joined s user_id p.team_id) s.projects)))),
    counted (
        answered (fails select_teams) (
          ok (
            length (
              distinct
                (if is_empty user_id
                  then s.team_members
                  else select (shares s user_id) s.team_members)
                [])))),
  )
