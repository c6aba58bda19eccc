-- ===== src/Projects/Queries/Sql.antt =====
-- The queries over a database answer what the queries over the maps answer.
use santokit.Base.{
  ℕ, ◌≡◌, refl, sym, ap, ◌∙◌, inl, inr, Option-cases, Bool, true, false, ◌&&◌, ◌||◌, Option, none,
  some, List, [], ◌∷◌, arith, if◌then◌else◌, is_empty, is_some, length, Text, ◌==◌, lookup, ok, err,
  or_error, Error, All, ◌↔◌, project_id_required, project_not_found, no_rows,
}
use santokit.Sqlstore.Table.{select, query_row, iterated}
use santokit.Projects
use santokit.Projects.{Project, Team, Service, is_member, is_member_of, has_user, blank}
use santokit.Projects.Queries.{list_from, list_projects, stats, stats-list_projects, sees, in_team}
use santokit.Projects.Sql
use santokit.Projects.Sql.{Tables, Statement, get_project_db}
use santokit.Projects.Sql.Queries.{joined, chosen, list_projects_db, stats_db}
use santokit.Projects.Sql.Load.{
  load, teams_map, projects_map, lookup-projects_map, has_user-members_of, lookup-teams_map,
}

-- Every project of the list has a team in the table.
abbrev pub InTeams : Tables → List Project → Type 0
InTeams s = All (λ p. is_some (lookup p.team_id (teams_map s.team_members s.teams)) ≡ true)

is_member-load :
    (s : Tables) (t user : Text)
    → is_some (lookup t (teams_map s.team_members s.teams)) ≡ true
    → is_member (load s) t user ≡ joined s user t
unfolding is_member is_member_of
is_member-load s t user known = elim (Option-cases (lookup t (teams_map s.team_members s.teams))) [
  | inl missing ↦ absurd (none_known (rw missing at known))
  | inr (team, found) ↦
      rw (found, lookup-teams_map t s.team_members s.teams team found)
        (has_user-members_of user t s.team_members)
]
  where
    none_known : is_some {A = Team} none ≡ true → ⊥
    none_known h = cc

module _ (s : Tables) (user team : Text) where
  seen_lem :
      (p : Project)
      → is_some (lookup p.team_id (teams_map s.team_members s.teams)) ≡ true
      → chosen s user team p ≡ (in_team team p && sees (load s) user p.team_id)
  seen_lem p known = by_arguments user team (is_member-load s p.team_id user known)
    where
      by_arguments :
          (u t : Text)
          → is_member (load s) p.team_id u ≡ joined s u p.team_id
          → chosen s u t p ≡ (in_team t p && sees (load s) u p.team_id)
      by_arguments [] [] e = refl
      by_arguments (c ∷ u) [] e = sym e
      by_arguments [] (d ∷ t) e = ground arith
      by_arguments (c ∷ u) (d ∷ t) e = ground (arith, e)

  list_lem :
      (ps : List Project)
      → InTeams s ps
      → list_from (load s) user team (projects_map ps) ≡ select (chosen s user team) ps
  unfolding list_from select projects_map
  list_lem [] _ = refl
  list_lem (p ∷ ps) (known, rest) = ground (arith, seen_lem p known, list_lem ps rest)

module _ (fails : Statement → Option Error) (works : (st : Statement) → fails st ≡ none)
    (s : Tables) where
  -- Where the driver answers every statement and every project has a team in the table,
  -- `listProjectsDB` returns what `ListProjects` in memory returns of the maps that the tables stand
  -- for, whatever user and team are asked for; where the iteration breaks off, it returns without an
  -- error what was read up to there.
  pub list_projects_db-load :
      (stops : Option ℕ) (user team : Text)
      → InTeams s s.projects
      → list_projects_db fails stops s user team
        ≡ ok (iterated stops (list_projects (load s) user team))
  unfolding list_projects_db list_projects
  list_projects_db-load stops user team teamed =
      rw (works Statement.select_projects, list_lem s user team s.projects teamed) refl

  select_all :
      (user : Text) (ps : List Project)
      → select (chosen s user []) ps ≡ select (λ p. is_empty user || joined s user p.team_id) ps
  unfolding select
  select_all user [] = refl
  select_all [] (p ∷ ps) = ap (λ rest. p ∷ rest) (select_all [] ps)
  select_all (c ∷ user) (p ∷ ps) = ground (arith, select_all (c ∷ user) ps)

  -- Under the same conditions `statsDB` counts the projects that `Stats` in memory counts.
  pub stats_db-load :
      (user : Text) → InTeams s s.projects → (stats_db fails s user).0 ≡ (stats (load s) user).0
  unfolding stats_db list_projects
  stats_db-load user teamed =
      rw (stats-list_projects (load s) user, works Statement.select_projects)
        (ap length (sym (select_all user s.projects) ∙ sym (list_lem s user [] s.projects teamed)))

  -- Where the driver answers every statement, `GetProject` with a database finds the project that
  -- `GetProject` in memory finds in the maps that the tables stand for, and both fail otherwise.
  pub get_project-load :
      (id : Text) (p : Project)
      → (Sql.get_project fails s id ≡ ok p) ↔ (Projects.get_project (load s) id ≡ ok p)
  unfolding Sql.get_project get_project_db Projects.get_project
  get_project-load id p =
      rw (works Statement.select_project, lookup-projects_map id s.projects)
        (same (blank id) (query_row (λ row. row.id == id) s.projects))
    where
      same :
          (b : Bool) (o : Option Project)
          → ((if b then err project_id_required else or_error o no_rows) ≡ ok p)
            ↔ ((if b then err project_id_required else or_error o project_not_found) ≡ ok p)
      same true o = ((λ e. e), (λ e. e))
      same false none = ((λ e. cc), (λ e. cc))
      same false (some q) = ((λ e. e), (λ e. e))
