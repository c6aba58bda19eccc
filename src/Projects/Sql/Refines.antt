-- ===== src/Projects/Sql/Refines.antt =====
-- The service over a database does to its tables what the service in memory does to its maps.
use santokit.Base.{
  ℕ, ◌≡◌, refl, ap, ◌++◌, inl, inr, Bool-cases, true, false, Option, none, some, List, [], ◌∷◌,
  arith, is_empty, is_some, Text, lit, ◌==◌, lookup, Result, ok, Error,
}
use santokit.Sqlstore.Table.{exists, insert_row}
use santokit.Sqlstore.Transaction.{idle, begin_tx, exec_tx, commit, rollback, ◌>=>◌}
use santokit.Projects
use santokit.Projects.{
  Project, Member, Team, Service, IdSource, CreateEnv, random_id, new_team, blank, is_member,
  is_member_of,
}
use santokit.Projects.Sql
use santokit.Projects.Sql.{
  TeamRow, MemberRow, PersonalRow, Tables, Statement, same_project, same_team, same_place,
  same_owner, owner_of, team_row, transact, create_team_db, team_transaction, insert_team_row,
  insert_member_row,
}
use santokit.Projects.Sql.Load.{load, teams_map, personal_map, teams_map-new}

-- No row has the identifier of the new team.
pub record IsFreshTeam (s : Tables) (id : Text) : Type 0 where
  pub no_team : exists (λ t. t.id == id) s.teams ≡ false
  pub no_member : exists (λ m. m.team_id == id) s.team_members ≡ false

place_free :
    (id user : Text) (rows : List MemberRow)
    → exists (λ m. m.team_id == id) rows ≡ false
    → exists (same_place (owner_of id user)) rows ≡ false
unfolding exists
place_free id user [] h = refl
place_free id user (m ∷ rows) h = ground (arith, h, place_free id user rows)

module _ (fails : Statement → Option Error) (works : (st : Statement) → fails st ≡ none) where
  team_transaction_lem :
      (s : Tables) (team : Team) (owner : Text)
      → IsFreshTeam s team.id
      → team_transaction fails s team owner ≡ (
        idle (record s {
          teams = s.teams ++ team_row team ∷ [];
          team_members = s.team_members ++ owner_of team.id owner ∷ [];
        }),
        ok tt,
      )
  unfolding team_transaction insert_team_row insert_member_row insert_row begin_tx exec_tx commit
      rollback ◌>=>◌
  team_transaction_lem s team owner fresh =
      rw
        (
          works Statement.begin,
          works Statement.insert_team,
          works Statement.insert_member,
          works Statement.commit,
          fresh.no_team,
          place_free team.id owner s.team_members fresh.no_member,
        )
        refl

  -- Where the driver answers every statement and the new identifier is in no row, `CreateTeam` with a
  -- database does to the maps that its tables stand for what `CreateTeam` in memory does, and returns
  -- the same, errors included.
  pub create_team-load :
      (src : IdSource) (now : ℕ) (s : Tables) (owner name : Text)
      → IsFreshTeam s (random_id (lit "team") src)
      → (load (Sql.create_team fails src now s owner name).0
          ≡ (Projects.create_team src now (load s) owner name).0)
        × ((Sql.create_team fails src now s owner name).1
            ≡ (Projects.create_team src now (load s) owner name).1)
  unfolding Sql.create_team Projects.create_team create_team_db transact new_team
  create_team-load src now s owner name fresh = elim (Bool-cases (blank owner)) [
    | inl nobody ↦ rw nobody (refl, refl)
    | inr owned ↦ elim (Bool-cases (blank name)) [
      | inl unnamed ↦ rw (owned, unnamed) (refl, refl)
      | inr named ↦
          rw (owned, named, team_transaction_lem s (new_team src now name owner) owner fresh)
            (
              ap (λ teams. record (load s) { teams = teams })
                  (teams_map-new (team_row (new_team src now name owner)) owner s.team_members
                    s.teams fresh.no_team fresh.no_member),
              refl,
            )
    ]
  ]

-- A user's personal team has a name and exists, and no row has the identifier of a team that is made on
-- the way, nor that of the new project.
pub record IsReady (env : CreateEnv) (s : Tables) : Type 0 where
  pub named :
      (user t : Text) → lookup user (personal_map s.personal_teams) ≡ some t → is_empty t ≡ false
  pub kept :
      (user t : Text)
      → lookup user (personal_map s.personal_teams) ≡ some t
      → is_some (lookup t (teams_map s.team_members s.teams)) ≡ true
  pub fresh : IsFreshTeam s (random_id (lit "team") env.team_source)
  pub fresh_project :
      exists (λ p. p.id == random_id (lit "prj") env.project_source) s.projects ≡ false

module _ (fails : Statement → Option Error) (works : (st : Statement) → fails st ≡ none)
    (env : CreateEnv) (s : Tables) (ready : IsReady env s) where
  -- What choosing a team of an owner does, on both sides.
  record Chosen (db : Tables × Result Text) (memory : Service × Text) : Type 0 where
    same_projects : db.0.projects ≡ s.projects
    loaded : load db.0 ≡ memory.0
    answer : db.1 ≡ ok memory.1
    exists_there : is_some (lookup memory.1 memory.0.teams) ≡ true
