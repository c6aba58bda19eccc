-- ===== src/Projects/Sql/Invites.antt =====
-- Transactions that fail, and what an invitation does to the rows of a team.
use santokit.Base.{
  ◌≡◌, ◌≢◌, refl, Bool, true, false, ◌&&◌, Option, none, [], ◌∷◌, ◌++◌, arith, is_empty, Text, ◌==◌,
  eq_iff, eq_refl, ok, Error,
}
use santokit.Sqlstore.Table.{
  exists, exists-append, exists-delete_where, exists-delete_where_self, delete_where, insert_row,
}
use santokit.Sqlstore.Transaction.{idle, begin_tx, exec_tx, commit, rollback, ◌>=>◌}
use santokit.Projects.{normalize_role}
use santokit.Projects.Sql.{
  MemberRow, Tables, Statement, same_place, transact, invite_member_db, invite_transaction,
  insert_member_row, delete_member_row,
}

abbrev pub invited_row : Text → Text → Text → Text → MemberRow
invited_row team user email role = record {
  team_id = team;
  user_id = user;
  email = email;
  role = role;
}

-- The row of an invitation.
abbrev pub exactly : MemberRow → MemberRow → Bool
exactly new row = same_place new row && row.role == new.role

module _ (fails : Statement → Option Error) (works : (st : Statement) → fails st ≡ none)
    (s : Tables) (row : MemberRow) where
  invite_transaction_lem : invite_transaction fails s row ≡ (
    idle (record s { team_members = delete_where (same_place row) s.team_members ++ row ∷ [] }),
    ok tt,
  )
  unfolding invite_transaction delete_member_row insert_member_row insert_row begin_tx exec_tx
      commit rollback ◌>=>◌
  invite_transaction_lem =
      rw
        (
          works Statement.begin,
          works Statement.delete_member,
          works Statement.insert_member,
          works Statement.commit,
          exists-delete_where_self (same_place row) s.team_members,
        )
        refl

module _ (fails : Statement → Option Error) (works : (st : Statement) → fails st ≡ none)
    (s : Tables) (team user email role : Text)
    (accepted : is_empty (normalize_role role) ≡ false) where
  abbrev row : MemberRow
  row = record { team_id = team; user_id = user; email = email; role = normalize_role role }

  invite_member_db_lem : invite_member_db fails s team user email role ≡ (
    record s { team_members = delete_where (same_place row) s.team_members ++ row ∷ [] },
    ok (record { user_id = user; email = email; role = normalize_role role }),
  )
  unfolding invite_member_db transact
  invite_member_db_lem = rw (accepted, invite_transaction_lem fails works s row) refl

  -- Where the driver answers every statement and the role is accepted, `inviteMemberDB` stores the row
  -- of the invitation, whether the team exists or not.
  pub invite_member_db_stores :
      exists (exactly row) (invite_member_db fails s team user email role).0.team_members ≡ true
  invite_member_db_stores =
      rw
        (
          invite_member_db_lem,
          exists-append (exactly row) (delete_where (same_place row) s.team_members) (row ∷ []),
        )
        (unfold exists in
          ground (arith, eq_refl team, eq_refl user, eq_refl email, eq_refl (normalize_role role)))

  -- An invitation of a user under another address than that of a row of the user leaves that row, with
  -- its role: inviting an owner again as a plain member takes nothing from the owner.
  pub invite_member_db_keeps :
      (old : MemberRow)
      → old.email ≢ email
      → exists (exactly old) s.team_members ≡ true
      → exists (exactly old) (invite_member_db fails s team user email role).0.team_members ≡ true
  invite_member_db_keeps old other there =
      rw
        (
          invite_member_db_lem,
          exists-append (exactly old) (delete_where (same_place row) s.team_members) (row ∷ []),
          exists-delete_where (same_place row) (exactly old) s.team_members apart,
          there,
        )
        refl
    where
      apart : (m : MemberRow) → exactly old m ≡ true → same_place row m ≡ false
      apart m h = ground (arith, h, other, eq_iff m.email old.email, eq_iff m.email email)
