-- ===== src/Sqlstore/Open.antt =====
-- `Open` and `migrate` of packages/hub/internal/store/sqlstore/store.go. What the driver answers is an
-- argument: a connection, whether it can be reached, and whether a statement succeeds.
use santokit.Base.{
  Bool, Option, List, [], ◌∷◌, ◌++◌, Text, lit, Result, ok, ◌>>=◌, ◌>>◌, or_error, fail_if, not,
  open_failed, ping_failed, migrate_failed,
}
use santokit.Sqlstore.Dsn.{Dsn, normalize_dsn}

-- The driver of `database/sql`; `exec` leaves the connection with the table in place.
pub record Driver : Type 1 where
  pub Db : Type 0
  -- `sql.Open`
  pub connect : Dsn → Option Db
  pub ping : Db → Bool
  pub exec : Db → Text → Option Db

-- The lines of a statement.
lines : List Text → Text
lines [] = []
lines (s ∷ []) = s
lines (s ∷ t ∷ rest) = s ++ b'\n' ∷ lines (t ∷ rest)

-- The statements of `migrate`
unfoldable pub statements : List Text
unfolding lines
statements =
    lines (
      lit "CREATE TABLE IF NOT EXISTS registry_manifests ("
      ∷ lit "\t\t\tid TEXT PRIMARY KEY,"
      ∷ lit "\t\t\tproject_id TEXT NOT NULL,"
      ∷ lit "\t\t\tversion TEXT NOT NULL,"
      ∷ lit "\t\t\tbundles TEXT NOT NULL,"
      ∷ lit "\t\t\tcreated_at TIMESTAMP NOT NULL,"
      ∷ lit "\t\t\tcreated_by TEXT NOT NULL"
      ∷ lit "\t\t)"
      ∷ [])
    ∷ lines (
        lit "CREATE TABLE IF NOT EXISTS vault_secrets ("
        ∷ lit "\t\t\tproject_id TEXT NOT NULL,"
        ∷ lit "\t\t\tsecret_key TEXT NOT NULL,"
        ∷ lit "\t\t\tencrypted_value TEXT NOT NULL,"
        ∷ lit "\t\t\tPRIMARY KEY (project_id, secret_key)"
        ∷ lit "\t\t)"
        ∷ [])
    ∷ lines (
        lit "CREATE TABLE IF NOT EXISTS project_configs ("
        ∷ lit "\t\t\tproject_id TEXT PRIMARY KEY,"
        ∷ lit "\t\t\tdatabases TEXT NOT NULL,"
        ∷ lit "\t\t\tauth TEXT NOT NULL,"
        ∷ lit "\t\t\tstorage TEXT NOT NULL"
        ∷ lit "\t\t)"
        ∷ [])
    ∷ lines (
        lit "CREATE TABLE IF NOT EXISTS projects ("
        ∷ lit "\t\t\tid TEXT PRIMARY KEY,"
        ∷ lit "\t\t\tname TEXT NOT NULL,"
        ∷ lit "\t\t\tdescription TEXT NOT NULL,"
        ∷ lit "\t\t\tcreated_at TIMESTAMP NOT NULL,"
        ∷ lit "\t\t\tupdated_at TIMESTAMP NOT NULL,"
        ∷ lit "\t\t\tteam_id TEXT NOT NULL,"
        ∷ lit "\t\t\towner_id TEXT NOT NULL,"
        ∷ lit "\t\t\tmaster_key TEXT NOT NULL"
        ∷ lit "\t\t)"
        ∷ [])
    ∷ lines (
        lit "CREATE TABLE IF NOT EXISTS teams ("
        ∷ lit "\t\t\tid TEXT PRIMARY KEY,"
        ∷ lit "\t\t\tname TEXT NOT NULL,"
        ∷ lit "\t\t\tcreated_at TIMESTAMP NOT NULL"
        ∷ lit "\t\t)"
        ∷ [])
    ∷ lines (
        lit "CREATE TABLE IF NOT EXISTS team_members ("
        ∷ lit "\t\t\tteam_id TEXT NOT NULL,"
        ∷ lit "\t\t\tuser_id TEXT NOT NULL,"
        ∷ lit "\t\t\temail TEXT NOT NULL,"
        ∷ lit "\t\t\trole TEXT NOT NULL,"
        ∷ lit "\t\t\tPRIMARY KEY (team_id, user_id, email)"
        ∷ lit "\t\t)"
        ∷ [])
    ∷ lines (
        lit "CREATE TABLE IF NOT EXISTS personal_teams ("
        ∷ lit "\t\t\tuser_id TEXT PRIMARY KEY,"
        ∷ lit "\t\t\tteam_id TEXT NOT NULL"
        ∷ lit "\t\t)"
        ∷ [])
    ∷ []

module _ (driver : Driver) where
  exec_all : driver.Db → List Text → Result driver.Db
  exec_all db [] = ok db
  exec_all db (s ∷ ss) = or_error (driver.exec db s) migrate_failed >>= λ after. exec_all after ss

  -- `migrate`
  unfoldable pub migrate : driver.Db → Result driver.Db
  unfolding exec_all
  migrate db = exec_all db statements

  -- `Open`, with the home directory: the database and its dialect
  unfoldable pub open_database : Text → Text → Result (driver.Db × Text)
  open_database home dsn = do
    x ← normalize_dsn home dsn
    db ← or_error (driver.connect x) open_failed
    fail_if (not (driver.ping db)) ping_failed
    db ← migrate db
    ok (db, x.dialect)
