-- ===== src/Sqlstore/Dsn.antt =====
-- The choice of a database by its URL, `normalizeDSN` and `sqlitePath` of
-- packages/hub/internal/store/sqlstore/store.go. The home directory is an argument; the directory that
-- `sqlitePath` makes is left out, since the code ignores whether that succeeds.
pub mod Laws
use santokit.Base.{
  ℕ, Bool, true, false, not, ◌||◌, Option, none, some, List, [], ◌∷◌, ◌++◌, drop, length, is_some,
  if◌then◌else◌, is_empty, Text, lit, ◌==◌, Result, ok, err, unsupported_url,
}
use santokit.Base.Strings.{has_prefix, has_suffix}
use santokit.Base.Strings.Search.{cut}
use santokit.Base.Paths.{join}
use santokit.Sqlstore.Rebind.{postgres, sqlite}

-- The driver, the name that it opens, and the dialect.
pub record Dsn : Type 0 where
  pub driver : Text
  pub normalized : Text
  pub dialect : Text

-- `strings.TrimPrefix`
pub trim_prefix : Text → Text → Text
trim_prefix s prefix = if has_prefix s prefix then drop (length prefix) s else s

abbrev options : Text
options = lit "?cache=shared&_pragma=foreign_keys(1)"

in_home : Text → Text → Text
in_home home path = join (join home (lit ".santokit")) path

-- `sqlitePath`
unfoldable pub sqlite_path : Text → Text → Text
unfolding in_home
sqlite_path home path =
    if has_prefix path (lit "file:")
    then path
    else let name = if is_empty path then lit "hub.db" else path in
      lit "file:" ++ ((if has_prefix name (lit "/") then name else in_home home name) ++ options)

abbrev to_sqlite : Text → Dsn
to_sqlite name = record { driver = lit "sqlite"; normalized = name; dialect = sqlite }

-- `normalizeDSN`
unfoldable pub normalize_dsn : Text → Text → Result Dsn
unfolding trim_prefix in_home
normalize_dsn home dsn =
    if has_prefix dsn (lit "postgres://") || has_prefix dsn (lit "postgresql://")
    then ok (record { driver = lit "pgx"; normalized = dsn; dialect = postgres })
    else if is_empty dsn
    then ok (to_sqlite (lit "file:" ++ (in_home home (lit "hub.db") ++ options)))
    else if has_prefix dsn (lit "sqlite://")
    then ok (to_sqlite (sqlite_path home (trim_prefix dsn (lit "sqlite://"))))
    else if has_prefix dsn (lit "file:") || has_suffix dsn (lit ".db")
    then ok (to_sqlite (sqlite_path home (trim_prefix dsn (lit "file:"))))
    else if is_some (cut (lit "/") dsn)
    then ok (to_sqlite (sqlite_path home dsn))
    else err unsupported_url
