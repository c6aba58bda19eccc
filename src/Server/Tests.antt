-- ===== src/Server/Tests.antt =====
-- A hub with no variable set, and one with a key that is too short.
use santokit.Base.{
  ◌≡◌, refl, true, false, ◌&&◌, ◌||◌, some, List, [], ◌∷◌, eqb, if◌then◌else◌, length, is_empty,
  Text, lit, ◌==◌, is_ok,
}
use santokit.Base.Strings.{has_prefix}
use santokit.Vault
use santokit.Sqlstore.Dsn.{normalize_dsn}
use santokit.Sqlstore.Open.{Driver, statements, migrate, open_database}
use santokit.Server.{default_url, get_env, load, start}
use santokit.Server.Laws.{start_lem}

-- A database that remembers its statements.
abbrev driver : Driver
driver = record {
  Db = List Text;
  connect = λ dsn. some [];
  ping = λ db. true;
  exec = λ db s. some (s ∷ db);
}

abbrev short_key : Text → Text
short_key name = if name == lit "STK_ENCRYPTION_KEY" then lit "secret" else []

server : Unit {0}
unfolding start load get_env Vault.new_service normalize_dsn has_prefix migrate open_database
    statements ◌==◌
server = tt

default_test : is_ok (start driver (λ name. []) (lit "/root")) ≡ true
unfolding server
default_test = refl

short_test : is_ok (start driver short_key (lit "/root")) ≡ false
unfolding server
short_test = refl

start_lem_example : is_ok (start driver short_key (lit "/root")) ≡ (
    is_ok
      (open_database driver (lit "/root") (get_env short_key (lit "STK_DATABASE_URL") default_url))
    && (is_empty (short_key (lit "STK_ENCRYPTION_KEY"))
        || eqb (length (short_key (lit "STK_ENCRYPTION_KEY"))) 32))
start_lem_example = start_lem driver short_key (lit "/root")
