-- ===== src/Server.antt =====
-- The configuration of the hub, packages/hub/internal/config/config.go, and its start,
-- packages/hub/cmd/hub/main.go. `getenv` is the environment, where an unset variable is empty. What
-- follows the start, serving and shutting down, is net/http's.
mod Laws
mod Tests
use santokit.Base.{[], ◌++◌, if◌then◌else◌, is_empty, Text, lit, Result, ok, err, ◌>>=◌}
use santokit.Vault
use santokit.Sqlstore.Open.{Driver, open_database}

-- `Config`
pub record Config : Type 0 where
  pub server_addr : Text
  pub database_url : Text
  pub jwt_secret : Text
  pub encryption_key : Text
  pub atlas_url : Text
  pub kv_url : Text
  pub kv_token : Text

-- `getEnv`
unfoldable pub get_env : (Text → Text) → Text → Text → Text
get_env getenv key default_value = if is_empty (getenv key) then default_value else getenv key

abbrev pub default_key : Text
default_key = lit "32-byte-key-for-aes-256-gcm!!!!!"

abbrev pub default_url : Text
default_url = lit "postgres://localhost:5432/santokit?sslmode=disable"

-- `Load`
unfoldable pub load : (Text → Text) → Config
unfolding get_env
load getenv = record {
  server_addr = get_env getenv (lit "STK_HUB_ADDR") (lit ":8080");
  database_url = get_env getenv (lit "STK_DATABASE_URL") default_url;
  jwt_secret = get_env getenv (lit "STK_JWT_SECRET") (lit "change-me-in-production");
  encryption_key = get_env getenv (lit "STK_ENCRYPTION_KEY") default_key;
  atlas_url = get_env getenv (lit "STK_ATLAS_URL") [];
  kv_url = get_env getenv (lit "STK_KV_URL") [];
  kv_token = get_env getenv (lit "STK_KV_TOKEN") [];
}

module _ (driver : Driver) where
  -- What the server is started with: the database behind its repositories, and the vault.
  pub record Started : Type 0 where
    pub config : Config
    pub database : driver.Db
    pub dialect : Text
    pub vault : Vault.Service

  start_with : Config → Text → Result Started
  start_with config home = do
    opened ← open_database driver home config.database_url
    vault ← Vault.new_service config.encryption_key
    ok (record { config = config; database = opened.0; dialect = opened.1; vault = vault })

  -- `main` up to the server; an error is fatal
  unfoldable pub start : (Text → Text) → Text → Result Started
  unfolding start_with
  start getenv home = start_with (load getenv) home
