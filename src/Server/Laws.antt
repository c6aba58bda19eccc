-- ===== src/Server/Laws.antt =====
-- When the hub starts.
use santokit.Base.{
  ◌≡◌, refl, ap, ◌∙◌, inl, inr, Bool-cases, Bool, ◌&&◌, ◌||◌, [], ◌∷◌, eqb, length, if◌then◌else◌,
  is_empty, Text, lit, Result, ok, err, is_ok,
}
use santokit.Vault
use santokit.Sqlstore.Open.{Driver, open_database}
use santokit.Server.{Config, default_key, default_url, get_env, load, start_with, start}

key_fits : Text → Bool
key_fits key = is_empty key || eqb (length key) 32

default_or_given :
    (key : Text) → eqb (length (if is_empty key then default_key else key)) 32 ≡ key_fits key
unfolding key_fits
default_or_given [] = refl
default_or_given (c ∷ key) = refl

module _ (driver : Driver) where
  opens : Result (driver.Db × Text) → Text → Bool
  opens opened key = is_ok opened && eqb (length key) 32

  started :
      (config : Config) (home : Text) (opened : Result (driver.Db × Text))
      → open_database driver home config.database_url ≡ opened
      → is_ok (start_with driver config home) ≡ opens opened config.encryption_key
  unfolding start_with opens Vault.new_service
  started config home (err e) known = rw known refl
  started config home (ok x) known = elim (Bool-cases (eqb (length config.encryption_key) 32)) [
    | inl fits ↦ rw (known, fits) refl
    | inr wrong ↦ rw (known, wrong) refl
  ]

  -- The hub starts just where the database opens, at the URL of the environment or the default one,
  -- and the environment sets no encryption key or one of 32 bytes; with no key set it is the default
  -- one.
  pub start_lem :
      (getenv : Text → Text) (home : Text)
      → is_ok (start driver getenv home) ≡ (
          is_ok (open_database driver home (get_env getenv (lit "STK_DATABASE_URL") default_url))
          && (is_empty (getenv (lit "STK_ENCRYPTION_KEY"))
              || eqb (length (getenv (lit "STK_ENCRYPTION_KEY"))) 32))
  unfolding start load get_env opens key_fits
  start_lem getenv home =
      started (load getenv) home _ refl
      ∙ ap (λ fits. is_ok (open_database driver home (load getenv).database_url) && fits)
          (default_or_given (getenv (lit "STK_ENCRYPTION_KEY")))
