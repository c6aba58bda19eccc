-- ===== src/ProjectConfig/Laws.antt =====
-- A configuration is read back as it was set, and no other project's changes.
use santokit.Base.{◌≡◌, refl, [], ◌∷◌, arith, if◌then◌else◌, Text, ◌==◌, lookup-insert, ok}
use santokit.ProjectConfig
use santokit.ProjectConfig.{Config, Repository, by_project}

-- What the service relies on.
pub record IsMap (r : Repository) : Type 0 where
  pub get-set :
      (s : r.Store) (p q : Text) (c : Config) (s' : r.Store)
      → r.set s p c ≡ ok s'
      → r.get s' q ≡ (if p == q then ok c else r.get s q)

pub by_project-IsMap : IsMap by_project
by_project-IsMap = record { get-set = λ s p q c s' e. ground (arith, e, lookup-insert p q c s) }

module _ (r : Repository) (map : IsMap r) where
  -- Over a repository that is a map, after a successful `Set` the project's `Get` returns the
  -- configuration, and any other `Get` what it returned before.
  pub get-set_config :
      (s s' : r.Store) (p q : Text) (c : Config)
      → ProjectConfig.set r s p c ≡ ok s'
      → ProjectConfig.get r s' q ≡ (if p == q then ok c else ProjectConfig.get r s q)
  unfolding ProjectConfig.set ProjectConfig.get ◌==◌
  get-set_config s s' [] q c e = cc
  get-set_config s s' (a ∷ p) [] c e = refl
  get-set_config s s' (a ∷ p) (b ∷ q) c e = map.get-set s (a ∷ p) (b ∷ q) c s' e
