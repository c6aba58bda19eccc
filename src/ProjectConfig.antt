-- ===== src/ProjectConfig.antt =====
-- The project configuration of packages/hub/internal/projectconfig/service.go, over a repository or
-- over the service's own map.
pub mod Laws
mod Tests
use santokit.Base.{
  Option, none, some, if◌then◌else◌, is_empty, Text, Map, lookup, insert, or_error, Result, ok, err,
  project_id_required, project_not_found,
}

pub record Config : Type 0 where
  pub databases : Text
  pub auth : Text
  pub storage : Text

-- The interface `Repository`. An operation that fails leaves the store as it was.
pub record Repository : Type 1 where
  pub Store : Type 0
  pub set : Store → Text → Config → Result Store
  pub get : Store → Text → Result Config

-- The map `byProject` of a service without a repository.
abbrev pub by_project : Repository
by_project = record {
  Store = Map Config;
  set = λ m project_id cfg. ok (insert project_id cfg m);
  get = λ m project_id. or_error (lookup project_id m) project_not_found;
}

module _ (r : Repository) where
  -- `Set`
  unfoldable pub set : r.Store → Text → Config → Result r.Store
  set store project_id cfg =
      if is_empty project_id then err project_id_required else r.set store project_id cfg

  -- `Get`
  unfoldable pub get : r.Store → Text → Result Config
  get store project_id =
      if is_empty project_id then err project_id_required else r.get store project_id
