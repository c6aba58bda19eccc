-- ===== src/Registry/Memory.antt =====
-- The registry repository of packages/hub/internal/store/memory/registry.go: for each project the
-- manifests in the order in which they were saved.
pub mod Versions
pub mod Pushes
use santokit.Base.{
  ℕ, ◌≡◌, ◌++◌, Option, none, some, List, [], ◌∷◌, get_or, if◌then◌else◌, get_last?, Text, ◌==◌,
  Map, lookup, insert, Result, ok, err, manifest_not_found, version_not_found, or_error,
}
use santokit.Base.Sort.{sort_strings}
use santokit.Registry.{Manifest, Repository}

abbrev pub Manifests : Type 0
Manifests = Map (List Manifest)

-- `Save`
unfoldable pub save : Manifests → Manifest → Manifests
save s m = insert m.project_id (get_or (lookup m.project_id s) [] ++ m ∷ []) s

-- `GetLatest`: the last element, and an error for an unknown project or an empty list
unfoldable pub get_latest : Manifests → Text → Result Manifest
get_latest s project_id = or_error (get_last? (get_or (lookup project_id s) [])) manifest_not_found

-- the loop of `GetByVersion`
find_version : Text → List Manifest → Result Manifest
find_version version [] = err version_not_found
find_version version (m ∷ ms) = if m.version == version then ok m else find_version version ms

find_in : Text → Option (List Manifest) → Result Manifest
find_in version none = err manifest_not_found
find_in version (some list) = find_version version list

-- `GetByVersion`
unfoldable pub get_by_version : Manifests → Text → Text → Result Manifest
unfolding find_in find_version
get_by_version s project_id version = find_in version (lookup project_id s)

versions : List Manifest → List Text
versions [] = []
versions (m ∷ ms) = m.version ∷ versions ms

sorted_versions : Option (List Manifest) → List Text
sorted_versions none = []
sorted_versions (some list) = sort_strings (versions list)

-- `ListVersions`
unfoldable pub list_versions : Manifests → Text → List Text
unfolding sorted_versions versions
list_versions s project_id = sorted_versions (lookup project_id s)

abbrev pub repository : Repository
repository = record {
  Store = Manifests;
  get_latest = get_latest;
  get_by_version = get_by_version;
  save = λ s m. ok (save s m);
  list_versions = λ s p. ok (list_versions s p);
}
