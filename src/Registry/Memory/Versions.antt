-- ===== src/Registry/Memory/Versions.antt =====
-- What the memory repository answers about the versions of a project.
use santokit.Base.{
  ◌≡◌, refl, ◌++◌, inl, inr, false, Option-cases, List, [], ◌∷◌, arith, get_or, if◌then◌else◌,
  get_last?-concat, Text, ◌==◌, eq_refl, contains, lookup, lookup-insert, ok, is_ok,
}
use santokit.Base.Sort.{contains-sort_strings, IsSorted, sort_strings-IsSorted}
use santokit.Registry.{Manifest, IsLog}
use santokit.Registry.Memory.{
  Manifests, save, get_latest, find_version, get_by_version, versions, list_versions, repository,
}

pub get_latest-save :
    (s : Manifests) (m : Manifest) (p : Text)
    → get_latest (save s m) p ≡ (if m.project_id == p then ok m else get_latest s p)
unfolding get_latest save
get_latest-save s m p =
    let list = get_or (lookup m.project_id s) [] in
    ground (arith, lookup-insert m.project_id p (list ++ m ∷ []) s, get_last?-concat list m)

-- The manifest saved last is the latest one.
pub repository-IsLog : IsLog repository
repository-IsLog = record {
  get_latest-save = λ s m s' p e. ground (arith, e, get_latest-save s m p);
}

contains-versions :
    (v : Text) (ms : List Manifest) → contains v (versions ms) ≡ is_ok (find_version v ms)
unfolding versions find_version contains
contains-versions v [] = refl
contains-versions v (m ∷ ms) = ground (arith, contains-versions v ms)

contains_nothing : (v : Text) → contains v [] ≡ false
unfolding contains
contains_nothing v = refl

-- `ListVersions` is in byte order, and a version stands in it exactly when `GetByVersion` finds
-- it.
pub list_versions_lem :
    (s : Manifests) (p v : Text)
    → IsSorted (list_versions s p) × (contains v (list_versions s p) ≡ is_ok (get_by_version s p v))
unfolding list_versions get_by_version
list_versions_lem s p v = elim (Option-cases (lookup p s)) [
  | inl missing ↦ rw (IsSorted, missing) (tt, ground (arith, missing, contains_nothing v))
  | inr (list, found) ↦ (
    rw found (sort_strings-IsSorted (versions list)),
    ground (arith, found, contains-sort_strings v (versions list), contains-versions v list),
  )
]

find_version-concat :
    (v : Text) (ms : List Manifest) (m : Manifest)
    → find_version v (ms ++ m ∷ [])
      ≡ (if is_ok (find_version v ms) then find_version v ms else find_version v (m ∷ []))
unfolding find_version
find_version-concat v [] m = refl
find_version-concat v (x ∷ ms) m = ground (arith, find_version-concat v ms m)

found_alone : (m : Manifest) → find_version m.version (m ∷ []) ≡ ok m
unfolding find_version
found_alone m = ground (arith, eq_refl m.version)

-- A manifest is found by its version after `Save`, unless the project had that version already: then
-- `GetByVersion` goes on to answer the older manifest, and the new one can only be read as the latest.
pub get_by_version-save :
    (s : Manifests) (m : Manifest)
    → get_by_version (save s m) m.project_id m.version ≡ (
        if is_ok (get_by_version s m.project_id m.version)
        then get_by_version s m.project_id m.version
        else ok m)
unfolding get_by_version save
get_by_version-save s m =
    let list = get_or (lookup m.project_id s) [] in
    ground (
      arith,
      lookup-insert m.project_id m.project_id (list ++ m ∷ []) s,
      eq_refl m.project_id,
      find_version-concat m.version list m,
      found_alone m,
    )
