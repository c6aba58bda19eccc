-- ===== src/Registry/Memory/Pushes.antt =====
-- What the registry answers after `Push` over its memory repository.
use santokit.Base.{◌≡◌, refl, true, List, arith, if◌then◌else◌, Text, ◌==◌, contains, ok, is_ok}
use santokit.Registry.{
  Bundle, Manifest, EdgeStores, PushEnv, push, get_latest, new_manifest, after_save,
}
use santokit.Registry.Memory.{Manifests, repository, save, get_by_version, list_versions}
use santokit.Registry.Memory.Versions.{get_latest-save, get_by_version-save, list_versions_lem}

module _ (env : PushEnv) (edge : EdgeStores) (s : Manifests) (p : Text) (bundles : List Bundle)
    (user : Text) where
  abbrev made : Manifest
  made = new_manifest env p bundles user

  listed : contains env.version (list_versions (save s made) p) ≡ true
  unfolding new_manifest
  listed =
      let (sorted, held) = list_versions_lem (save s made) p env.version in
      ground (arith, held, get_by_version-save s made)

  -- In memory a `Push` always succeeds. Then the latest manifest of the project is the one that it
  -- returned, with the project, the bundles, the user and the version of the call, and every other
  -- project has the latest manifest that it had; `GetByVersion` answers it for its version, unless the
  -- project had that version before, when it goes on to answer the older manifest. `ListVersions` of the project holds the version.
  pub reads-push :
      (m : Manifest) × (s' : Manifests) × ((push repository env edge s p bundles user).1
        ≡ ok (m, s'))
      × ((q : Text)
          → get_latest repository s' q ≡ (if p == q then ok m else get_latest repository s q))
      × (get_by_version s' p env.version ≡ (
          if is_ok (get_by_version s p env.version) then get_by_version s p env.version else ok m))
      × (contains env.version (list_versions s' p) ≡ true)
      × (m.project_id ≡ p)
      × (m.bundles ≡ bundles)
      × (m.created_by ≡ user)
      × (m.version ≡ env.version)
  unfolding push after_save new_manifest get_latest
  reads-push = (
    made,
    save s made,
    refl,
    λ q. get_latest-save s made q,
    get_by_version-save s made,
    listed,
    refl,
    refl,
    refl,
    refl,
  )
