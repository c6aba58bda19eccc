-- ===== src/Registry/Laws.antt =====
-- What `Push` does to the repository, on success and on failure.
use santokit.Base.{◌≡◌, refl, List, arith, if◌then◌else◌, Text, ◌==◌, Result, ok, err, Error}
use santokit.Registry.{
  Bundle, Manifest, Repository, IsLog, EdgeStores, PushEnv, push, get_latest, new_manifest,
  after_save,
}

-- The two results of a save, and what `Push` makes of them.
after_save-cases {ℓ} :
    {Store : Type ℓ} (env : PushEnv) (edge : EdgeStores) (m m' : Manifest) (saved : Result Store)
    (store' : Store)
    → (after_save env edge m saved).1 ≡ ok (m', store')
    → (saved ≡ ok store') × (m' ≡ m)
unfolding after_save
after_save-cases env edge m m' (ok s) store' h = ground arith
after_save-cases env edge m m' (err e) store' h = cc

after_save_refused {ℓ} :
    {Store : Type ℓ} (env : PushEnv) (edge : EdgeStores) (m : Manifest) (saved : Result Store)
    (e : Error)
    → (after_save env edge m saved).1 ≡ err e
    → (after_save env edge m saved).0 ≡ edge
unfolding after_save
after_save_refused env edge m (ok s) e h = cc
after_save_refused env edge m (err _) e h = refl

module _ (r : Repository) (env : PushEnv) (edge : EdgeStores) (store : r.Store) (p : Text)
    (bundles : List Bundle) (user : Text) where
  -- Over a repository that keeps the manifest saved last as the latest, after a successful `Push`
  -- the latest manifest of the project is the one that `Push` returned, with the project, the
  -- bundles, the user and the version of the call; every other project has the latest manifest
  -- that it had.
  pub get_latest-push :
      (log : IsLog r) (m : Manifest) (store' : r.Store) (q : Text)
      → (push r env edge store p bundles user).1 ≡ ok (m, store')
      → (get_latest r store' q ≡ (if p == q then ok m else get_latest r store q))
        × (m.project_id ≡ p)
        × (m.bundles ≡ bundles)
        × (m.created_by ≡ user)
        × (m.version ≡ env.version)
  unfolding push get_latest new_manifest
  get_latest-push log m store' q e =
      let (saved, same) =
        after_save-cases env edge (new_manifest env p bundles user) m
          (r.save store (new_manifest env p bundles user)) store' e in
      rw same (
        log.get_latest-save store (new_manifest env p bundles user) store' q saved,
        refl,
        refl,
        refl,
        refl,
      )

  -- A `Push` that the repository refuses returns its error and writes nothing to the edge.
  pub push_refused :
      (e : Error)
      → (push r env edge store p bundles user).1 ≡ err e
      → (push r env edge store p bundles user).0 ≡ edge
  unfolding push
  push_refused e h =
      after_save_refused env edge (new_manifest env p bundles user)
        (r.save store (new_manifest env p bundles user)) e h
