-- ===== src/Api/Hub/Handlers/Manifests.antt =====
-- What a push that is answered with 200 answers.
use santokit.Base.{◌≡◌, refl, ap, inl, inr, Bool-cases, some, List, arith, Text, Result, ok, err}
use santokit.Base.Strings.{trim_space}
use santokit.Registry.{Bundle, Manifest, EdgeStores, IsLog}
use santokit.Registry
use santokit.Registry.Laws.{get_latest-push}
use santokit.Api.Token.{blank}
use santokit.Api.Http.{manifest, respond}
use santokit.Api.Hub.{Deps, Hub, Request}
use santokit.Api.Hub.Handlers.{or_local, pushed, handle_push_manifest, handle_get_manifest}
use santokit.Api.Hub.Handlers.Laws.{get_manifest-push_manifest}

module _ (d : Deps) (log : IsLog d.manifests) (h : Hub d) (r : Request) (user : Text)
    (bundles : List Bundle) where
  -- The manifest of a call.
  pub record Pushed (m : Manifest) : Type 0 where
    pub project : m.project_id ≡ trim_space r.project_header
    pub content : m.bundles ≡ bundles
    pub author : m.created_by ≡ or_local user

  push_status :
      (handle_push_manifest d h r user (some bundles)).1.status ≡ 200
      → (m : Manifest) × ((handle_push_manifest d h r user (some bundles)).1
          ≡ respond 200 (manifest m))
        × Pushed m
  unfolding handle_push_manifest
  push_status good = elim (Bool-cases (blank r.project_header)) [
    | inl missing ↦ absurd (omega (arith, rw missing at good))
    | inr given ↦ rw given (by_result _ refl (rw given at good))
  ]
    where
      by_result :
          (x : EdgeStores × Result (Manifest × d.manifests.Store))
          → Registry.push d.manifests r.push h.edge h.manifests
              (trim_space r.project_header)
              bundles
              (or_local user)
            ≡ x
          → (pushed d h x).1.status ≡ 200
          → (m : Manifest) × ((pushed d h x).1 ≡ respond 200 (manifest m)) × Pushed m
      by_result (edge, ok (m, store)) e good =
          let (_, project, content, author, _) =
            get_latest-push d.manifests r.push h.edge h.manifests (trim_space r.project_header)
              bundles (or_local user) log m store (trim_space r.project_header) (ap (λ x. x.1) e) in
          (
            m,
            unfold pushed in refl,
            record { project = project; content = content; author = author },
          )
      by_result (edge, err failed) e good = absurd (unfold pushed in omega (arith, good))

  -- A push that is answered with 200 makes `GET /manifest` answer its bundles.
  pub get_manifest-Pushed :
      (handle_push_manifest d h r user (some bundles)).1.status ≡ 200
      → (m : Manifest) × (handle_get_manifest d
            (handle_push_manifest d h r user (some bundles)).0
            r.project_header
          ≡ respond 200 (manifest m))
        × Pushed m
  get_manifest-Pushed good =
      let (m, answered, it) = push_status good in
      (m, get_manifest-push_manifest d h r user bundles m log answered, it)
