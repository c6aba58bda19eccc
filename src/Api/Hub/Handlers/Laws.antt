-- ===== src/Api/Hub/Handlers/Laws.antt =====
-- Which requests the protected routes refuse, and what they read back.
use santokit.Base.{
  ◌≡◌, refl, ◌⊎◌, inl, inr, ◌∙◌, ap, List, Bool-cases, Bool, true, false, ◌&&◌, none, some, Text,
  Result, ok, err, arith, eq_refl,
}
use santokit.Base.Strings.{trim_space}
use santokit.ProjectConfig.{Config}
use santokit.ProjectConfig
use santokit.Registry
use santokit.Registry.{Bundle, Manifest, EdgeStores, IsLog}
use santokit.Registry.Laws.{get_latest-push}
use santokit.ProjectConfig.Laws.{IsMap, get-set_config}
use santokit.Api.Token.{blank}
use santokit.Api.Http.{respond, http_error, config, manifest}
use santokit.Api.Auth.{AuthEnv, admitted, auth_middleware, is_open}
use santokit.Api.Auth.Laws.{IsCaller, auth_middleware_lem}
use santokit.Api.Hub.{
  Deps, Hub, Request, Call, get_manifest, push_manifest, list_secrets, set_secret, delete_secret,
  schema_plan, schema_apply, config_apply, config_get, get_projects, post_project, get_project_by,
}
use santokit.Api.Hub.Handlers.{
  dispatch, serve, answer, stored, pushed, or_local, serve_admitted, handle_get_manifest,
  handle_push_manifest, handle_list_secrets, handle_set_secret, handle_delete_secret,
  handle_schema_plan, handle_schema_apply, handle_config_apply, handle_config_get,
}

-- The routes that act on the project of the header.
abbrev pub needs_project : Call → Bool
needs_project (get_projects _) = false
needs_project (post_project _) = false
needs_project (get_project_by _) = false
needs_project _ = true

module _ (d : Deps) where
  -- Where authentication is enforced, a call of a protected route is answered with 401 and leaves
  -- the hub as it was, or it is served for a user whom the request's bearer token names: a token
  -- of three parts, signed with the API's secret, whose claims have not expired.
  pub serve_lem :
      (secret : Text) (env : AuthEnv) (h : Hub d) (r : Request) (call : Call)
      → is_open env ≡ false
      → ◌⊎◌ ((message : Text) × (serve d secret env h r call ≡ (h, http_error message 401))) (
          (user : Text) × IsCaller d.codec secret r.now r.authorization user
          × (serve d secret env h r call ≡ dispatch d h r user call))
  unfolding serve serve_admitted
  serve_lem secret env h r call closed =
      elim (auth_middleware_lem d.codec secret r.now env r.authorization closed) [
        | inl (message, refused) ↦ inl (message, rw refused refl)
        | inr (user, caller, admits) ↦ inr (user, caller, rw admits refl)
      ]

  pub serve_admitted_lem :
      (secret : Text) (env : AuthEnv) (h : Hub d) (r : Request) (call : Call) (user : Text)
      → auth_middleware d.codec secret r.now env r.authorization ≡ admitted user
      → serve d secret env h r call ≡ dispatch d h r user call
  unfolding serve serve_admitted
  serve_admitted_lem secret env h r call user admits = rw admits refl

  module _ (h : Hub d) (r : Request) (user : Text) (missing : blank r.project_header ≡ true) where
    -- Without the project's header, every route that acts on a project answers 400 and leaves the hub
    -- as it was, whatever the body is.
    pub dispatch_without_project :
        (call : Call)
        → needs_project call ≡ true
        → ((dispatch d h r user call).0 ≡ h) × ((dispatch d h r user call).1.status ≡ 400)
    unfolding dispatch handle_get_manifest handle_push_manifest handle_list_secrets
        handle_set_secret handle_delete_secret handle_schema_plan handle_schema_apply
        handle_config_apply handle_config_get
    dispatch_without_project get_manifest _ = rw missing (refl, refl)
    dispatch_without_project (push_manifest none) _ = (refl, refl)
    dispatch_without_project (push_manifest (some _)) _ = rw missing (refl, refl)
    dispatch_without_project list_secrets _ = rw missing (refl, refl)
    dispatch_without_project (set_secret none) _ = (refl, refl)
    dispatch_without_project (set_secret (some _)) _ = rw missing (refl, refl)
    dispatch_without_project (delete_secret _) _ = rw missing (refl, refl)
    dispatch_without_project (schema_plan none) _ = (refl, refl)
    dispatch_without_project (schema_plan (some _)) _ = rw missing (refl, refl)
    dispatch_without_project (schema_apply none) _ = (refl, refl)
    dispatch_without_project (schema_apply (some _)) _ = rw missing (refl, refl)
    dispatch_without_project (config_apply none) _ = (refl, refl)
    dispatch_without_project (config_apply (some _)) _ = rw missing (refl, refl)
    dispatch_without_project config_get _ = rw missing (refl, refl)
    dispatch_without_project (get_projects _) unneeded = cc
    dispatch_without_project (post_project _) unneeded = cc
    dispatch_without_project (get_project_by _) unneeded = cc

  get-stored :
      (h : Hub d) (p : Text) (cfg : Config) (result : Result d.configs.Store)
      → IsMap d.configs
      → ProjectConfig.set d.configs h.configs p cfg ≡ result
      → (stored d h (λ configs. record h { configs = configs }) result).1.status ≡ 200
      → ProjectConfig.get d.configs
          (stored d h (λ configs. record h { configs = configs }) result).0.configs
          p
        ≡ ok cfg
  unfolding stored
  get-stored h p cfg (ok store) map set good =
      get-set_config d.configs map h.configs store p p cfg set ∙ rw (eq_refl) refl
  get-stored h p cfg (err e) map set good = absurd (omega (arith, good))

  -- Over a repository of configurations that is a map, a configuration that was applied with
  -- status 200 is what the project's `GET /config` then returns, with status 200.
  pub config_get-config_apply :
      (h : Hub d) (r : Request) (cfg : Config)
      → IsMap d.configs
      → (handle_config_apply d h r (some cfg)).1.status ≡ 200
      → handle_config_get d (handle_config_apply d h r (some cfg)).0 r.project_header
        ≡ respond 200 (config cfg)
  unfolding handle_config_apply handle_config_get
  config_get-config_apply h r cfg map good = elim (Bool-cases (blank r.project_header)) [
    | inl missing ↦ absurd (omega (arith, rw missing at good))
    | inr given ↦ elim (Bool-cases (blank cfg.databases && blank cfg.auth && blank cfg.storage)) [
      | inl nothing ↦ absurd (omega (arith, rw (given, nothing) at good))
      | inr something ↦
          rw
            (
              given,
              something,
              get-stored h (trim_space r.project_header) cfg _ map refl
                  (rw (given, something) at good),
            )
            (unfold answer in refl)
    ]
  ]

  get-pushed :
      (h : Hub d) (p : Text) (m : Manifest)
      (result : EdgeStores × Result (Manifest × d.manifests.Store))
      → ((store : d.manifests.Store) (m' : Manifest)
          → result.1 ≡ ok (m', store)
          → Registry.get_latest d.manifests store p ≡ ok m')
      → (pushed d h result).1 ≡ respond 200 (manifest m)
      → Registry.get_latest d.manifests (pushed d h result).0.manifests p ≡ ok m
  unfolding pushed
  get-pushed h p m (edge, ok (m', store)) saved e = saved store m' refl ∙ ap ok (cc)
  get-pushed h p m (edge, err failed) saved e = absurd (omega (arith, ap (λ x. x.status) e))

  -- Over a repository that keeps the manifest saved last as the latest, a manifest that a push answered
  -- with status 200 is what `GET /manifest` of the project then returns, with status 200.
  pub get_manifest-push_manifest :
      (h : Hub d) (r : Request) (user : Text) (bundles : List Bundle) (m : Manifest)
      → IsLog d.manifests
      → (handle_push_manifest d h r user (some bundles)).1 ≡ respond 200 (manifest m)
      → handle_get_manifest d (handle_push_manifest d h r user (some bundles)).0 r.project_header
        ≡ respond 200 (manifest m)
  unfolding handle_push_manifest handle_get_manifest
  get_manifest-push_manifest h r user bundles m log good =
      elim (Bool-cases (blank r.project_header)) [
        | inl missing ↦ absurd (omega (arith, ap (λ x. x.status) (rw missing at good)))
        | inr given ↦
            let p = trim_space r.project_header in
            let latest =
              get-pushed h p m _
                (λ store m' saved.
                  (get_latest-push d.manifests r.push h.edge h.manifests p bundles (or_local user)
                    log m' store p saved).0
                  ∙ rw (eq_refl p) refl)
                (rw given at good) in
            rw (given, latest) (unfold answer in refl)
      ]
