-- ===== src/Api/Hub/Handlers.antt =====
-- The handlers of the protected routes of packages/hub/api/router.go, and the routes behind the
-- middleware.
pub mod Laws
pub mod Plans
pub mod Manifests
pub mod Secrets
pub mod Isolation
pub mod Apart
use santokit.Base.{
  ℕ, ◌&&◌, ◌||◌, Option, none, some, List, [], ◌∷◌, if◌then◌else◌, is_empty, Text, lit, Result, ok,
  err,
}
use santokit.Vault.{Gcm}
use santokit.Vault
use santokit.Registry.{Bundle, Manifest, EdgeStores, PushEnv}
use santokit.Registry
use santokit.ProjectConfig.{Config}
use santokit.ProjectConfig
use santokit.Schema.{Migration, PlanResult, Schemas, validate}
use santokit.Schema
use santokit.Schema.Atlas.{plan, apply}
use santokit.Projects.{Project, CreateEnv, create_project, get_project}
use santokit.Projects
use santokit.Projects.Queries.{list_projects}
use santokit.Api.Token.{blank}
use santokit.Api.Http.{
  Body, no_body, failure, decode_failure, manifest, secret_keys, plan_result, config, project_list,
  project, Response, respond, http_error,
}
use santokit.Api.Auth.{AuthEnv, Admission, admitted, denied, auth_middleware}
use santokit.Base.Strings.{trim_space}
use santokit.Api.Hub.{
  Deps, Hub, Request, Call, get_manifest, push_manifest, list_secrets, set_secret, delete_secret,
  schema_plan, schema_apply, config_apply, config_get, get_projects, post_project, get_project_by,
}

abbrev no_project : Response
no_project = http_error (lit "X-Santokit-Project-ID header required") 400

abbrev not_configured : Response
not_configured = http_error (lit "projects service not configured") 500

-- The empty user of a request without a user in its context is "local".
pub or_local : Text → Text
or_local [] = lit "local"
or_local (c ∷ user_id) = c ∷ user_id

-- A result, or its error with a status.
answer : {A : Type 0} → ℕ → (A → Body) → Result A → Response
answer status body (ok a) = respond 200 (body a)
answer status body (err e) = respond status (failure e)

-- The loop of `handleSchemaPlan` over the schemas: the first that is refused.
unfoldable pub check_schemas : Schemas → Option Response
check_schemas [] = none
check_schemas ((alias, hcl) ∷ schemas) =
    if blank alias
    then some (http_error (lit "schema alias required") 400)
    else elim (validate hcl) [
      | err e ↦ some (respond 400 (failure e))
      | ok _ ↦ check_schemas schemas
    ]

module _ (d : Deps) where
  -- Keep the hub, or put in the store that an operation returned.
  stored : {A : Type 0} → Hub d → (A → Hub d) → Result A → Hub d × Response
  stored h update (ok a) = (update a, respond 200 no_body)
  stored h update (err e) = (h, respond 500 (failure e))

  -- `handleGetManifest`
  unfoldable pub handle_get_manifest : Hub d → Text → Response
  unfolding answer
  handle_get_manifest h header =
      if blank header
      then no_project
      else answer 404 manifest (Registry.get_latest d.manifests h.manifests (trim_space header))

  pushed : Hub d → EdgeStores × Result (Manifest × d.manifests.Store) → Hub d × Response
  pushed h (edge, ok (m, store)) =
      (record h { edge = edge; manifests = store }, respond 200 (manifest m))
  pushed h (edge, err e) = (record h { edge = edge }, respond 500 (failure e))

  -- `handlePushManifest`
  unfoldable pub handle_push_manifest :
      Hub d → Request → Text → Option (List Bundle) → Hub d × Response
  unfolding pushed or_local
  handle_push_manifest h r user_id none = (h, respond 400 decode_failure)
  handle_push_manifest h r user_id (some bundles) =
      if blank r.project_header
      then (h, no_project)
      else pushed h (
          Registry.push d.manifests r.push h.edge h.manifests (trim_space r.project_header) bundles
            (or_local user_id))

  -- `handleListSecrets`
  unfoldable pub handle_list_secrets : Hub d → Text → Response
  unfolding answer
  handle_list_secrets h header =
      if blank header
      then no_project
      else answer 500 secret_keys (Vault.list d.gcm d.vaults h.secrets (trim_space header))

  -- `handleSetSecret`
  unfoldable pub handle_set_secret : Hub d → Request → Option (Text × Text) → Hub d × Response
  unfolding stored
  handle_set_secret h r none = (h, respond 400 decode_failure)
  handle_set_secret h r (some (key, value)) =
      if blank r.project_header
      then (h, no_project)
      else if blank key || blank value
      then (h, http_error (lit "key and value required") 400)
      else stored h (λ secrets. record h { secrets = secrets })
          (Vault.set d.gcm d.vaults h.vault r.nonce h.secrets (trim_space r.project_header) key
            value)

  -- `handleDeleteSecret`
  unfoldable pub handle_delete_secret : Hub d → Request → Text → Hub d × Response
  unfolding stored
  handle_delete_secret h r key =
      if blank r.project_header
      then (h, no_project)
      else stored h (λ secrets. record h { secrets = secrets })
          (Vault.delete d.gcm d.vaults h.secrets (trim_space r.project_header) key)

  -- `s.vault.Get(ctx, projectID, "database_url")` of the schema service
  unfoldable pub database_url : Hub d → Text → Result Text
  database_url h project_id =
      Vault.get d.gcm d.vaults h.vault h.secrets project_id (lit "database_url")

  pub planned : Hub d → Schema.Service × Result PlanResult → Hub d × Response
  unfolding answer
  planned h (schema, result) = (record h { schema = schema }, answer 500 plan_result result)

  plan_checked : Hub d → Request → Schemas → Option Response → Hub d × Response
  unfolding planned database_url
  plan_checked h r schemas (some refused) = (h, refused)
  plan_checked h r schemas none = planned h (
      plan d.atlas d.sha256 r.version h.schema h.databases
        (database_url h (trim_space r.project_header)) (trim_space r.project_header) schemas)

  plan_schemas : Hub d → Request → Schemas → Hub d × Response
  unfolding plan_checked check_schemas
  plan_schemas h r [] = (h, http_error (lit "schemas required") 400)
  plan_schemas h r (schema ∷ schemas) =
      plan_checked h r (schema ∷ schemas) (check_schemas (schema ∷ schemas))

  -- `handleSchemaPlan`
  unfoldable pub handle_schema_plan : Hub d → Request → Option Schemas → Hub d × Response
  unfolding plan_schemas
  handle_schema_plan h r none = (h, respond 400 decode_failure)
  handle_schema_plan h r (some schemas) =
      if blank r.project_header then (h, no_project) else plan_schemas h r schemas

  pub applied : Hub d → (Schema.Service × d.atlas.World) × Result (Unit {0}) → Hub d × Response
  unfolding answer
  applied h ((schema, databases), result) =
      (record h { schema = schema; databases = databases }, answer 500 (λ _. no_body) result)

  -- `handleSchemaApply`
  unfoldable pub handle_schema_apply : Hub d → Request → Option (List Migration) → Hub d × Response
  unfolding applied database_url
  handle_schema_apply h r none = (h, respond 400 decode_failure)
  handle_schema_apply h r (some migrations) =
      if blank r.project_header
      then (h, no_project)
      else applied h (
          apply d.atlas h.schema h.databases (database_url h (trim_space r.project_header))
            (trim_space r.project_header) migrations)

  -- `handleConfigApply`
  unfoldable pub handle_config_apply : Hub d → Request → Option Config → Hub d × Response
  unfolding stored
  handle_config_apply h r none = (h, respond 400 decode_failure)
  handle_config_apply h r (some cfg) =
      if blank r.project_header
      then (h, no_project)
      else if blank cfg.databases && blank cfg.auth && blank cfg.storage
      then (h, http_error (lit "configs required") 400)
      else stored h (λ configs. record h { configs = configs })
          (ProjectConfig.set d.configs h.configs (trim_space r.project_header) cfg)

  -- `handleConfigGet`
  unfoldable pub handle_config_get : Hub d → Text → Response
  unfolding answer
  handle_config_get h header =
      if blank header
      then no_project
      else answer 404 config (ProjectConfig.get d.configs h.configs (trim_space header))

  list_of : Option Projects.Service → Text → Text → Response
  list_of none user_id team_id = not_configured
  list_of (some s) user_id team_id =
      respond 200 (project_list (list_projects s user_id (trim_space team_id)))

  -- `handleListProjects`
  unfoldable pub handle_list_projects : Hub d → Text → Text → Response
  unfolding list_of
  handle_list_projects h user_id team_id = list_of h.projects user_id team_id

  created : Hub d → Projects.Service × Result Project → Hub d × Response
  unfolding answer
  created h (s, result) = (record h { projects = some s }, answer 400 project result)

  create_on :
      Hub d
      → Request
      → Text
      → Option Projects.Service
      → Option (Text × Text × Text)
      → Hub d × Response
  unfolding created
  create_on h r user_id none body = (h, not_configured)
  create_on h r user_id (some s) none = (h, respond 400 decode_failure)
  create_on h r user_id (some s) (some (name, description, team_id)) =
      if is_empty user_id
      then (h, http_error (lit "user_id required") 401)
      else created h (create_project r.create s user_id name description team_id)

  -- `handleCreateProject`
  unfoldable pub handle_create_project :
      Hub d → Request → Text → Option (Text × Text × Text) → Hub d × Response
  unfolding create_on
  handle_create_project h r user_id body = create_on h r user_id h.projects body

  project_of : Option Projects.Service → Text → Response
  unfolding answer
  project_of none id = not_configured
  project_of (some s) id =
      if blank id then http_error (lit "id required") 400 else answer 404 project (get_project s id)

  -- `handleGetProject`
  unfoldable pub handle_get_project : Hub d → Text → Response
  unfolding project_of
  handle_get_project h id = project_of h.projects id

  -- The handler of a route, for the user that the middleware put into the context.
  unfoldable pub dispatch : Hub d → Request → Text → Call → Hub d × Response
  dispatch h r user_id get_manifest = (h, handle_get_manifest h r.project_header)
  dispatch h r user_id (push_manifest body) = handle_push_manifest h r user_id body
  dispatch h r user_id list_secrets = (h, handle_list_secrets h r.project_header)
  dispatch h r user_id (set_secret body) = handle_set_secret h r body
  dispatch h r user_id (delete_secret key) = handle_delete_secret h r key
  dispatch h r user_id (schema_plan body) = handle_schema_plan h r body
  dispatch h r user_id (schema_apply body) = handle_schema_apply h r body
  dispatch h r user_id (config_apply body) = handle_config_apply h r body
  dispatch h r user_id config_get = (h, handle_config_get h r.project_header)
  dispatch h r user_id (get_projects team_id) = (h, handle_list_projects h user_id team_id)
  dispatch h r user_id (post_project body) = handle_create_project h r user_id body
  dispatch h r user_id (get_project_by id) = (h, handle_get_project h id)

  serve_admitted : Hub d → Request → Call → Admission → Hub d × Response
  unfolding dispatch
  serve_admitted h r call (denied response) = (h, response)
  serve_admitted h r call (admitted user_id) = dispatch h r user_id call

  -- The protected routes of `NewRouter`
  unfoldable pub serve : Text → AuthEnv → Hub d → Request → Call → Hub d × Response
  unfolding serve_admitted
  serve jwt_secret env h r call =
      serve_admitted h r call (auth_middleware d.codec jwt_secret r.now env r.authorization)
