-- ===== src/Api/Hub.antt =====
-- The hub of packages/hub/api/router.go: the services that its `API` holds, a request and its routes.
-- A decoded body is an argument, `none` where the JSON decoder fails.
pub mod Handlers
use santokit.Base.{
  ℕ, Bool, not, ◌&&◌, ◌||◌, Option, none, some, List, [], ◌∷◌, if◌then◌else◌, is_empty, Text, lit,
  Map, Result, ok, err, Error,
}
use santokit.Vault.{Gcm}
use santokit.Vault
use santokit.Registry.{Bundle, Manifest, EdgeStores, PushEnv}
use santokit.Registry
use santokit.ProjectConfig.{Config}
use santokit.ProjectConfig
use santokit.Schema.{Migration, PlanResult, Schemas, validate}
use santokit.Schema
use santokit.Schema.Atlas.{Atlas, plan, apply}
use santokit.Projects.{Project, CreateEnv, create_project, get_project}
use santokit.Projects
use santokit.Projects.Queries.{list_projects}
use santokit.Api.Token.{Codec, blank}
use santokit.Api.Http.{
  Body, no_body, failure, decode_failure, manifest, secret_keys, plan_result, config, project_list,
  project, Response, respond, http_error,
}
use santokit.Api.Auth.{AuthEnv, Admission, admitted, denied, auth_middleware}
use santokit.Base.Strings.{trim_space}

-- The code outside the hub that its handlers reach.
pub record Deps : Type 1 where
  pub codec : Codec
  pub gcm : Gcm
  pub sha256 : Text → Text
  pub vaults : Vault.Repository
  pub manifests : Registry.Repository
  pub configs : ProjectConfig.Repository
  pub atlas : Atlas

-- `API`, with the stores behind its services. `projects` is `none` for the nil service.
pub record Hub (d : Deps) : Type 0 where
  pub vault : Vault.Service
  pub secrets : d.vaults.Store
  pub manifests : d.manifests.Store
  pub edge : EdgeStores
  pub configs : d.configs.Store
  pub schema : Schema.Service
  pub databases : d.atlas.World
  pub projects : Option Projects.Service

-- What a request brings and the hub reads from outside while it serves it; `now` is in nanoseconds.
pub record Request : Type 0 where
  pub authorization : Text
  -- X-Santokit-Project-ID
  pub project_header : Text
  pub now : ℕ
  pub nonce : Option Text
  -- the version of a new migration, the time in its layout
  pub version : Text
  pub push : PushEnv
  pub create : CreateEnv

-- A route with its decoded body, the parameter of its path or its query.
pub data Call : Type 0 where
  get_manifest : Call
  push_manifest : Option (List Bundle) → Call
  list_secrets : Call
  set_secret : Option (Text × Text) → Call
  delete_secret : Text → Call
  schema_plan : Option Schemas → Call
  schema_apply : Option (List Migration) → Call
  config_apply : Option Config → Call
  config_get : Call
  get_projects : Text → Call
  post_project : Option (Text × Text × Text) → Call
  get_project_by : Text → Call
