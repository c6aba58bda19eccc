-- ===== src/Api/Http.antt =====
-- What the handlers write: a status and a body. `http.Error` writes a text, and every other body is
-- encoded as JSON.
use santokit.Base.{ℕ, List, Text, Error}
use santokit.Base.Int.{ℤ}
use santokit.Registry.{Manifest}
use santokit.Schema.{PlanResult}
use santokit.ProjectConfig.{Config}
use santokit.Projects.{Project}

-- The JSON of `handleLogin` and `handleCreateToken`.
pub record LoginResponse : Type 0 where
  pub user_id : Text
  pub email : Text
  pub token : Text
  pub expires_at : ℤ

-- `authUserResponse`, whose roles are always the empty list.
pub record AuthUserResponse : Type 0 where
  pub id : Text
  pub email : Text
  pub roles : List Text

-- `authSessionResponse`, whose refresh token is never set.
pub record AuthSessionResponse : Type 0 where
  pub user : AuthUserResponse
  pub access_token : Text
  pub expires_at : ℤ

pub data Body : Type 0 where
  no_body : Body
  text : Text → Body
  -- the message of an error that a service returned
  failure : Error → Body
  -- the message of a JSON decoder
  decode_failure : Body
  login : LoginResponse → Body
  session : AuthSessionResponse → Body
  auth_user : AuthUserResponse → Body
  logged_out : Body
  manifest : Manifest → Body
  secret_keys : List Text → Body
  plan_result : PlanResult → Body
  config : Config → Body
  project_list : List Project → Body
  project : Project → Body

pub record Response : Type 0 where
  pub status : ℕ
  pub body : Body

abbrev pub respond : ℕ → Body → Response
respond status body = record { status = status; body = body }

abbrev pub http_error : Text → ℕ → Response
http_error message status = respond status (text message)
