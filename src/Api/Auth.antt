-- ===== src/Api/Auth.antt =====
-- The authentication handlers and the middleware of packages/hub/api/router.go. A decoded request
-- body is an argument, `none` where the JSON decoder fails; `now` is in nanoseconds.
pub mod Laws
pub mod Lifetime
use santokit.Base.{
  ℕ, zero, suc, ◌*◌, ◌/◌, Bool, true, false, not, ◌&&◌, ◌||◌, Option, none, some, List, [], ◌∷◌,
  drop, if◌then◌else◌, is_empty, Text, lit, ◌==◌, Map, lookup, Result, ok, err,
}
use santokit.Base.Int.{ℤ, pos, negsuc, wrap_int64}
use santokit.Base.Json.{Json}
use santokit.Base.Strings.{trim_space, to_lower, has_prefix}
use santokit.Api.Token.{
  Codec, blank, second, issue_token, verify_token, parse_token_payload, string_claim,
  parse_user_id_from_token,
}
use santokit.Api.Http.{
  LoginResponse, AuthUserResponse, AuthSessionResponse, Body, text, failure, decode_failure, login,
  session, auth_user, logged_out, Response, respond, http_error,
}

pub record LoginRequest : Type 0 where
  pub user_id : Text
  pub email : Text

pub record TokenRequest : Type 0 where
  pub user_id : Text
  pub email : Text
  -- `int64`
  pub expires_in : ℤ

abbrev pub bearer : Text
bearer = lit "Bearer "

abbrev pub day : ℤ
day = pos (24 * 3600 * second)

-- The first of the candidates that is not empty.
first_of_texts : Text → Text → Text
first_of_texts [] t = t
first_of_texts (c ∷ s) t = c ∷ s

-- `time.Duration(expires_in) * time.Second`, in int64
abbrev pub ttl_of : ℤ → ℤ
ttl_of (pos zero) = pos (30 * (24 * 3600 * second))
ttl_of (pos (suc n)) = wrap_int64 (suc n * second)
ttl_of (negsuc n) = pos (30 * (24 * 3600 * second))

-- What the middleware decides: the user for the context of the next handler, or a response.
pub data Admission : Type 0 where
  admitted : Text → Admission
  denied : Response → Admission

-- The variables STK_AUTH_MODE and STK_DISABLE_AUTH.
pub record AuthEnv : Type 0 where
  pub mode : Text
  pub disable_auth : Text

-- The test of the middleware for a hub that does not enforce authentication.
abbrev pub is_open : AuthEnv → Bool
is_open env =
    is_empty (to_lower env.mode)
    || to_lower env.mode == lit "local"
    || env.disable_auth == lit "true"

abbrev or_local : Option Text → Text
or_local none = lit "local"
or_local (some id) = id

admit : Option Text → Admission
admit none = denied (http_error (lit "invalid token") 401)
admit (some []) = denied (http_error (lit "invalid token") 401)
admit (some (c ∷ id)) = admitted (c ∷ id)

module _ (codec : Codec) (jwt_secret : Text) (now : ℕ) where
  login_response : Text → Text → Result (Text × ℤ) → Response
  login_response user_id email (err e) = respond 500 (failure e)
  login_response user_id email (ok (token, exp)) =
      respond 200
        (login (record { user_id = user_id; email = email; token = token; expires_at = exp }))

  session_response : Text → Text → Result (Text × ℤ) → Response
  session_response user_id email (err e) = respond 500 (failure e)
  session_response user_id email (ok (token, exp)) = respond 200 (
      session (record {
        user = record { id = user_id; email = email; roles = [] };
        access_token = token;
        expires_at = exp;
      }))

  -- The user of `handleLogin`: the trimmed user, else the trimmed address, else "local".
  pub login_user : LoginRequest → Text
  unfolding first_of_texts
  login_user req =
      first_of_texts (trim_space req.user_id) (first_of_texts (trim_space req.email) (lit "local"))

  -- `handleLogin`
  unfoldable pub handle_login : Option LoginRequest → Response
  unfolding login_response
  handle_login none = respond 400 decode_failure
  handle_login (some req) =
      let user_id = login_user req in
      login_response user_id req.email
        (issue_token codec jwt_secret now user_id req.email (lit "login") day)

  bearer_user : Text → Text
  bearer_user authorization =
      if has_prefix authorization bearer
      then elim (parse_user_id_from_token codec jwt_secret (now / second) (drop 7 authorization)) [
        | none ↦ []
        | some id ↦ id
      ]
      else []

  -- The user of `handleCreateToken`: the trimmed user, else the bearer's, else the trimmed address.
  pub token_user : Text → TokenRequest → Text
  unfolding first_of_texts bearer_user
  token_user authorization req =
      first_of_texts (trim_space req.user_id)
        (first_of_texts (bearer_user authorization) (trim_space req.email))

  create_token_for : Text → TokenRequest → Response
  unfolding login_response
  create_token_for [] req = http_error (lit "user_id required") 400
  create_token_for (c ∷ user_id) req =
      login_response (c ∷ user_id) req.email (
        issue_token codec jwt_secret now (c ∷ user_id) req.email (lit "pat")
          (ttl_of req.expires_in))

  -- `handleCreateToken`
  unfoldable pub handle_create_token : Text → Option TokenRequest → Response
  unfolding create_token_for token_user
  handle_create_token authorization none = respond 400 decode_failure
  handle_create_token authorization (some req) = create_token_for (token_user authorization req) req

  -- `handleAuthLogin`; the password is not read
  unfoldable pub handle_auth_login : Option Text → Response
  unfolding session_response first_of_texts
  handle_auth_login none = respond 400 decode_failure
  handle_auth_login (some email) =
      let user_id = first_of_texts (trim_space email) (lit "local") in
      session_response user_id email
        (issue_token codec jwt_secret now user_id email (lit "login") day)

  -- `handleAuthRegister`
  unfoldable pub handle_auth_register : Option Text → Response
  unfolding session_response
  handle_auth_register none = respond 400 decode_failure
  handle_auth_register (some email) =
      let user_id = trim_space email in
      if is_empty user_id
      then http_error (lit "email required") 400
      else session_response user_id email
          (issue_token codec jwt_secret now user_id email (lit "register") day)

  -- The user of a payload: `sub`, or `id` where that is empty.
  pub session_user : Map Json → Text
  unfolding first_of_texts
  session_user payload =
      first_of_texts (string_claim (lit "sub") payload) (string_claim (lit "id") payload)

  -- The checks that `handleAuthMe` and `handleAuthRefresh` begin with.
  bearer_payload : Text → (Map Json → Response) → Response
  bearer_payload authorization next =
      if not (has_prefix authorization bearer)
      then http_error (lit "missing bearer token") 401
      else if not (verify_token codec jwt_secret (now / second) (drop 7 authorization))
      then http_error (lit "invalid token") 401
      else elim (parse_token_payload codec jwt_secret (drop 7 authorization)) [
        | none ↦ http_error (lit "invalid token") 401
        | some payload ↦ next payload
      ]

  me_response : Map Json → Response
  me_response payload = respond 200 (
      auth_user (record {
        id = session_user payload;
        email = string_claim (lit "email") payload;
        roles = [];
      }))

  -- `handleAuthMe`
  unfoldable pub handle_auth_me : Text → Response
  unfolding bearer_payload me_response
  handle_auth_me authorization = bearer_payload authorization me_response

  refresh_response : Map Json → Response
  unfolding session_response
  refresh_response payload =
      let user_id = session_user payload in
      let email = string_claim (lit "email") payload in
      session_response user_id email
        (issue_token codec jwt_secret now user_id email (lit "refresh") day)

  -- `handleAuthRefresh`
  unfoldable pub handle_auth_refresh : Text → Response
  unfolding bearer_payload refresh_response
  handle_auth_refresh authorization = bearer_payload authorization refresh_response

  -- `handleAuthLogout`; a token stays valid until it expires
  pub handle_auth_logout : Response
  handle_auth_logout = respond 200 logged_out

  -- `handleAuthOAuth`
  pub handle_auth_oauth : Response
  handle_auth_oauth = http_error (lit "oauth not implemented") 400

  -- `authMiddleware`
  unfoldable pub auth_middleware : AuthEnv → Text → Admission
  unfolding admit
  auth_middleware env authorization =
      let user = parse_user_id_from_token codec jwt_secret (now / second) (drop 7 authorization) in
      if is_open env
      then admitted (if has_prefix authorization bearer then or_local user else lit "local")
      else if not (has_prefix authorization bearer)
      then denied (http_error (lit "missing bearer token") 401)
      else admit user
