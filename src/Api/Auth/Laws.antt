-- ===== src/Api/Auth/Laws.antt =====
-- What the middleware establishes where authentication is enforced.
use santokit.Base.{
  ◌++◌, ℕ, ◌≡◌, ◌⊎◌, inl, inr, Bool-cases, ◌/◌, refl, true, false, Option, none, some, [], ◌∷◌,
  drop, Text, lit, Map, arith,
}
use santokit.Base.Json.{Json}
use santokit.Base.Strings.{has_prefix}
use santokit.Api.Token.{Codec, second, user_of, parse_user_id_from_token, verify_token}
use santokit.Api.Token.Claims.{IsAuthentic, verify_token_sound, parse_user_id_sound}
use santokit.Api.Http.{AuthUserResponse, auth_user, respond, http_error}
use santokit.Api.Auth.{
  AuthEnv, admitted, denied, bearer, is_open, admit, auth_middleware, bearer_payload, me_response,
  handle_auth_me,
}

module _ (codec : Codec) (secret : Text) (now : ℕ) where
  -- The user is named by an authentic token of the request.
  pub record IsCaller (authorization user : Text) : Type 0 where
    pub prefixed : has_prefix authorization bearer ≡ true
    pub claims : Map Json
    pub named : user_of codec secret claims ≡ some user
    pub authentic : IsAuthentic codec secret (now / second) (drop 7 authorization) claims

  admit_cases :
      (found : Option Text)
      → (admit found ≡ denied (http_error (lit "invalid token") 401))
        ⊎ ((user : Text) × (found ≡ some user) × (admit found ≡ admitted user))
  unfolding admit
  admit_cases none = inl refl
  admit_cases (some []) = inl refl
  admit_cases (some (c ∷ id)) = inr (c ∷ id, refl, refl)

  -- Where authentication is enforced, the middleware answers 401 or admits the user of an authentic
  -- token.
  pub auth_middleware_lem :
      (env : AuthEnv) (authorization : Text)
      → is_open env ≡ false
      → ◌⊎◌
          ((message : Text) × (auth_middleware codec secret now env authorization
              ≡ denied (http_error message 401)))
          ((user : Text) × IsCaller authorization user
            × (auth_middleware codec secret now env authorization ≡ admitted user))
  unfolding auth_middleware
  auth_middleware_lem env authorization closed =
      elim (Bool-cases (has_prefix authorization bearer)) [
        | inr bare ↦ inl (lit "missing bearer token", rw (closed, bare) refl)
        | inl prefixed ↦
            let found =
              parse_user_id_from_token codec secret (now / second) (drop 7 authorization) in
            elim (admit_cases found) [
              | inl refused ↦ inl (lit "invalid token", rw (closed, prefixed) refused)
              | inr (user, known, admits) ↦
                  let (claims, named, authentic) =
                    parse_user_id_sound codec secret (now / second) (drop 7 authorization) user
                      known in
                  inr (
                    user,
                    record {
                      prefixed = prefixed;
                      claims = claims;
                      named = named;
                      authentic = authentic;
                    },
                    rw (closed, prefixed) admits,
                  )
            ]
      ]

  -- A request that `handleAuthMe` answers with 200 has a token that `verifyToken` accepts.
  pub handle_auth_me_accepts :
      (authorization : Text)
      → (handle_auth_me codec secret now authorization).status ≡ 200
      → verify_token codec secret (now / second) (drop 7 authorization) ≡ true
  unfolding handle_auth_me bearer_payload
  handle_auth_me_accepts authorization h = ground arith

  -- A bearer token that `verifyToken` accepts is answered with the user of its claims.
  pub handle_auth_me_answers :
      (token : Text)
      → verify_token codec secret (now / second) token ≡ true
      → (user : AuthUserResponse) × (handle_auth_me codec secret now (lit "Bearer " ++ token)
          ≡ respond 200 (auth_user user))
  unfolding handle_auth_me bearer_payload me_response has_prefix
  handle_auth_me_answers token accepted =
      let (claims, read, authentic) =
        verify_token_sound codec secret (now / second) token accepted in
      rw (accepted, read) (_, refl)
