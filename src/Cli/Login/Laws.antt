-- ===== src/Cli/Login/Laws.antt =====
-- What a login that succeeds has saved.
use santokit.Base.{
  ℕ, ◌/◌, ◌≡◌, refl, ap, ◌∙◌, ◌⊎◌, not, Bool, true, false, Option, some, List, [], ◌∷◌, Text, ok,
}
use santokit.Base.Json.{Json}
use santokit.Base.Int.{ℤ, pos, ltb_ℤ, floor_div}
use santokit.Api.Token.{Codec, Carries, second, issue_token, verify_token}
use santokit.Api.Token.Laws.{IsCarriedToken, verify-issue_token}
use santokit.Api.Http.{Response}
use santokit.Api.Auth.{handle_auth_me}
use santokit.Api.Auth.Laws.{handle_auth_me_answers}
use santokit.Cli.Profiles.{ConfigFile, run, log_in}
use santokit.Cli.Login.{
  Event, requested, server_failed, UserInfo, info_in, info_of, get_user_info, save_login, login,
}

-- The callback was requested with this token.
abbrev pub Came : Text → List Event → Type 0
Came t [] = ⊥
Came t (requested u ∷ es) = (u ≡ t) ⊎ Came t es
Came t (server_failed e ∷ es) = Came t es

module _ (codec : Codec) (secret : Text) (now : ℕ) where
  -- The hub's `/api/v1/auth/me`.
  abbrev pub me : Text → Option Response
  me authorization = some (handle_auth_me codec secret now authorization)

  info_accepted :
      (token : Text)
      → verify_token codec secret (now / second) token ≡ true
      → (info : UserInfo) × (get_user_info me token ≡ ok info)
  unfolding get_user_info info_of info_in
  info_accepted token accepted =
      let (user, answer) = handle_auth_me_answers codec secret now token accepted in
      rw answer (record { user_id = []; email = user.email }, refl)

  login_accepted :
      (writable : Bool) (hub_url token : Text) (file : ConfigFile)
      → verify_token codec secret (now / second) token ≡ true
      → login me writable hub_url file (ok token) ≡ run writable file (log_in hub_url token)
  unfolding login save_login
  login_accepted writable hub_url token file accepted =
      let (info, known) = info_accepted token accepted in rw known refl

  -- With a token that the hub issued, whose claims JSON carries and whose expiry in whole seconds has
  -- not passed, the `login` that selects it saves the profile, so it fails only where the file can
  -- not be read or written.
  pub login-issue_token :
      (carries : Carries codec) (issued_at : ℕ) (user email typ : Text) (ttl exp : ℤ) (token : Text)
      → issue_token codec secret issued_at user email typ ttl ≡ ok (token, exp)
      → IsCarriedToken codec secret user email typ issued_at exp
      → ltb_ℤ (floor_div exp second) (pos (now / second)) ≡ false
      → (writable : Bool) (hub_url : Text) (file : ConfigFile)
      → login me writable hub_url file (ok token) ≡ run writable file (log_in hub_url token)
  login-issue_token carries issued_at user email typ ttl exp token issued carried live writable
        hub_url file =
      login_accepted writable hub_url token file (
        verify-issue_token codec secret carries issued_at user email typ ttl exp token issued
          carried (now / second)
        ∙ ap not live)
