-- ===== src/Cli/Login.antt =====
-- `stk login`, packages/cli/internal/commands/login.go: the callback server, the wait for a token and
-- the check of it at the hub. The browser, the socket of the server and the clock are events.
pub mod Laws
mod Tests
use santokit.Base.{
  Bool, true, false, Option, none, some, List, [], ◌∷◌, ◌++◌, ◌≡◌, if◌then◌else◌, is_empty, eqb,
  Text, lit, Result, ok, err, ◌>>=◌, Error, request_failed, hub_error, undecodable, no_token,
  login_timed_out,
}
use santokit.Api.Http.{Body, text, auth_user, Response, respond, http_error}
use santokit.Cli.Profiles.{ConfigFile, run, log_in}

-- What was sent on `tokenChan` and `errChan`. Each has room for one: a further sender waits, and only
-- one receive follows.
pub record Channels : Type 0 where
  pub token : Option Text
  pub error : Option Error

abbrev pub no_channels : Channels
no_channels = record { token = none; error = none }

pub send_token : Text → Option Text → Option Text
send_token t none = some t
send_token t (some first) = some first

pub send_error : Error → Option Error → Option Error
send_error e none = some e
send_error e (some first) = some first

-- The handler of `/callback`, with the value of its query's `token`; of the page that it shows only the
-- heading is kept.
unfoldable pub callback : Text → Channels → Channels × Response
unfolding send_token send_error
callback [] ch =
    (record ch { error = send_error no_token ch.error }, http_error (lit "No token provided") 400)
callback (c ∷ t) ch = (
  record ch { token = send_token (c ∷ t) ch.token },
  respond 200 (text (lit "Login Successful!")),
)

-- What happens while the command waits: a request of the callback, or the failure of its server.
pub data Event : Type 0 where
  requested : Text → Event
  server_failed : Error → Event

pub on_event : Event → Channels → Channels
unfolding callback send_error
on_event (requested t) ch = (callback t ch).0
on_event (server_failed e) ch = record ch { error = send_error e ch.error }

-- the events, the latest first
unfoldable pub channels : List Event → Channels
unfolding on_event
channels [] = no_channels
channels (e ∷ es) = on_event e (channels es)

-- The `select`: it takes any channel that is ready, or the end of the five minutes.
pub data Selects (ch : Channels) : Result Text → Type 0 where
  by_token : (t : Text) → ch.token ≡ some t → Selects ch (ok t)
  by_error : (e : Error) → ch.error ≡ some e → Selects ch (err e)
  by_time : Selects ch (err login_timed_out)

-- `userInfoResponse`
pub record UserInfo : Type 0 where
  pub user_id : Text
  pub email : Text

-- The decoder: the hub's answer has an `id` and no `user_id`.
info_in : Body → Result UserInfo
info_in (auth_user u) = ok (record { user_id = []; email = u.email })
info_in _ = err undecodable

info_of : Option Response → Result UserInfo
unfolding info_in
info_of none = err request_failed
info_of (some r) = if eqb r.status 200 then info_in r.body else err hub_error

module _ (me : Text → Option Response) where
  -- `getUserInfo`; `me` is the connection to `/api/v1/auth/me`, with the header Authorization
  unfoldable pub get_user_info : Text → Result UserInfo
  unfolding info_of
  get_user_info token = info_of (me (lit "Bearer " ++ token))

  save_login : Bool → Text → Text → ConfigFile → Result UserInfo → ConfigFile × Result (Unit {0})
  save_login writable hub_url token file (err e) = (file, err e)
  save_login writable hub_url token file (ok info) = run writable file (log_in hub_url token)

  -- The command after the `select`.
  unfoldable pub login : Bool → Text → ConfigFile → Result Text → ConfigFile × Result (Unit {0})
  unfolding save_login
  login writable hub_url file (err e) = (file, err e)
  login writable hub_url file (ok token) =
      save_login writable hub_url token file (get_user_info token)
