-- ===== src/Cli/Client/Laws.antt =====
-- The client and the hub together: what the one sends and the other stores.
use santokit.Base.{◌≡◌, refl, sym, ap, ◌∙◌, Option, some, arith, Text, Map, Result, ok, ◌>>=◌}
use santokit.ProjectConfig.{Config}
use santokit.ProjectConfig.Laws.{IsMap}
use santokit.Api.Http.{Response}
use santokit.Api.Auth.{AuthEnv, admitted, auth_middleware}
use santokit.Api.Hub.{Deps, Hub, Request, Call, config_apply, config_get}
use santokit.Api.Hub.Handlers.{serve, dispatch, handle_config_apply}
use santokit.Api.Hub.Handlers.Laws.{serve_admitted_lem, config_get-config_apply}
use santokit.Cli.Client.{
  ClientConfig, Headers, headers, checked, config_in, ask, done, received_config, apply_config,
  get_config,
}

-- A connection to a hub, which serves the request with the headers of the client.
abbrev pub connect :
    (d : Deps) (secret : Text) (env : AuthEnv) (r : Request)
    → Hub d
    → Headers
    → Call
    → Hub d × Option Response
connect d secret env r h hs call =
    let reply =
      serve d secret env h
        (record r { authorization = hs.authorization; project_header = hs.project }) call in
    (reply.0, some reply.1)

module _ (d : Deps) (secret : Text) (env : AuthEnv) (r : Request) (c : ClientConfig)
    (user project_id : Text)
    (admits : auth_middleware d.codec secret r.now env (headers c project_id).authorization
      ≡ admitted user) where
  abbrev pub request : Request
  request = record r {
    authorization = (headers c project_id).authorization;
    project_header = project_id;
  }

  pub ask_lem :
      {A : Type 0} (h : Hub d) (call : Call) (next : Option Response → Result A)
      → ask (connect d secret env r) c h project_id call next
        ≡ ((dispatch d h request user call).0, next (some (dispatch d h request user call).1))
  unfolding ask headers
  ask_lem h call next =
      ap (λ reply. (reply.0, next (some reply.1)))
        (serve_admitted_lem d secret env h request call user admits)

  pub done_status :
      (reply : Response) → done (connect d secret env r) c (some reply) ≡ ok tt → reply.status ≡ 200
  unfolding done checked
  done_status reply good = ground arith

  -- Against a hub whose repository of configurations is a map and whose middleware admits the client,
  -- after an `ApplyConfig` that succeeded `GetConfig` returns the configurations that were sent, with
  -- empty text for the types that were not.
  pub get_config-apply_config :
      (h : Hub d) (configs : Map Text)
      → IsMap d.configs
      → (apply_config (connect d secret env r) c h project_id configs).1 ≡ ok tt
      → (get_config
          (connect d secret env r)
          c
          (apply_config (connect d secret env r) c h project_id configs).0
          project_id).1
        ≡ ok (received_config configs)
  unfolding apply_config get_config dispatch checked config_in
  get_config-apply_config h configs map good =
      let cfg : Config = received_config configs in
      let hub : Hub d = (handle_config_apply d h request (some cfg)).0 in
      let sent : apply_config (connect d secret env r) c h project_id configs ≡ (
        hub,
        done (connect d secret env r) c (some (handle_config_apply d h request (some cfg)).1),
      ) =
        ask_lem h (config_apply (some cfg)) (done (connect d secret env r) c) in
      let status = done_status _ (sym (ap (λ x. x.1) sent) ∙ good) in
      ap (λ s. (get_config (connect d secret env r) c s project_id).1) (ap (λ x. x.0) sent)
      ∙ ap (λ x. x.1) (ask_lem hub config_get (λ reply. checked reply >>= config_in))
      ∙ ap (λ reply. checked (some reply) >>= config_in)
          (config_get-config_apply d h request cfg map status)
      ∙ (unfold checked config_in in refl)
