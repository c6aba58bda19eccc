-- ===== src/Cli/Secrets/Laws.antt =====
-- `secret list` after `secret set` and `secret delete`, against the hub.
use santokit.Base.{◌≡◌, sym, ap, ◌∙◌, true, false, Option, some, List, contains, Text, ok, ◌>>=◌}
use santokit.Vault.{IsKeyed}
use santokit.Api.Auth.{AuthEnv, admitted, auth_middleware}
use santokit.Api.Http.{Body, secret_keys}
use santokit.Api.Hub.{Deps, Hub, Request, set_secret, list_secrets, delete_secret}
use santokit.Api.Hub.Handlers.{dispatch, handle_list_secrets}
use santokit.Api.Hub.Handlers.Secrets.{list-set_secret, list-delete_secret}
use santokit.Cli.Client.{
  ClientConfig, headers, done, answered, keys_in, set_secret_at, list_secrets_at, delete_reached,
  delete_secret_at,
}
use santokit.Cli.Client.Laws.{connect, request, ask_lem, done_status}
use santokit.Cli.Configs.{project_of}
use santokit.Cli.Secrets.{
  for_project, secret_set_command, secret_list_command, secret_delete_command,
}

decoded_keys : (body : Body) (keys : List Text) → keys_in body ≡ ok keys → body ≡ secret_keys keys
unfolding keys_in
decoded_keys (secret_keys ks) keys e = cc
decoded_keys body keys e = absurd (cc)

module _ (d : Deps) (keyed : IsKeyed d.vaults) (secret : Text) (env : AuthEnv) (r : Request)
    (c : ClientConfig) (user project_id variable : Text)
    (project : project_of c variable ≡ ok project_id)
    (admits : auth_middleware d.codec secret r.now env (headers c project_id).authorization
      ≡ admitted user)
    (h : Hub d) (key : Text) (keys : List Text) where
  abbrev sent : Request
  sent = request d secret env r c user project_id admits

  list_eq :
      (h' : Hub d)
      → (secret_list_command (connect d secret env r) c h' variable).1 ≡ ok keys
      → (handle_list_secrets d h' project_id).body ≡ secret_keys keys
  unfolding secret_list_command list_secrets_at for_project dispatch answered
  list_eq h' listed = decoded_keys _ keys (
      sym (
        ap (λ x. x.1)
          (ask_lem d secret env r c user project_id admits h' list_secrets
            (λ x. answered x >>= keys_in)))
      ∙ rw project at listed)

  -- Against a hub that admits the client and whose vault repository is a map, after a `secret set` that
  -- succeeded the keys that `secret list` shows, where it succeeds, hold the key that was set.
  pub secret_list-secret_set :
      (value : Text)
      → (secret_set_command (connect d secret env r) c h variable key value).1 ≡ ok tt
      → (secret_list_command
          (connect d secret env r)
          c
          (secret_set_command (connect d secret env r) c h variable key value).0
          variable).1
        ≡ ok keys
      → contains key keys ≡ true
  unfolding secret_set_command set_secret_at for_project dispatch
  secret_list-secret_set value good listed =
      let e =
        ask_lem d secret env r c user project_id admits h (set_secret (some (key, value)))
          (done (connect d secret env r) c) in
      list-set_secret d keyed h sent key value keys
        (done_status d secret env r c user project_id admits _
          (sym (ap (λ x. x.1) e) ∙ rw project at good))
        (list_eq _ (
          ap (λ x. (secret_list_command (connect d secret env r) c x.0 variable).1) (sym e)
          ∙ rw project at listed))

  -- Under the same conditions, after a `secret delete` that succeeded of a key whose URL leads to some
  -- key, which is the same one where nothing in it has a meaning in a URL, the keys that `secret list`
  -- shows do not hold the key that the URL leads to.
  pub secret_list-secret_delete :
      (key_in : Text → Option Text) (typed : Text)
      → key_in typed ≡ some key
      → (secret_delete_command (connect d secret env r) c h key_in variable typed).1 ≡ ok tt
      → (secret_list_command
          (connect d secret env r)
          c
          (secret_delete_command (connect d secret env r) c h key_in variable typed).0
          variable).1
        ≡ ok keys
      → contains key keys ≡ false
  unfolding secret_delete_command delete_secret_at delete_reached for_project dispatch
  secret_list-secret_delete key_in typed leads good listed =
      let e =
        ask_lem d secret env r c user project_id admits h (delete_secret key)
          (done (connect d secret env r) c) in
      list-delete_secret d keyed h sent key keys
        (done_status d secret env r c user project_id admits _
          (sym (ap (λ x. x.1) e) ∙ rw (project, leads) at good))
        (list_eq _ (
          ap (λ x. (secret_list_command (connect d secret env r) c x.0 variable).1) (sym e)
          ∙ rw (project, leads) at listed))
