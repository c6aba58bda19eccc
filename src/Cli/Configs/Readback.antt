-- ===== src/Cli/Configs/Readback.antt =====
-- `config apply` and `config show` against the hub.
use santokit.Base.{◌≡◌, refl, sym, ap, ◌∙◌, Bool, ◌∷◌, Text, Map, ok}
use santokit.ProjectConfig.Laws.{IsMap}
use santokit.Api.Auth.{AuthEnv, admitted, auth_middleware}
use santokit.Api.Hub.{Deps, Hub, Request}
use santokit.Cli.Client.{ClientConfig, headers, received_config, apply_config, get_config}
use santokit.Cli.Client.Laws.{connect, get_config-apply_config}
use santokit.Cli.Configs.{
  parse_config_only, FileRead, load_configs, project_of, send_configs, send_loaded,
  config_apply_command, show_project, config_show_command,
}
use santokit.Cli.Configs.Laws.{wanted, databases, auth, storage, load_configs_lem}

module _ (d : Deps) (secret : Text) (env : AuthEnv) (r : Request) (c : ClientConfig)
    (user project_id variable : Text) (project : project_of c variable ≡ ok project_id)
    (admits : auth_middleware d.codec secret r.now env (headers c project_id).authorization
      ≡ admitted user) where
  -- Against a hub whose repository of configurations is a map and whose middleware admits the client, a
  -- `config apply` that read some file and succeeded makes the next `config show` return, of each type
  -- that `--only` chooses, the text of its file, empty if there is none, and of every other type nothing,
  -- whatever the hub held of it.
  pub config_show-config_apply :
      (h : Hub d) (read : Text → FileRead) (only : Text) (chosen : Map Bool) (config : Text × Text)
      (configs : Map Text)
      → IsMap d.configs
      → parse_config_only only ≡ ok chosen
      → load_configs read only ≡ ok (config ∷ configs)
      → (config_apply_command (connect d secret env r) c h variable read only).1 ≡ ok tt
      → (config_show_command
          (connect d secret env r)
          c
          (config_apply_command (connect d secret env r) c h variable read only).0
          variable).1
        ≡ ok (record {
          databases = wanted chosen read databases;
          auth = wanted chosen read auth;
          storage = wanted chosen read storage;
        })
  unfolding config_apply_command config_show_command
  config_show-config_apply h read only chosen config configs map parsed loaded good =
      let (of_databases, of_auth, of_storage) =
        load_configs_lem read only chosen (config ∷ configs) parsed loaded in
      let sent : config_apply_command (connect d secret env r) c h variable read only
          ≡ apply_config (connect d secret env r) c h project_id (config ∷ configs) =
        rw (project, loaded) (unfold send_loaded send_configs in refl) in
      let shown : (s : Hub d)
          → config_show_command (connect d secret env r) c s variable
            ≡ get_config (connect d secret env r) c s project_id =
        λ s. rw project (unfold show_project in refl) in
      ap (λ x. x.1) (shown _)
      ∙ ap (λ x. (get_config (connect d secret env r) c x.0 project_id).1) sent
      ∙ get_config-apply_config d secret env r c user project_id admits h (config ∷ configs) map
          (sym (ap (λ x. x.1) sent) ∙ good)
      ∙ rw (sym of_databases, sym of_auth, sym of_storage) (unfold received_config in refl)
