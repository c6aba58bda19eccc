-- ===== src/Api/Hub/Handlers/Apart.antt =====
-- Sequences of requests keep the projects apart.
use santokit.Base.{◌≡◌, ◌∙◌, false, List, [], ◌∷◌, All, Text, ◌==◌}
use santokit.Base.Strings.{trim_space}
use santokit.Vault.{IsKeyed}
use santokit.Registry.{IsLog}
use santokit.ProjectConfig.Laws.{IsMap}
use santokit.Api.Auth.{AuthEnv, Admission, admitted, denied, auth_middleware}
use santokit.Api.Hub.{
  Deps, Hub, Request, Call, get_manifest, push_manifest, list_secrets, set_secret, delete_secret,
  schema_plan, schema_apply, config_apply, config_get, get_projects, post_project, get_project_by,
}
use santokit.Api.Hub.Handlers.{dispatch, serve, serve_admitted}
use santokit.Api.Hub.Handlers.Isolation.{
  HoldSame, unchanged, set_secret_isolated, delete_secret_isolated, push_isolated,
  config_apply_isolated, schema_plan_isolated, schema_apply_isolated, create_project_isolated,
}

module _ (d : Deps) (secret : Text) (env : AuthEnv) where
  -- The hub after the requests, in their order.
  abbrev pub serve_all : List (Request × Call) → Hub d → Hub d
  serve_all [] h = h
  serve_all ((r, call) ∷ requests) h = serve_all requests (serve d secret env h r call).0

module _ (d : Deps) (keyed : IsKeyed d.vaults) (log : IsLog d.manifests) (map : IsMap d.configs)
    (q : Text) where
  dispatch_isolated :
      (h : Hub d) (r : Request) (user : Text) (call : Call)
      → (trim_space r.project_header == q) ≡ false
      → HoldSame d q h (dispatch d h r user call).0
  unfolding dispatch
  dispatch_isolated h r user get_manifest other = unchanged d q h
  dispatch_isolated h r user (push_manifest body) other =
      push_isolated d keyed log map q h r other user body
  dispatch_isolated h r user list_secrets other = unchanged d q h
  dispatch_isolated h r user (set_secret body) other =
      set_secret_isolated d keyed log map q h r other body
  dispatch_isolated h r user (delete_secret key) other =
      delete_secret_isolated d keyed log map q h r other key
  dispatch_isolated h r user (schema_plan body) other =
      schema_plan_isolated d keyed log map q h r other body
  dispatch_isolated h r user (schema_apply body) other =
      schema_apply_isolated d keyed log map q h r other body
  dispatch_isolated h r user (config_apply body) other =
      config_apply_isolated d keyed log map q h r other body
  dispatch_isolated h r user config_get other = unchanged d q h
  dispatch_isolated h r user (get_projects team_id) other = unchanged d q h
  dispatch_isolated h r user (post_project body) other = create_project_isolated d q h r user body
  dispatch_isolated h r user (get_project_by id) other = unchanged d q h

  module _ (secret : Text) (env : AuthEnv) where
    serve_isolated :
        (h : Hub d) (r : Request) (call : Call)
        → (trim_space r.project_header == q) ≡ false
        → HoldSame d q h (serve d secret env h r call).0
    unfolding serve
    serve_isolated h r call other = by (auth_middleware d.codec secret r.now env r.authorization)
      where
        by : (a : Admission) → HoldSame d q h (serve_admitted d h r call a).0
        by (denied response) = unfold serve_admitted in unchanged d q h
        by (admitted user) = unfold serve_admitted in dispatch_isolated h r user call other

    then_same : (h h' h'' : Hub d) → HoldSame d q h h' → HoldSame d q h' h'' → HoldSame d q h h''
    then_same h h' h'' first second = record {
      vault = second.vault ∙ first.vault;
      secrets = λ k. second.secrets k ∙ first.secrets k;
      latest = second.latest ∙ first.latest;
      config = second.config ∙ first.config;
      schema = (second.schema.0 ∙ first.schema.0, second.schema.1 ∙ first.schema.1);
    }

    -- Projects are kept apart: where the repositories are maps of their keys, after any requests whose
    -- header names another project, whoever sends them and whether or not they are admitted, the
    -- hub holds the same of a project as before: its secrets, its latest manifest, its
    -- configuration, and the planned and the applied schemas.
    pub serve_all-HoldSame :
        (requests : List (Request × Call)) (h : Hub d)
        → All (λ x. (trim_space x.0.project_header == q) ≡ false) requests
        → HoldSame d q h (serve_all d secret env requests h)
    serve_all-HoldSame [] h others = unchanged d q h
    serve_all-HoldSame ((r, call) ∷ requests) h (other, others) =
        let next = (serve d secret env h r call).0 in
        then_same h next (serve_all d secret env requests next) (serve_isolated h r call other)
          (serve_all-HoldSame requests next others)
