-- ===== src/Api/Hub/Handlers/Isolation.antt =====
-- What a request under one project's header leaves of every other project.
use santokit.Base.{
  ◌≡◌, ◌≢◌, refl, sym, ◌∙◌, inl, inr, Bool-cases, true, false, ◌&&◌, ◌||◌, Option, none, some, List,
  [], ◌∷◌, Text, ◌==◌, eq_iff, Result, ok, err, >>=-eq-ok,
}
use santokit.Base.Strings.{trim_space}
use santokit.Base.Encoding.{encode, std}
use santokit.Vault.{IsKeyed, encrypt}
use santokit.Vault
use santokit.Registry.{Bundle, Manifest, EdgeStores, IsLog}
use santokit.Registry
use santokit.Registry.Laws.{get_latest-push}
use santokit.ProjectConfig.{Config}
use santokit.ProjectConfig
use santokit.ProjectConfig.Laws.{IsMap, get-set_config}
use santokit.Schema.{Migration, Schemas}
use santokit.Schema.Atlas.Elsewhere.{AreSame, plan_elsewhere, apply_elsewhere}
use santokit.Projects.{Project}
use santokit.Projects
use santokit.Api.Token.{blank}
use santokit.Api.Http.{Response}
use santokit.Api.Hub.{Deps, Hub, Request}
use santokit.Api.Hub.Handlers.{
  stored, pushed, or_local, handle_push_manifest, handle_set_secret, handle_delete_secret,
  check_schemas, plan_checked, plan_schemas, planned, applied, handle_schema_plan,
  handle_schema_apply, handle_config_apply, created, create_on, handle_create_project,
}

-- The two hubs hold the same of the project: its secrets, the key that opens them, its latest
-- manifest, its configuration, its planned schemas and the state of its schemas.
pub record HoldSame (d : Deps) (q : Text) (h h' : Hub d) : Type 0 where
  pub vault : h'.vault ≡ h.vault
  pub secrets : (k : Text) → d.vaults.get h'.secrets q k ≡ d.vaults.get h.secrets q k
  pub latest :
      Registry.get_latest d.manifests h'.manifests q ≡ Registry.get_latest d.manifests h.manifests q
  pub config : ProjectConfig.get d.configs h'.configs q ≡ ProjectConfig.get d.configs h.configs q
  pub schema : AreSame q h.schema h'.schema

module _ (d : Deps) (q : Text) where
  pub unchanged : (h : Hub d) → HoldSame d q h h
  unchanged h = record {
    vault = refl;
    secrets = λ k. refl;
    latest = refl;
    config = refl;
    schema = (refl, refl);
  }

module _ (d : Deps) (keyed : IsKeyed d.vaults) (log : IsLog d.manifests) (map : IsMap d.configs)
    (q : Text) (h : Hub d) (r : Request) (other : (trim_space r.project_header == q) ≡ false) where
  abbrev p : Text
  p = trim_space r.project_header

  stored_secrets :
      (x : Result d.vaults.Store)
      → ((store : d.vaults.Store)
          → x ≡ ok store
          → (k : Text) → d.vaults.get store q k ≡ d.vaults.get h.secrets q k)
      → HoldSame d q h (stored d h (λ secrets. record h { secrets = secrets }) x).0
  unfolding stored
  stored_secrets (err e) kept = unchanged d q h
  stored_secrets (ok store) kept = record {
    vault = refl;
    secrets = kept store refl;
    latest = refl;
    config = refl;
    schema = (refl, refl);
  }

  set_elsewhere :
      (k v : Text) (store : d.vaults.Store)
      → Vault.set d.gcm d.vaults h.vault r.nonce h.secrets p k v ≡ ok store
      → (j : Text) → d.vaults.get store q j ≡ d.vaults.get h.secrets q j
  unfolding Vault.set
  set_elsewhere k v store e j =
      let (encrypted, _, e') = >>=-eq-ok (encrypt d.gcm h.vault r.nonce v) _ e in
      keyed.get-set h.secrets
        (record { key = k; encrypted_val = encode std encrypted; project_id = p }) store q j e'
      ∙ rw other refl

  delete_elsewhere :
      (k : Text) (store : d.vaults.Store)
      → Vault.delete d.gcm d.vaults h.secrets p k ≡ ok store
      → (j : Text) → d.vaults.get store q j ≡ d.vaults.get h.secrets q j
  unfolding Vault.delete
  delete_elsewhere k store e j = keyed.get-delete h.secrets p k store q j e ∙ rw other refl

  pub set_secret_isolated :
      (body : Option (Text × Text)) → HoldSame d q h (handle_set_secret d h r body).0
  unfolding handle_set_secret
  set_secret_isolated none = unchanged d q h
  set_secret_isolated (some (k, v)) = elim (Bool-cases (blank r.project_header)) [
    | inl missing ↦ rw missing (unchanged d q h)
    | inr given ↦ elim (Bool-cases (blank k || blank v)) [
      | inl nothing ↦ rw (given, nothing) (unchanged d q h)
      | inr something ↦ rw (given, something) (stored_secrets _ (set_elsewhere k v))
    ]
  ]

  pub delete_secret_isolated : (k : Text) → HoldSame d q h (handle_delete_secret d h r k).0
  unfolding handle_delete_secret
  delete_secret_isolated k = elim (Bool-cases (blank r.project_header)) [
    | inl missing ↦ rw missing (unchanged d q h)
    | inr given ↦ rw given (stored_secrets _ (delete_elsewhere k))
  ]

  pushed_isolated :
      (x : EdgeStores × Result (Manifest × d.manifests.Store))
      → ((m : Manifest) (store : d.manifests.Store)
          → x.1 ≡ ok (m, store)
          → Registry.get_latest d.manifests store q ≡ Registry.get_latest d.manifests h.manifests q)
      → HoldSame d q h (pushed d h x).0
  unfolding pushed
  pushed_isolated (edge, err e) kept = record {
    vault = refl;
    secrets = λ k. refl;
    latest = refl;
    config = refl;
    schema = (refl, refl);
  }
  pushed_isolated (edge, ok (m, store)) kept = record {
    vault = refl;
    secrets = λ k. refl;
    latest = kept m store refl;
    config = refl;
    schema = (refl, refl);
  }

  pub push_isolated :
      (user : Text) (body : Option (List Bundle))
      → HoldSame d q h (handle_push_manifest d h r user body).0
  unfolding handle_push_manifest
  push_isolated user none = unchanged d q h
  push_isolated user (some bundles) = elim (Bool-cases (blank r.project_header)) [
    | inl missing ↦ rw missing (unchanged d q h)
    | inr given ↦ rw given (
        pushed_isolated _ (λ m store saved.
          (get_latest-push d.manifests r.push h.edge h.manifests p bundles (or_local user) log m
            store q saved).0
          ∙ rw other refl))
  ]

  config_stored :
      (cfg : Config) (x : Result d.configs.Store)
      → ProjectConfig.set d.configs h.configs p cfg ≡ x
      → HoldSame d q h (stored d h (λ configs. record h { configs = configs }) x).0
  unfolding stored
  config_stored cfg (err e) set = unchanged d q h
  config_stored cfg (ok store) set = record {
    vault = refl;
    secrets = λ k. refl;
    latest = refl;
    config = get-set_config d.configs map h.configs store p q cfg set ∙ rw other refl;
    schema = (refl, refl);
  }

  pub config_apply_isolated :
      (body : Option Config) → HoldSame d q h (handle_config_apply d h r body).0
  unfolding handle_config_apply
  config_apply_isolated none = unchanged d q h
  config_apply_isolated (some cfg) = elim (Bool-cases (blank r.project_header)) [
    | inl missing ↦ rw missing (unchanged d q h)
    | inr given ↦ elim (Bool-cases (blank cfg.databases && blank cfg.auth && blank cfg.storage)) [
      | inl nothing ↦ rw (given, nothing) (unchanged d q h)
      | inr something ↦ rw (given, something) (config_stored cfg _ refl)
    ]
  ]

  not_same : p ≢ q
  not_same same = let clash : false ≡ true = sym other ∙ (eq_iff p q).1 same in cc

  plan_schemas_isolated : (schemas : Schemas) → HoldSame d q h (plan_schemas d h r schemas).0
  unfolding plan_schemas
  plan_schemas_isolated [] = unchanged d q h
  plan_schemas_isolated (x ∷ schemas) = checked (check_schemas (x ∷ schemas))
    where
      checked :
          (refused : Option Response) → HoldSame d q h (plan_checked d h r (x ∷ schemas) refused).0
      checked (some response) = unfold plan_checked in unchanged d q h
      checked none =
          unfold plan_checked planned in
          record {
            vault = refl;
            secrets = λ k. refl;
            latest = refl;
            config = refl;
            schema =
                plan_elsewhere d.atlas d.sha256 q p not_same r.version h.schema h.databases _
                  (x ∷ schemas);
          }

  pub schema_plan_isolated :
      (body : Option Schemas) → HoldSame d q h (handle_schema_plan d h r body).0
  unfolding handle_schema_plan
  schema_plan_isolated none = unchanged d q h
  schema_plan_isolated (some schemas) = elim (Bool-cases (blank r.project_header)) [
    | inl missing ↦ rw missing (unchanged d q h)
    | inr given ↦ rw given (plan_schemas_isolated schemas)
  ]

  pub schema_apply_isolated :
      (body : Option (List Migration)) → HoldSame d q h (handle_schema_apply d h r body).0
  unfolding handle_schema_apply applied
  schema_apply_isolated none = unchanged d q h
  schema_apply_isolated (some migrations) = elim (Bool-cases (blank r.project_header)) [
    | inl missing ↦ rw missing (unchanged d q h)
    | inr given ↦ rw given (record {
      vault = refl;
      secrets = λ k. refl;
      latest = refl;
      config = refl;
      schema = apply_elsewhere d.atlas d.sha256 q p not_same h.schema h.databases _ migrations;
    })
  ]

module _ (d : Deps) (q : Text) (h : Hub d) (r : Request) where
  create_isolated :
      (user : Text) (s : Option Projects.Service) (body : Option (Text × Text × Text))
      → HoldSame d q h (create_on d h r user s body).0
  unfolding create_on created
  create_isolated user none body = unchanged d q h
  create_isolated user (some s) none = unchanged d q h
  create_isolated [] (some s) (some (name, description, team)) = unchanged d q h
  create_isolated (c ∷ user) (some s) (some (name, description, team)) = record {
    vault = refl;
    secrets = λ k. refl;
    latest = refl;
    config = refl;
    schema = (refl, refl);
  }

  pub create_project_isolated :
      (user : Text) (body : Option (Text × Text × Text))
      → HoldSame d q h (handle_create_project d h r user body).0
  unfolding handle_create_project
  create_project_isolated user body = create_isolated user h.projects body
