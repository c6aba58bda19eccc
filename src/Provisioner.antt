-- ===== src/Provisioner.antt =====
-- The provisioner of packages/hub/internal/provisioner/provisioner.go. The edge KV behind HTTP is an
-- argument: what a request leaves behind, and the status that it answers, `none` where there is no
-- answer.
pub mod Laws
mod Tests
use santokit.Base.{
  ℕ, Bool, ◌||◌, Option, none, some, List, [], ◌∷◌, ◌++◌, if◌then◌else◌, eqb, Text, lit, Map,
  Result, ok, err, request_failed, kv_status,
}

-- `EdgeBundle`; `none` is the zero time.
pub record EdgeBundle : Type 0 where
  pub key : Text
  pub content : Text
  pub hash : Text
  pub expires_at : Option ℕ

-- `Config`
pub record Config : Type 0 where
  pub kv_url : Text
  pub kv_token : Text

-- The requests that the provisioner sends, with their URL and the header Authorization.
pub data KvRequest : Type 0 where
  put : Text → Text → EdgeBundle → KvRequest
  delete : Text → Text → KvRequest

-- The status of an answer, which has to be 200 or a second one.
pub accepted : ℕ → Option ℕ → Result (Unit {0})
accepted other none = err request_failed
accepted other (some status) = if eqb status 200 || eqb status other then ok tt else err kv_status

-- `%s:secrets:%s`
pub secret_bundle : Text → Text → Text → EdgeBundle
secret_bundle project_id key value = record {
  key = project_id ++ (lit ":secrets:" ++ key);
  content = value;
  hash = [];
  expires_at = none;
}

module _ {W : Type 0} (send : W → KvRequest → W × Option ℕ) (config : Config) where
  at_key : Text → Text
  at_key key = config.kv_url ++ (lit "/" ++ key)

  authorization : Text
  authorization = lit "Bearer " ++ config.kv_token

  -- `uploadBundle`
  unfoldable pub upload_bundle : W → EdgeBundle → W × Result (Unit {0})
  unfolding at_key authorization accepted
  upload_bundle w bundle =
      let answer = send w (put (at_key bundle.key) authorization bundle) in
      (answer.0, accepted 201 answer.1)

  -- `deleteBundle`
  unfoldable pub delete_bundle : W → Text → W × Result (Unit {0})
  unfolding at_key authorization accepted
  delete_bundle w key =
      let answer = send w (delete (at_key key) authorization) in (answer.0, accepted 404 answer.1)

  -- Go on where a step succeeded.
  next_step : W × Result (Unit {0}) → (W → W × Result (Unit {0})) → W × Result (Unit {0})
  next_step (w, ok _) next = next w
  next_step (w, err e) next = (w, err e)

  -- `Provision`
  unfoldable pub provision : W → List EdgeBundle → W × Result (Unit {0})
  unfolding next_step
  provision w [] = (w, ok tt)
  provision w (bundle ∷ bundles) = next_step (upload_bundle w bundle) (λ w. provision w bundles)

  -- `ProvisionSecrets`
  unfoldable pub provision_secrets : W → Text → Map Text → W × Result (Unit {0})
  unfolding next_step secret_bundle
  provision_secrets w project_id [] = (w, ok tt)
  provision_secrets w project_id ((key, value) ∷ secrets) =
      next_step (upload_bundle w (secret_bundle project_id key value))
        (λ w. provision_secrets w project_id secrets)

  -- `Invalidate`
  unfoldable pub invalidate : W → List Text → W × Result (Unit {0})
  unfolding next_step
  invalidate w [] = (w, ok tt)
  invalidate w (key ∷ keys) = next_step (delete_bundle w key) (λ w. invalidate w keys)
