-- ===== src/Cli/Client.antt =====
-- The client of the hub, packages/cli/internal/engine/communicator/communicator.go. A request is its
-- headers and the call that the hub decodes from its route and body; `send` is the connection, which
-- answers nothing where it fails. Texts are valid UTF-8, which JSON carries unchanged, and the bytes of
-- a bundle travel in base64. The zero time, which the decoder leaves in a bundle of a fetched manifest, is written 0.
pub mod Laws
use santokit.Base.{
  ℕ, Bool, not, Option, none, some, List, [], ◌∷◌, ◌++◌, get_or, if◌then◌else◌, is_empty, eqb, Text,
  lit, Map, lookup, Result, ok, err, ◌>>=◌, or_error, request_failed, hub_error, undecodable,
}
use santokit.Base.Json.{Json}
use santokit.Registry
use santokit.ProjectConfig
use santokit.Schema.{Migration, PlanResult, Schemas}
use santokit.Api.Http.{Body, Response, manifest, secret_keys, plan_result, config}
use santokit.Api.Hub.{
  Call, get_manifest, push_manifest, list_secrets, set_secret, delete_secret, schema_plan,
  schema_apply, config_apply, config_get,
}
use santokit.Cli.Integrator.{Bundle, Manifest}

-- `Config`
pub record ClientConfig : Type 0 where
  pub hub_url : Text
  pub token : Text
  pub project_id : Text

-- The headers that `setHeaders` and `setProjectHeader` set; an empty one is absent.
pub record Headers : Type 0 where
  pub authorization : Text
  pub project : Text

-- `setHeaders`, `setProjectHeader`
unfoldable pub headers : ClientConfig → Text → Headers
headers c project_id = record {
  authorization = if is_empty c.token then [] else lit "Bearer " ++ c.token;
  project = project_id;
}

-- The test of every operation but two for an answer of status 200.
unfoldable pub checked : Option Response → Result Body
checked none = err request_failed
checked (some r) = if eqb r.status 200 then ok r.body else err hub_error

unfoldable pub answered : Option Response → Result Body
answered none = err request_failed
answered (some r) = ok r.body

pub non_empty : Option (Map Json) → Option (Map Json)
non_empty (some (pair ∷ m)) = some (pair ∷ m)
non_empty _ = none

-- A bundle as the hub decodes it.
unfoldable pub received : Bundle → Registry.Bundle
unfolding non_empty
received b = record {
  type = b.type;
  namespace = b.namespace;
  name = b.name;
  hash = b.hash;
  content = b.content;
  config = non_empty b.config;
}

unfoldable pub received_all : List Bundle → List Registry.Bundle
unfolding received
received_all [] = []
received_all (b ∷ bundles) = received b ∷ received_all bundles

-- The configurations as the hub decodes them: a file that is not sent is empty.
unfoldable pub received_config : Map Text → ProjectConfig.Config
received_config configs = record {
  databases = get_or (lookup (lit "databases") configs) [];
  auth = get_or (lookup (lit "auth") configs) [];
  storage = get_or (lookup (lit "storage") configs) [];
}

-- What the client decodes: the body that the operation expects, and no other.
unfoldable pub plan_in : Body → Result PlanResult
plan_in (plan_result p) = ok p
plan_in _ = err undecodable

config_in : Body → Result ProjectConfig.Config
config_in (config c) = ok c
config_in _ = err undecodable

unfoldable pub keys_in : Body → Result (List Text)
keys_in (secret_keys ks) = ok ks
keys_in _ = err undecodable

-- A bundle and a manifest of the hub as the client decodes them. The hub's bundles have no time, and an
-- empty configuration is not sent.
unfoldable pub fetched_bundle : Registry.Bundle → Bundle
unfolding non_empty
fetched_bundle b = record {
  type = b.type;
  namespace = b.namespace;
  name = b.name;
  content = b.content;
  hash = b.hash;
  config = non_empty b.config;
  created_at = 0;
}

unfoldable pub fetched_bundles : List Registry.Bundle → List Bundle
unfolding fetched_bundle
fetched_bundles [] = []
fetched_bundles (b ∷ bundles) = fetched_bundle b ∷ fetched_bundles bundles

unfoldable pub fetched : Registry.Manifest → Manifest
unfolding fetched_bundles
fetched m = record {
  version = m.version;
  project_id = m.project_id;
  bundles = fetched_bundles m.bundles;
  created_at = m.created_at;
}

unfoldable pub manifest_in : Body → Result Manifest
manifest_in (manifest m) = ok (fetched m)
manifest_in _ = err undecodable

module _ {S : Type 0} (send : S → Headers → Call → S × Option Response) (c : ClientConfig) where
  -- Send a call, and read what comes back.
  pub ask : {A : Type 0} → S → Text → Call → (Option Response → Result A) → S × Result A
  ask s project_id call next =
      let reply = send s (headers c project_id) call in (reply.0, next reply.1)

  unfoldable pub done : Option Response → Result (Unit {0})
  unfolding checked
  done r = checked r >>= λ _. ok tt

  -- `PushManifest`
  unfoldable pub push_manifest_to : S → Manifest → S × Result (Unit {0})
  unfolding ask done
  push_manifest_to s m = ask s m.project_id (push_manifest (some (received_all m.bundles))) done

  -- `PlanSchema`
  unfoldable pub plan_schema : S → Text → Schemas → S × Result PlanResult
  unfolding ask checked plan_in
  plan_schema s project_id schemas =
      ask s project_id (schema_plan (some schemas)) (λ r. checked r >>= plan_in)

  -- `ApplySchema`
  unfoldable pub apply_schema : S → Text → List Migration → S × Result (Unit {0})
  unfolding ask done
  apply_schema s project_id migrations = ask s project_id (schema_apply (some migrations)) done

  -- `ApplyConfig`
  unfoldable pub apply_config : S → Text → Map Text → S × Result (Unit {0})
  unfolding ask done received_config
  apply_config s project_id configs =
      ask s project_id (config_apply (some (received_config configs))) done

  -- `GetConfig`
  unfoldable pub get_config : S → Text → S × Result ProjectConfig.Config
  unfolding ask checked config_in
  get_config s project_id = ask s project_id config_get (λ r. checked r >>= config_in)

  -- `SetSecret`
  unfoldable pub set_secret_at : S → Text → Text → Text → S × Result (Unit {0})
  unfolding ask done
  set_secret_at s project_id key value = ask s project_id (set_secret (some (key, value))) done

  -- `ListSecrets`, which does not look at the status
  unfoldable pub list_secrets_at : S → Text → S × Result (List Text)
  unfolding ask answered keys_in
  list_secrets_at s project_id = ask s project_id list_secrets (λ r. answered r >>= keys_in)

  -- `FetchManifest`, which does not look at the status
  unfoldable pub fetch_manifest : S → Text → S × Result Manifest
  unfolding ask answered manifest_in
  fetch_manifest s project_id = ask s project_id get_manifest (λ r. answered r >>= manifest_in)

  -- A DELETE whose URL is the one of the secrets with the key appended, unescaped. `key_in` is what
  -- `net/url` and chi make of that text: the parameter `key` of the route, or `none` where the URL is
  -- refused or no route with that method matches, when no handler runs.
  module _ (key_in : Text → Option Text) where
    unfoldable pub delete_reached : S → Text → Option Text → S × Result (Unit {0})
    unfolding ask done
    delete_reached s project_id none = (s, err hub_error)
    delete_reached s project_id (some key) = ask s project_id (delete_secret key) done

    -- `DeleteSecret`
    unfoldable pub delete_secret_at : S → Text → Text → S × Result (Unit {0})
    unfolding delete_reached
    delete_secret_at s project_id key = delete_reached s project_id (key_in key)
