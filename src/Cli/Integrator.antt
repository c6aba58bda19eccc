-- ===== src/Cli/Integrator.antt =====
-- The bundles of packages/cli/internal/engine/integrator/integrator.go. `sha256.Sum256` is an argument.
pub mod Laws
use santokit.Base.{
  ℕ, Bool, not, Option, none, some, List, [], ◌∷◌, ◌++◌, if◌then◌else◌, is_empty, Text, lit, Map,
}
use santokit.Base.Json.{Json, bool, str, obj, Fields, end, field}
use santokit.Base.Encoding.{hex}
use santokit.Base.Decimal.{decimal}
use santokit.Cli.Parser.{Param, LogicConfig, SchemaConfig}

pub record Bundle : Type 0 where
  pub type : Text
  pub namespace : Text
  pub name : Text
  pub content : Text
  pub hash : Text
  -- `none` is the nil map
  pub config : Option (Map Json)
  pub created_at : ℕ

pub record Manifest : Type 0 where
  pub version : Text
  pub project_id : Text
  pub bundles : List Bundle
  pub created_at : ℕ

param_json : Param → Json
param_json v = obj (
    field (lit "type") (str v.type)
      (field (lit "required") (bool v.required) (field (lit "default") v.default end)))

params_json : Map Param → Fields
unfolding param_json
params_json [] = end
params_json ((k, v) ∷ params) = field k (param_json v) (params_json params)

with_params : Option (Map Param) → Map Json
unfolding params_json
with_params none = []
with_params (some params) = (lit "params", obj (params_json params)) ∷ []

-- `cfg` of `BundleLogic`
pub config_map : LogicConfig → Map Json
unfolding with_params
config_map config =
    (lit "target", str config.target)
    ∷ (lit "access", str config.access)
    ∷ (lit "cache", str config.cache)
    ∷ with_params config.params

-- The type and the content: SQL if there is any, else JS if there is any.
unfoldable pub source_of : LogicConfig → Text × Text
source_of config =
    if not (is_empty config.sql)
    then (lit "sql", config.sql)
    else if not (is_empty config.js)
    then (lit "js", config.js)
    else ([], [])

module _ (sha256 : Text → Text) (now : ℕ) where
  -- `BundleLogic`
  unfoldable pub bundle_logic : LogicConfig → Bundle
  unfolding source_of config_map
  bundle_logic config = record {
    type = (source_of config).0;
    namespace = config.namespace;
    name = config.name;
    content = (source_of config).1;
    hash = hex (sha256 (source_of config).1);
    config = some (config_map config);
    created_at = now;
  }

  -- `BundleSchema`
  unfoldable pub bundle_schema : SchemaConfig → Bundle
  bundle_schema config = record {
    type = lit "schema";
    namespace = lit "schema";
    name = config.alias;
    content = config.raw;
    hash = hex (sha256 config.raw);
    config = none;
    created_at = now;
  }

  -- `CreateManifest`, with the clock in nanoseconds
  unfoldable pub create_manifest : Text → List Bundle → Manifest
  create_manifest project_id bundles = record {
    version = lit "v-" ++ decimal now;
    project_id = project_id;
    bundles = bundles;
    created_at = now;
  }
