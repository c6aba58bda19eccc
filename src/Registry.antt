-- ===== src/Registry.antt =====
-- The manifest registry of packages/hub/internal/registry/registry.go: versioned manifests in a
-- repository, and their copies in the edge KV.
pub mod Memory
pub mod Laws
pub mod Propagation
mod Tests
use santokit.Base.{
  ℕ, ◌≡◌, ◌++◌, Bool, Option, some, List, [], ◌∷◌, get_or, if◌then◌else◌, is_empty, Text, lit, ◌==◌,
  Map, insert, Result, ok, err, not, ◌&&◌,
}
use santokit.Base.Json.{Json, str}
use santokit.Base.Paths.{join}

pub record Bundle : Type 0 where
  pub type : Text
  pub namespace : Text
  pub name : Text
  pub hash : Text
  pub content : Text
  -- `none` is the nil map
  pub config : Option (Map Json)

pub record Manifest : Type 0 where
  pub id : Text
  pub project_id : Text
  pub version : Text
  pub bundles : List Bundle
  pub created_at : ℕ
  pub created_by : Text

-- The interface `Repository`. An operation that fails leaves the store as it was.
pub record Repository : Type 1 where
  pub Store : Type 0
  pub get_latest : Store → Text → Result Manifest
  pub get_by_version : Store → Text → Text → Result Manifest
  pub save : Store → Manifest → Result Store
  pub list_versions : Store → Text → Result (List Text)

-- What the service relies on: the manifest that was saved last is the latest of its project.
pub record IsLog (r : Repository) : Type 0 where
  pub get_latest-save :
      (s : r.Store) (m : Manifest) (s' : r.Store) (p : Text)
      → r.save s m ≡ ok s'
      → r.get_latest s' p ≡ (if m.project_id == p then ok m else r.get_latest s p)

-- The JSON objects that are written to the edge KV.
pub record ServerBundle : Type 0 where
  pub type : Text
  pub namespace : Text
  pub name : Text
  pub config : Map Json
  pub content : Text
  pub hash : Text

pub record EdgeLatest : Type 0 where
  pub project_id : Text
  pub version : Text
  pub bundles : Map ServerBundle

pub data KvValue : Type 0 where
  latest : EdgeLatest → KvValue
  server : ServerBundle → KvValue

abbrev pub default_config : Map Json
default_config = (lit "target", str (lit "main")) ∷ (lit "access", str (lit "public")) ∷ []

-- `createServerBundle`
pub create_server_bundle : Bundle → ServerBundle
create_server_bundle b = record {
  type = b.type;
  namespace = b.namespace;
  name = b.name;
  config = get_or b.config default_config;
  content = b.content;
  hash = b.hash;
}

abbrev pub edge_key : Bundle → Text
edge_key b = b.namespace ++ lit "/" ++ b.name

-- the loop of `createEdgeLatest`
pub edge_bundles : List Bundle → Map ServerBundle → Map ServerBundle
edge_bundles [] m = m
edge_bundles (b ∷ bs) m = edge_bundles bs (insert (edge_key b) (create_server_bundle b) m)

-- `createEdgeLatest`
pub create_edge_latest : Text → Text → List Bundle → EdgeLatest
unfolding edge_bundles
create_edge_latest project_id version bundles = record {
  project_id = project_id;
  version = version;
  bundles = edge_bundles bundles [];
}

abbrev pub latest_key : Text → Text
latest_key project_id = lit "project:" ++ (project_id ++ lit ":latest")

abbrev pub logic_key : Text → Bundle → Text
logic_key project_id b = project_id ++ (lit ":logic:" ++ (b.namespace ++ (lit ":" ++ b.name)))

-- The two stores of the edge: Redis by key, and the files of the disk by path.
pub record EdgeStores : Type 0 where
  pub redis : Map KvValue
  pub files : Map KvValue

-- What `Push` reads from outside: the clock (`version` is `generateVersion()`), the variables HOME and
-- STK_KV_REDIS, whether `redis.ParseURL` and `os.MkdirAll` succeed, and the writes that fail.
pub record PushEnv : Type 0 where
  pub version : Text
  pub now : ℕ
  pub home : Text
  pub redis_url : Text
  pub redis_parses : Bool
  pub dir_made : Bool
  pub redis_fails : Text → Bool
  pub file_fails : Text → Bool

module _ (place : Text → Text) (fails : Text → Bool) where
  -- One write, at the place of a key; a failure is printed and otherwise ignored.
  pub write : Text → KvValue → Map KvValue → Map KvValue
  write key value kv = if fails (place key) then kv else insert (place key) value kv

  pub write_bundles : Text → List Bundle → Map KvValue → Map KvValue
  unfolding write
  write_bundles project_id [] kv = kv
  write_bundles project_id (b ∷ bs) kv =
      write_bundles project_id bs
        (write (logic_key project_id b) (server (create_server_bundle b)) kv)

  pub propagate : Text → Text → List Bundle → Map KvValue → Map KvValue
  unfolding write_bundles
  propagate project_id version bundles kv =
      write_bundles project_id bundles
        (write (latest_key project_id) (latest (create_edge_latest project_id version bundles)) kv)

abbrev pub uses_redis : PushEnv → Bool
uses_redis env = not (is_empty env.redis_url) && env.redis_parses

-- Redis keeps a value under the key itself.
abbrev pub redis_place : Text → Text
redis_place key = key

-- A file is at `filepath.Join(kvDir, key)`, which is a cleaned path.
unfoldable pub file_place : Text → Text → Text
file_place home key = join (join (join (join home (lit ".santokit")) (lit "tmp")) (lit "kv")) key

-- Lines 76 to 134 of `Push`.
pub propagate_to_edge : PushEnv → EdgeStores → Text → List Bundle → EdgeStores
unfolding propagate
propagate_to_edge env edge project_id bundles =
    if uses_redis env
    then record edge {
      redis = propagate redis_place env.redis_fails project_id env.version bundles edge.redis;
    }
    else if env.dir_made
    then record edge {
      files =
          propagate (file_place env.home) env.file_fails project_id env.version bundles edge.files;
    }
    else edge

unfoldable pub new_manifest : PushEnv → Text → List Bundle → Text → Manifest
new_manifest env project_id bundles user_id = record {
  id = [];
  project_id = project_id;
  version = env.version;
  bundles = bundles;
  created_at = env.now;
  created_by = user_id;
}

unfoldable pub after_save {ℓ} :
    {Store : Type ℓ}
    → PushEnv
    → EdgeStores
    → Manifest
    → Result Store
    → EdgeStores × Result (Manifest × Store)
after_save env edge m (err e) = (edge, err e)
after_save env edge m (ok store) =
    (propagate_to_edge env edge m.project_id m.bundles, ok (m, store))

module _ (r : Repository) where
  -- `Push`
  unfoldable pub push :
      PushEnv
      → EdgeStores
      → r.Store
      → Text
      → List Bundle
      → Text
      → EdgeStores × Result (Manifest × r.Store)
  unfolding after_save
  push env edge store project_id bundles user_id =
      let manifest = new_manifest env project_id bundles user_id in
      after_save env edge manifest (r.save store manifest)

  -- `GetLatest`
  unfoldable pub get_latest : r.Store → Text → Result Manifest
  get_latest store project_id = r.get_latest store project_id
