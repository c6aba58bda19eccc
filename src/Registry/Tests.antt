-- ===== src/Registry/Tests.antt =====
-- The registry over its memory repository.
use santokit.Base.{
  ◌≡◌, refl, true, false, none, some, List, [], ◌∷◌, if◌then◌else◌, Text, lit, ◌==◌, contains,
  lookup, insert, ok, is_ok,
}
use santokit.Base.Sort.{sort_strings}
use santokit.Base.Paths.{clean, join}
use santokit.Base.Strings.{split, has_prefix}
use santokit.Base.Strings.Search.{trim_left}
use santokit.Registry.{
  Bundle, Manifest, EdgeStores, PushEnv, server, latest, file_place, redis_place, push, get_latest,
  create_edge_latest, create_server_bundle, new_manifest, propagate, propagate_to_edge,
}
use santokit.Registry.Memory
use santokit.Registry.Memory.{Manifests, repository}
use santokit.Registry.Memory.Pushes.{reads-push}
use santokit.Registry.Propagation.{lookup-propagate}

registry : Unit {0}
unfolding push new_manifest propagate_to_edge propagate create_edge_latest create_server_bundle
    lookup insert ◌==◌ Memory.save Memory.get_latest Memory.get_by_version Memory.list_versions
    sort_strings contains
registry = tt

abbrev bundle : Text → Text → Bundle
bundle name content = record {
  type = lit "sql";
  namespace = lit "users";
  name = name;
  hash = lit "00";
  content = content;
  config = none;
}

abbrev bundles : List Bundle
bundles =
    bundle (lit "get") (lit "SELECT 1")
    ∷ bundle (lit "list") (lit "SELECT 2")
    ∷ bundle (lit "get") (lit "SELECT 3")
    ∷ []

abbrev env : PushEnv
env = record {
  version = lit "20240102030405";
  now = 1704164645;
  redis_url = lit "redis://kv";
  redis_parses = true;
  dir_made = true;
  redis_fails = λ _. false;
  file_fails = λ _. false;
  home = lit "/home/ann";
}

abbrev nowhere : EdgeStores
nowhere = record { redis = []; files = [] }

abbrev pushed : Manifest
pushed = record {
  id = [];
  project_id = lit "shop";
  version = lit "20240102030405";
  bundles = bundles;
  created_at = 1704164645;
  created_by = lit "ann";
}

abbrev saved : Manifests
saved = (lit "shop", pushed ∷ []) ∷ []

push_test : (push repository env nowhere [] (lit "shop") bundles (lit "ann")).1 ≡ ok (pushed, saved)
unfolding registry
push_test = refl

reads-push_example :
    (m : Manifest) × (s' : Manifests) × ((push repository env nowhere saved
        (lit "shop")
        []
        (lit "bob")).1
      ≡ ok (m, s'))
    × ((q : Text)
        → get_latest repository s' q
          ≡ (if lit "shop" == q then ok m else get_latest repository saved q))
    × (Memory.get_by_version s' (lit "shop") env.version ≡ (
        if is_ok (Memory.get_by_version saved (lit "shop") env.version)
        then Memory.get_by_version saved (lit "shop") env.version
        else ok m))
    × (contains env.version (Memory.list_versions s' (lit "shop")) ≡ true)
    × (m.project_id ≡ lit "shop")
    × (m.bundles ≡ [])
    × (m.created_by ≡ lit "bob")
    × (m.version ≡ env.version)
reads-push_example = reads-push env nowhere saved (lit "shop") [] (lit "bob")

-- A bundle whose file would be the latest list of the project `other`.
abbrev escaping : Bundle
escaping = record (bundle (lit "other:latest") (lit "SELECT 4")) { namespace = lit "a/../project" }

lookup-propagate_example :
    (lookup (lit "/home/ann/.santokit/tmp/kv/project:other:latest") (
        propagate
          (file_place (lit "/home/ann"))
          (λ _. false)
          (lit "shop")
          (lit "v")
          (escaping ∷ [])
          [])
      ≡ some (server (create_server_bundle escaping)))
    × (lookup
          (lit "project:shop:latest")
          (propagate redis_place (λ _. false) (lit "shop") (lit "v") (escaping ∷ []) [])
        ≡ some (latest (create_edge_latest (lit "shop") (lit "v") (escaping ∷ []))))
unfolding registry file_place join clean split has_prefix trim_left
lookup-propagate_example =
    lookup-propagate (λ _. false) (λ k. refl) (lit "shop") (file_place (lit "/home/ann")) (lit "v")
      (lit "/home/ann/.santokit/tmp/kv/project:other:latest") (escaping ∷ []) []
