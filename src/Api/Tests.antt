-- ===== src/Api/Tests.antt =====
-- Tokens over the toy codec, and calls of a hub whose repositories are in memory.
pub mod Codec
mod Apart
use santokit.Base.{
  ℕ, ◌≡◌, refl, ◌⊎◌, inl, inr, ◌/◌, Bool, true, false, not, Option, none, some, List, [], ◌∷◌, Text,
  lit, Map, lookup, ok, arith, if◌then◌else◌, drop, ◌==◌, insert,
}
use santokit.Base.Int.{pos, ltb_ℤ, ◌+ℤ◌, floor_div}
use santokit.Base.Json.{Json}
use santokit.Base.Strings.{trim_space, to_lower}
use santokit.Api.Tests.Codec.{toy, toy-Carries}
use santokit.Vault.Tests as VaultTests
use santokit.Vault.Memory as Secrets
use santokit.Registry.{Manifest, new_manifest, push}
use santokit.Registry.Memory as Manifests
use santokit.Registry.Memory.Versions.{repository-IsLog}
use santokit.ProjectConfig.{Config, by_project, set}
use santokit.ProjectConfig.Laws.{by_project-IsMap}
use santokit.Schema.{new_service}
use santokit.Schema.Tests as SchemaTests
use santokit.Projects.{CreateEnv}
use santokit.Api.Token.{
  second, payload_of, token_of, issue_token, verify_token, user_of, parse_user_id_from_token, blank,
}
use santokit.Api.Token.Laws.{IsCarriedToken, verify-issue_token, parse_user_id-issue_token}
use santokit.Api.Token.Claims.{IsAuthentic, verify_token_sound, parse_user_id_sound}
use santokit.Api.Http.{respond, http_error, config, manifest}
use santokit.Api.Auth.{AuthEnv, is_open, ttl_of}
use santokit.Api.Auth.Lifetime.{ttl_of_lem}
use santokit.Api.Auth.Laws.{IsCaller}
use santokit.Api.Hub.{Deps, Hub, Request, Call, list_secrets, schema_apply}
use santokit.Api.Hub.Handlers.{
  dispatch, serve, handle_config_apply, handle_config_get, handle_push_manifest,
  handle_get_manifest,
}
use santokit.Api.Hub.Handlers.Laws.{
  serve_lem, dispatch_without_project, config_get-config_apply, get_manifest-push_manifest,
}

-- Issued at the second 5 for three seconds.
abbrev pub token : Text
token = token_of toy (lit "secret") (
    payload_of (lit "ann") [] (lit "pat") (pos (5000000000 / second))
      (floor_div (pos 8000000000) second))

pub issued :
    issue_token toy (lit "secret") 5000000000 (lit "ann") [] (lit "pat") (pos 3000000000)
    ≡ ok (token, pos 8000000000)
unfolding issue_token trim_space ◌+ℤ◌
issued = refl

pub carried :
    IsCarriedToken toy (lit "secret") (lit "ann") [] (lit "pat") 5000000000 (pos 8000000000)
unfolding floor_div
carried = record {
  user_utf8 = tt;
  email_utf8 = tt;
  typ_utf8 = tt;
  issued = omega arith;
  expires = (omega arith, omega arith);
}

parse_user_id-issue_token_example :
    parse_user_id_from_token toy (lit "secret") 6 token ≡ some (lit "ann")
unfolding floor_div
parse_user_id-issue_token_example =
    parse_user_id-issue_token toy (lit "secret") toy-Carries 5000000000 (lit "ann") [] (lit "pat")
      (pos 3000000000) (pos 8000000000) token issued carried 6

known : parse_user_id_from_token toy (lit "secret") 6 token ≡ some (lit "ann")
unfolding floor_div
known =
    parse_user_id-issue_token toy (lit "secret") toy-Carries 5000000000 (lit "ann") [] (lit "pat")
      (pos 3000000000) (pos 8000000000) token issued carried 6

parse_user_id_sound_example :
    (claims : Map Json) × (user_of toy (lit "secret") claims ≡ some (lit "ann"))
    × IsAuthentic toy (lit "secret") 6 token claims
parse_user_id_sound_example = parse_user_id_sound toy (lit "secret") 6 token (lit "ann") known

abbrev pub deps : Deps
deps = record {
  codec = toy;
  gcm = VaultTests.toy;
  sha256 = λ s. s;
  vaults = Secrets.repository;
  manifests = Manifests.repository;
  configs = by_project;
  atlas = SchemaTests.toy;
}

abbrev pub hub : Hub deps
hub = record {
  vault = VaultTests.service;
  secrets = [];
  manifests = [];
  edge = record { redis = []; files = [] };
  configs = [];
  schema = new_service;
  databases = [];
  projects = none;
}

abbrev pub request : Text → Text → Request
request authorization header = record {
  authorization = authorization;
  project_header = header;
  now = 6000000000;
  nonce = some VaultTests.nonce;
  version = lit "20240102030405";
  push = record {
    version = lit "20240102030405";
    now = 6000000000;
    redis_url = [];
    redis_parses = true;
    dir_made = true;
    redis_fails = λ _. false;
    file_fails = λ _. false;
    home = lit "/home/ann";
  };
  create = record {
    team_source = record { random = none; nanos = 1 };
    project_source = record { random = none; nanos = 2 };
    key_bytes = none;
    now = 6000000000;
  };
}

abbrev enforced : AuthEnv
enforced = record { mode = lit "Token"; disable_auth = [] }

serve_lem_example :
    ◌⊎◌
      ((message : Text) × (serve deps
            (lit "secret")
            enforced
            hub
            (request (lit "Basic") (lit "shop"))
            list_secrets
          ≡ (hub, http_error message 401)))
      ((user : Text) × IsCaller toy (lit "secret") 6000000000 (lit "Basic") user
        × (serve deps (lit "secret") enforced hub (request (lit "Basic") (lit "shop")) list_secrets
            ≡ dispatch deps hub (request (lit "Basic") (lit "shop")) user list_secrets))
unfolding to_lower ◌==◌
serve_lem_example =
    serve_lem deps (lit "secret") enforced hub (request (lit "Basic") (lit "shop")) list_secrets
      refl

dispatch_without_project_example :
    ((dispatch deps hub (request [] (lit " ")) (lit "ann") (schema_apply (some []))).0 ≡ hub)
    × ((dispatch deps hub (request [] (lit " ")) (lit "ann") (schema_apply (some []))).1.status
        ≡ 400)
unfolding trim_space
dispatch_without_project_example =
    dispatch_without_project deps hub (request [] (lit " ")) (lit "ann") refl
      (schema_apply (some [])) refl

abbrev cfg : Config
cfg = record { databases = lit "main: pg"; auth = []; storage = lit "s3" }

ttl_of_lem_example : ltb_ℤ (ttl_of (pos 9223372037)) (pos 0) ≡ true
ttl_of_lem_example = ttl_of_lem 9223372037 (omega arith) (omega arith)

abbrev answered : Manifest
answered = record {
  id = [];
  project_id = lit "shop";
  version = lit "20240102030405";
  bundles = [];
  created_at = 6000000000;
  created_by = lit "ann";
}
