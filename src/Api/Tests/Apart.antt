-- ===== src/Api/Tests/Apart.antt =====
-- Requests of one project, and what the hub holds of another.
use santokit.Base.{refl, some, [], ◌∷◌, List, lit, ◌==◌}
use santokit.Base.Strings.{trim_space}
use santokit.Vault.Memory.{repository-IsKeyed}
use santokit.Registry.Memory.Versions.{repository-IsLog}
use santokit.ProjectConfig.Laws.{by_project-IsMap}
use santokit.Api.Auth.{AuthEnv}
use santokit.Api.Hub.{Request, Call, set_secret, delete_secret, push_manifest}
use santokit.Api.Hub.Handlers.Isolation.{HoldSame}
use santokit.Api.Hub.Handlers.Apart.{serve_all, serve_all-HoldSame}
use santokit.Api.Tests.{deps, hub, request}

abbrev open_hub : AuthEnv
open_hub = record { mode = []; disable_auth = lit "true" }

abbrev requests : List (Request × Call)
requests =
    (request [] (lit "blog"), set_secret (some (lit "KEY", lit "value")))
    ∷ (request [] (lit " blog "), push_manifest (some []))
    ∷ (request [] (lit "blog"), delete_secret (lit "KEY"))
    ∷ []

serve_all-HoldSame_example :
    HoldSame deps (lit "shop") hub (serve_all deps (lit "secret") open_hub requests hub)
unfolding trim_space ◌==◌
serve_all-HoldSame_example =
    serve_all-HoldSame deps repository-IsKeyed repository-IsLog by_project-IsMap (lit "shop")
      (lit "secret") open_hub requests hub (refl, (refl, (refl, tt)))
