-- ===== src/Cli/Login/Tests.antt =====
-- A login with a token of the toy codec.
use santokit.Base.{◌≡◌, refl, true, lit, [], ◌∷◌, ok}
use santokit.Base.Int.{pos, floor_div}
use santokit.Base.Json.{Json}
use santokit.Api.Tests.Codec.{toy, toy-Carries}
use santokit.Api.Tests.{token, issued, carried}
use santokit.Cli.Profiles.{ConfigFile, absent, holds, run, log_in}
use santokit.Cli.Login.{login}
use santokit.Cli.Login.Laws.{me, login-issue_token}

abbrev saved : ConfigFile
saved = holds (record {
  current = lit "default";
  profiles =
      (lit "default", record { hub_url = lit "http://b"; project_id = []; token = token }) ∷ [];
})

login-issue_token_example :
    login (me toy (lit "secret") 6000000000) true (lit "http://b") absent (ok token)
    ≡ run true absent (log_in (lit "http://b") token)
unfolding floor_div
login-issue_token_example =
    login-issue_token toy (lit "secret") 6000000000 toy-Carries 5000000000 (lit "ann") []
      (lit "pat") (pos 3000000000) (pos 8000000000) token issued carried refl true (lit "http://b")
      absent
