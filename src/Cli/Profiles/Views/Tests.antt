-- ===== src/Cli/Profiles/Views/Tests.antt =====
-- Tokens as they are shown.
use santokit.Base.{◌≡◌, ◌≤◌, refl, true, [], ◌∷◌, length, lit, ◌==◌, lookup, insert, ok}
use santokit.Cli.Profiles.{ConfigFile, holds, load, run, set_token}
use santokit.Cli.Profiles.Views.{mask_token, auth_show}
use santokit.Cli.Profiles.Views.Masking.{mask_token_lem, auth_show-set_token}

mask_tests :
    (mask_token (lit "short") ≡ lit "****") × (mask_token (lit "abcdefghij") ≡ lit "abcd...ghij")
unfolding mask_token
mask_tests = (refl, refl)

mask_token_lem_example :
    (mask_token (lit "abcdXXghij") ≡ mask_token (lit "abcdefghij"))
    × (length (mask_token (lit "abcdXXghij")) ≤ 11)
mask_token_lem_example = mask_token_lem (lit "abcdXXghij") (lit "abcdefghij") refl refl refl

abbrev before : ConfigFile
before = holds (record {
  current = lit "default";
  profiles =
      (lit "default", record { hub_url = lit "http://a"; project_id = []; token = lit "t1" }) ∷ [];
})

abbrev after : ConfigFile
after = holds (record {
  current = lit "default";
  profiles =
      (
        lit "default",
        record { hub_url = lit "http://a"; project_id = []; token = lit "abcdefghij" },
      )
      ∷ [];
})

token_set : run true before (set_token (lit "abcdefghij")) ≡ (after, ok tt)
unfolding run set_token load lookup insert ◌==◌
token_set = refl

auth_show-set_token_example : auth_show after ≡ ok (mask_token (lit "abcdefghij"))
auth_show-set_token_example = auth_show-set_token true before after (lit "abcdefghij") token_set
