-- ===== src/Cli/Secrets.antt =====
-- The commands `secret set`, `secret list` and `secret delete` of
-- packages/cli/internal/commands/secret.go. The connection to the hub is an argument.
pub mod Laws
mod Tests
use santokit.Base.{Option, List, Text, Result, ok, err}
use santokit.Api.Http.{Response}
use santokit.Api.Hub.{Call}
use santokit.Cli.Client.{ClientConfig, Headers, set_secret_at, list_secrets_at, delete_secret_at}
use santokit.Cli.Configs.{project_of}

-- What the three commands begin with: the project, or an error before anything is sent.
unfoldable pub for_project : {S A : Type 0} → S → Result Text → (Text → S × Result A) → S × Result A
for_project s (ok project_id) next = next project_id
for_project s (err e) next = (s, err e)

module _ {S : Type 0} (send : S → Headers → Call → S × Option Response) (c : ClientConfig)
    (s : S) where
  -- `secret set`
  unfoldable pub secret_set_command : Text → Text → Text → S × Result (Unit {0})
  unfolding for_project
  secret_set_command variable key value =
      for_project s (project_of c variable)
        (λ project_id. set_secret_at send c s project_id key value)

  -- `secret list`, which prints what it returns
  unfoldable pub secret_list_command : Text → S × Result (List Text)
  unfolding for_project
  secret_list_command variable =
      for_project s (project_of c variable) (λ project_id. list_secrets_at send c s project_id)

  -- `secret delete`, where `key_in` reads the key out of the URL
  unfoldable pub secret_delete_command : (Text → Option Text) → Text → Text → S × Result (Unit {0})
  unfolding for_project
  secret_delete_command key_in variable key =
      for_project s (project_of c variable)
        (λ project_id. delete_secret_at send c key_in s project_id key)
