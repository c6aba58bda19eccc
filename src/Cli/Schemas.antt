-- ===== src/Cli/Schemas.antt =====
-- The commands `schema plan` and `schema apply` of packages/cli/internal/commands/schema.go. The files
-- that the scanner finds and what reading them answers are arguments, as are the connection to the hub
-- and the answer to the prompt.
pub mod Settled
mod Tests
use santokit.Base.{
  ℕ, Bool, true, false, not, ◌||◌, Option, none, some, List, [], ◌∷◌, ◌-◌, if◌then◌else◌, is_empty,
  length, take, Text, lit, ◌==◌, Map, insert, or_error, file_unreadable, Result, ok, err, ◌>>=◌,
}
use santokit.Base.Strings.{trim_space, to_lower}
use santokit.Base.Paths.{ext, base}
use santokit.Schema.{Migration, PlanResult, Schemas}
use santokit.Api.Http.{Response}
use santokit.Api.Hub.{Call}
use santokit.Cli.Scanner.{ScannedFile}
use santokit.Cli.Client.{ClientConfig, Headers, plan_schema, apply_schema}
use santokit.Cli.Configs.{project_of}

-- The name of a schema: its file's base name without the extension.
pub alias_of : Text → Text
alias_of path = take (length (base path) - length (ext (base path))) (base path)

-- The loop of `loadSchemaFiles`.
load_files : (Text → Option Text) → List ScannedFile → Schemas → Result Schemas
unfolding alias_of
load_files read [] schemas = ok schemas
load_files read (file ∷ files) schemas =
    if not (ext file.path == lit ".hcl")
    then load_files read files schemas
    else (or_error (read file.path) file_unreadable >>= λ content.
        load_files read files (insert (alias_of file.path) content schemas))

-- `loadSchemaFiles`, after the scan
unfoldable pub load_schema_files : (Text → Option Text) → Result (List ScannedFile) → Result Schemas
unfolding load_files
load_schema_files read scan = scan >>= λ files. load_files read files []

-- `confirmPrompt`, on the line that was read
unfoldable pub confirm_prompt : Text → Bool
confirm_prompt input =
    let answer = trim_space (to_lower input) in answer == lit "y" || answer == lit "yes"

-- What a command that succeeds has done.
pub data Outcome : Type 0 where
  no_files : Outcome
  no_changes : Outcome
  aborted : Outcome
  applied : ℕ → Outcome

no_migrations : List Migration → Bool
no_migrations [] = true
no_migrations (_ ∷ _) = false

-- `!plan.HasChanges || len(plan.Migrations) == 0`
pub nothing_in : PlanResult → Bool
unfolding no_migrations
nothing_in plan = not plan.has_changes || no_migrations plan.migrations

module _ {S : Type 0} (send : S → Headers → Call → S × Option Response) (c : ClientConfig) where
  reported : ℕ → S × Result (Unit {0}) → S × Result Outcome
  reported n (s, ok _) = (s, ok (applied n))
  reported n (s, err e) = (s, err e)

  apply_plan : Bool → Text → PlanResult → S → S × Result Outcome
  unfolding nothing_in reported
  apply_plan agreed project_id plan s =
      if nothing_in plan
      then (s, ok no_changes)
      else if not agreed
      then (s, ok aborted)
      else reported (length plan.migrations) (apply_schema send c s project_id plan.migrations)

  plan_then : Bool → Text → S × Result PlanResult → S × Result Outcome
  unfolding apply_plan
  plan_then agreed project_id (s, ok plan) = apply_plan agreed project_id plan s
  plan_then agreed project_id (s, err e) = (s, err e)

  apply_to : Bool → S → Schemas → Result Text → S × Result Outcome
  unfolding plan_then
  apply_to agreed s schemas (err e) = (s, err e)
  apply_to agreed s schemas (ok project_id) =
      plan_then agreed project_id (plan_schema send c s project_id schemas)

  apply_loaded : Bool → S → Text → Result Schemas → S × Result Outcome
  unfolding apply_to
  apply_loaded agreed s variable (err e) = (s, err e)
  apply_loaded agreed s variable (ok []) = (s, ok no_files)
  apply_loaded agreed s variable (ok (schema ∷ schemas)) =
      apply_to agreed s (schema ∷ schemas) (project_of c variable)

  -- `schema apply`; `agreed` is the flag --yes or the answer to the prompt
  unfoldable pub schema_apply_command :
      Bool → S → Text → (Text → Option Text) → Result (List ScannedFile) → S × Result Outcome
  unfolding apply_loaded
  schema_apply_command agreed s variable read scan =
      apply_loaded agreed s variable (load_schema_files read scan)

  shown : S × Result PlanResult → S × Result (Option PlanResult)
  shown (s, ok plan) = (s, ok (some plan))
  shown (s, err e) = (s, err e)

  plan_for : S → Schemas → Result Text → S × Result (Option PlanResult)
  unfolding shown
  plan_for s schemas (err e) = (s, err e)
  plan_for s schemas (ok project_id) = shown (plan_schema send c s project_id schemas)

  plan_loaded : S → Text → Result Schemas → S × Result (Option PlanResult)
  unfolding plan_for
  plan_loaded s variable (err e) = (s, err e)
  plan_loaded s variable (ok []) = (s, ok none)
  plan_loaded s variable (ok (schema ∷ schemas)) =
      plan_for s (schema ∷ schemas) (project_of c variable)

  -- `schema plan`, which prints what it returns, `none` where there are no files
  unfoldable pub schema_plan_command :
      S → Text → (Text → Option Text) → Result (List ScannedFile) → S × Result (Option PlanResult)
  unfolding plan_loaded
  schema_plan_command s variable read scan = plan_loaded s variable (load_schema_files read scan)
