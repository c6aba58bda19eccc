-- ===== src/Cli/Deploy.antt =====
-- The commands `logic apply` and `logic validate` of packages/cli/internal/commands/logic.go. The files
-- that the scanner finds, what reading them answers, YAML, SHA-256, the clock and the connection to the
-- hub are arguments.
pub mod Laws
pub mod Tests
use santokit.Base.{ℕ, Option, none, some, List, [], ◌∷◌, Text, Result, ok, err, ◌>>=◌}
use santokit.Api.Http.{Response}
use santokit.Api.Hub.{Call}
use santokit.Cli.Scanner.{ScannedFile}
use santokit.Cli.Parser.{LogicConfig, Yaml}
use santokit.Cli.Integrator.{Bundle, Manifest, bundle_logic, create_manifest}
use santokit.Cli.Logic.{build_logic_configs}
use santokit.Cli.Client.{ClientConfig, Headers, push_manifest_to}
use santokit.Cli.Configs.{project_of}

module _ (yaml : Yaml) (read : Text → Option Text) where
  validate_files : List ScannedFile → Result (Unit {0})
  validate_files [] = ok tt
  validate_files (file ∷ files) = build_logic_configs yaml read (file ∷ files) >>= λ _. ok tt

  -- `logic validate`, after the scan
  unfoldable pub logic_validate_command : Result (List ScannedFile) → Result (Unit {0})
  unfolding validate_files
  logic_validate_command scan = scan >>= validate_files

  module _ (sha256 : Text → Text) (now : ℕ) where
    -- The loop over the configurations; `BundleLogic` does not fail.
    unfoldable pub bundle_all : List LogicConfig → List Bundle
    bundle_all [] = []
    bundle_all (config ∷ configs) = bundle_logic sha256 now config ∷ bundle_all configs

    module _ {S : Type 0} (send : S → Headers → Call → S × Option Response) (c : ClientConfig)
        (s : S) where
      manifest_of : Text → List ScannedFile → Result Manifest
      manifest_of variable files = do
        configs ← build_logic_configs yaml read files
        project_id ← project_of c variable
        ok (create_manifest sha256 now project_id (bundle_all configs))

      push_made : Result Manifest → S × Result (Unit {0})
      push_made (ok m) = push_manifest_to send c s m
      push_made (err e) = (s, err e)

      apply_files : Text → Result (List ScannedFile) → S × Result (Unit {0})
      unfolding manifest_of push_made
      apply_files variable (err e) = (s, err e)
      apply_files variable (ok []) = (s, ok tt)
      apply_files variable (ok (file ∷ files)) = push_made (manifest_of variable (file ∷ files))

      -- `logic apply`, after the scan
      unfoldable pub logic_apply_command : Text → Result (List ScannedFile) → S × Result (Unit {0})
      unfolding apply_files
      logic_apply_command variable scan = apply_files variable scan
