-- ===== src/Cli/Sync.antt =====
-- `stk sync`, packages/cli/internal/commands/sync.go. `json.MarshalIndent` of a manifest is an argument,
-- as is what `json.Unmarshal` reads in stk.config.json as the output of the generator, `none` where it
-- fails.
pub mod Declared
pub mod Laws
mod Tests
use santokit.Base.{
  Bool, Option, none, some, if◌then◌else◌, is_empty, Text, lit, lookup, Result, ok, err, ◌>>=◌,
  undecodable,
}
use santokit.Base.Strings.{has_prefix}
use santokit.Base.Paths.{join}
use santokit.Api.Http.{Response}
use santokit.Api.Hub.{Call}
use santokit.Cli.Integrator.{Manifest}
use santokit.Cli.Generator.{generate_types}
use santokit.Cli.Client.{ClientConfig, Headers, fetch_manifest}
use santokit.Cli.Configs.{project_of}
use santokit.Cli.Disk.{Disk, write_file}

-- `filepath.IsAbs`, else below the directory
under_root : Text → Text → Text
under_root root_dir path = if has_prefix path (lit "/") then path else join root_dir path

module _ {S : Type 0} (send : S → Headers → Call → S × Option Response) (c : ClientConfig)
    (s : S) where
  fetch : Result Text → S × Result Manifest
  fetch (err e) = (s, err e)
  fetch (ok project_id) = fetch_manifest send c s project_id

module _ (output_in : Text → Option Text) where
  configured : Option Text → Result Text
  configured none = ok (lit "santokit-env.d.ts")
  configured (some config) = elim (output_in config) [
    | none ↦ err undecodable
    | some output ↦ ok (if is_empty output then lit "santokit-env.d.ts" else output)
  ]

  -- `resolveCodegenOutput`; a file that cannot be read counts as missing
  unfoldable pub resolve_codegen_output : Text → Disk → Result Text
  unfolding configured under_root
  resolve_codegen_output root_dir disk =
      configured (lookup (join root_dir (lit "stk.config.json")) disk) >>= λ path.
      ok (under_root root_dir path)

  module _ (marshal : Manifest → Text) (writable : Text → Bool) (root_dir : Text) where
    abbrev pub manifest_path : Text
    manifest_path = join (join root_dir (lit ".santokit")) (lit "manifest.json")

    write_types : Manifest → Disk → Result Text → Disk × Result (Unit {0})
    write_types m disk (err e) = (disk, err e)
    write_types m disk (ok path) = write_file writable path (generate_types m) disk

    after_manifest : Manifest → Disk × Result (Unit {0}) → Disk × Result (Unit {0})
    unfolding write_types
    after_manifest m (disk, err e) = (disk, err e)
    after_manifest m (disk, ok _) = write_types m disk (resolve_codegen_output root_dir disk)

    -- What the command writes once it has fetched the manifest.
    unfoldable pub save : Disk → Result Manifest → Disk × Result (Unit {0})
    unfolding after_manifest
    save disk (err e) = (disk, err e)
    save disk (ok m) = after_manifest m (write_file writable manifest_path (marshal m) disk)

    module _ {S : Type 0} (send : S → Headers → Call → S × Option Response) (c : ClientConfig)
        (s : S) where
      -- `sync`
      unfoldable pub sync_command : Text → Disk → S × (Disk × Result (Unit {0}))
      unfolding fetch
      sync_command variable disk =
          let answer = fetch send c s (project_of c variable) in (answer.0, save disk answer.1)
