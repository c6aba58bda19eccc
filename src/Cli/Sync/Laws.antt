-- ===== src/Cli/Sync/Laws.antt =====
-- What `sync` writes, and what it writes after `logic apply`.
use santokit.Base.{
  ℕ, ◌≡◌, refl, sym, ap, ◌∙◌, inl, inr, Bool-cases, Bool, Option, List, ◌∷◌, All, Text, insert,
  Result, ok, err, ◌>>=◌, file_unreadable,
}
use santokit.Registry.{IsLog}
use santokit.Registry
use santokit.Api.Auth.{AuthEnv, admitted, auth_middleware}
use santokit.Api.Http.{manifest, respond}
use santokit.Api.Hub.{Deps, Hub, Request, get_manifest}
use santokit.Api.Hub.Handlers.{dispatch, handle_get_manifest}
use santokit.Cli.Scanner.{ScannedFile}
use santokit.Cli.Parser.{LogicConfig, Yaml}
use santokit.Cli.Parser.Laws.{IsDeployable}
use santokit.Cli.Integrator.{Manifest}
use santokit.Cli.Generator.{generate_types}
use santokit.Cli.Logic.{build_logic_configs}
use santokit.Cli.Logic.Laws.{Distinct, places}
use santokit.Cli.Client.{ClientConfig, headers, answered, manifest_in, fetched, fetch_manifest}
use santokit.Cli.Client.Laws.{connect, ask_lem}
use santokit.Cli.Configs.{project_of}
use santokit.Cli.Deploy.{logic_apply_command}
use santokit.Cli.Deploy.Laws.{AreBundlesOf, get_manifest-logic_apply}
use santokit.Cli.Disk.{Disk, write_file}
use santokit.Cli.Sync.Declared.{IsDeclared, declared_in, fetched-IsDeclared}
use santokit.Cli.Sync.{
  resolve_codegen_output, manifest_path, write_types, after_manifest, save, fetch, sync_command,
}

write_file_ok :
    (writable : Text → Bool) (path content : Text) (disk disk' : Disk)
    → write_file writable path content disk ≡ (disk', ok tt)
    → disk' ≡ insert path content disk
unfolding write_file
write_file_ok writable path content disk disk' h = elim (Bool-cases (writable path)) [
  | inl can ↦ sym (ap (λ x. x.0) (rw can at h))
  | inr not_so ↦
      absurd (let clash : err file_unreadable ≡ ok tt = ap (λ x. x.1) (rw not_so at h) in cc)
]

module _ (output_in : Text → Option Text) (marshal : Manifest → Text) (writable : Text → Bool)
    (root_dir : Text) where
  -- The disk with the manifest in the cache.
  abbrev pub cached : Disk → Manifest → Disk
  cached disk m = insert (manifest_path output_in marshal writable root_dir) (marshal m) disk

  -- The disk holds the manifest in the cache and its declarations at the output of the generator.
  pub record IsSynced (disk disk' : Disk) (m : Manifest) : Type 0 where
    pub path : Text
    pub resolved : resolve_codegen_output output_in root_dir (cached disk m) ≡ ok path
    pub written : disk' ≡ insert path (generate_types m) (cached disk m)

  write_types_ok :
      (m : Manifest) (disk disk' : Disk) (path : Result Text)
      → write_types output_in marshal writable root_dir m disk path ≡ (disk', ok tt)
      → (p : Text) × (path ≡ ok p) × (disk' ≡ insert p (generate_types m) disk)
  unfolding write_types
  write_types_ok m disk disk' (err e) h = absurd (let clash : err e ≡ ok tt = ap (λ x. x.1) h in cc)
  write_types_ok m disk disk' (ok p) h = (p, refl, write_file_ok writable p _ disk disk' h)

  after_manifest_ok :
      (m : Manifest) (disk disk' : Disk) (first : Disk × Result (Unit {0}))
      → write_file writable (manifest_path output_in marshal writable root_dir) (marshal m) disk
        ≡ first
      → after_manifest output_in marshal writable root_dir m first ≡ (disk', ok tt)
      → IsSynced disk disk' m
  unfolding after_manifest
  after_manifest_ok m disk disk' (disk1, err e) wrote h =
      absurd (let clash : err e ≡ ok tt = ap (λ x. x.1) h in cc)
  after_manifest_ok m disk disk' (disk1, ok _) wrote h =
      let held = write_file_ok writable _ (marshal m) disk disk1 wrote in
      let (path, resolved, written) = write_types_ok m disk1 disk' _ h in
      record { path = path; resolved = rw held at resolved; written = rw held at written }

  save_ok :
      (disk disk' : Disk) (m : Manifest)
      → save output_in marshal writable root_dir disk (ok m) ≡ (disk', ok tt)
      → IsSynced disk disk' m
  unfolding save
  save_ok disk disk' m h = after_manifest_ok m disk disk' _ refl h

module _ (d : Deps) (log : IsLog d.manifests) (secret : Text) (env : AuthEnv) (r r' : Request)
    (c : ClientConfig) (user user' project_id variable : Text)
    (project : project_of c variable ≡ ok project_id)
    (admits : auth_middleware d.codec secret r.now env (headers c project_id).authorization
      ≡ admitted user)
    (admits' : auth_middleware d.codec secret r'.now env (headers c project_id).authorization
      ≡ admitted user') where
  fetch_answered :
      (h : Hub d) (m : Registry.Manifest)
      → handle_get_manifest d h project_id ≡ respond 200 (manifest m)
      → (fetch (connect d secret env r') c h (ok project_id)).1 ≡ ok (fetched m)
  unfolding fetch fetch_manifest dispatch answered manifest_in
  fetch_answered h m answer =
      ap (λ x. x.1)
        (ask_lem d secret env r' c user' project_id admits' h get_manifest
          (λ reply. answered reply >>= manifest_in))
      ∙ (unfold answered manifest_in in rw answer refl)

  sync_step :
      (h : Hub d) (output_in : Text → Option Text) (marshal : Manifest → Text)
      (writable : Text → Bool) (root_dir : Text) (disk : Disk)
      → (sync_command output_in marshal writable root_dir
          (connect d secret env r')
          c
          h
          variable
          disk).1
        ≡ save output_in marshal writable root_dir disk
            (fetch (connect d secret env r') c h (ok project_id)).1
  unfolding sync_command fetch
  sync_step h output_in marshal writable root_dir disk = rw project refl

  module _ (yaml : Yaml) (read : Text → Option Text) (sha256 : Text → Text) (now : ℕ) (h : Hub d)
      (file : ScannedFile) (files : List ScannedFile) where
    -- The hub after `logic apply` of the files.
    abbrev pub applied : Hub d
    applied =
        (logic_apply_command yaml read sha256 now (connect d secret env r) c h variable
          (ok (file ∷ files))).0

    -- Against a hub that admits the client and whose repository keeps the manifest saved last as the
    -- latest, after a `logic apply` of at least one file that succeeded, a `sync` at a later time that
    -- succeeds leaves a manifest in the cache, and at the output of the generator the declarations of
    -- that manifest, which has one bundle for each of the configurations that the files make, in
    -- their order and of the same place. In the tree of namespaces that the generator makes of them,
    -- each configuration whose name does not begin with an underscore has a bundle of its name at the
    -- path of its namespace. The configurations have different places.
    pub sync-logic_apply :
        (configs : List LogicConfig) (output_in : Text → Option Text) (marshal : Manifest → Text)
        (writable : Text → Bool) (root_dir : Text) (disk disk' : Disk)
        → build_logic_configs yaml read (file ∷ files) ≡ ok configs
        → (logic_apply_command yaml read sha256 now
            (connect d secret env r)
            c
            h
            variable
            (ok (file ∷ files))).1
          ≡ ok tt
        → (sync_command output_in marshal writable root_dir
            (connect d secret env r')
            c
            applied
            variable
            disk).1
          ≡ (disk', ok tt)
        → (m : Registry.Manifest) × IsSynced output_in marshal writable root_dir disk disk'
            (fetched m)
          × AreBundlesOf sha256 configs m.bundles
          × All (IsDeclared (declared_in (fetched m).bundles)) configs
          × All IsDeployable configs
          × Distinct (places configs)
    sync-logic_apply configs output_in marshal writable root_dir disk disk' built good synced =
        let (m, answer, same, deployable, different) =
          get_manifest-logic_apply d log secret env r c user project_id variable project admits yaml
            read sha256 now h file files configs built good in
        let fetched_it = fetch_answered applied m answer in
        (
          m,
          save_ok output_in marshal writable root_dir disk disk' (fetched m) (
              rw fetched_it at
                (sym (sync_step applied output_in marshal writable root_dir disk) ∙ synced)),
          same,
          fetched-IsDeclared sha256 configs m same,
          deployable,
          different,
        )
