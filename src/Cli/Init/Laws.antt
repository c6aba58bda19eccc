-- ===== src/Cli/Init/Laws.antt =====
-- What the disk holds after `init`.
use santokit.Base.{
  ◌≡◌, refl, sym, ap, ◌∙◌, inl, inr, Bool-cases, Option-cases, Bool, Option, none, some, [], ◌∷◌,
  get_or, if◌then◌else◌, Text, lit, ◌==◌, eq_iff, Map, lookup, insert, lookup-insert, Result, ok,
  err, file_unreadable,
}
use santokit.Base.Paths.{join}
use santokit.Cli.Disk.{Disk, write_file}
use santokit.Cli.Init.Templates.{tsconfig_content}
use santokit.Cli.Init.{
  dirs, samples, project_name, make_all, then_, write_all, write_tsconfig, init_command,
}

-- What a path holds after the files are written in their order.
abbrev pub overlaid : Text → Map Text → Option Text → Option Text
overlaid k [] old = old
overlaid k ((path, content) ∷ files) old =
    overlaid k files (if path == k then some content else old)

module _ (path k content : Text) where
  kept :
      (old : Text) (disk : Disk)
      → lookup path disk ≡ some old
      → lookup k disk ≡ (if path == k then some (get_or (lookup k disk) content) else lookup k disk)
  kept old disk found = elim (Bool-cases (path == k)) [
    | inr differs ↦ rw differs refl
    | inl same ↦
        let there : lookup k disk ≡ some old = rw ((eq_iff path k).0 same) at found in
        rw (same, there) refl
  ]

  added :
      (disk : Disk)
      → lookup path disk ≡ none
      → (if path == k then some content else lookup k disk)
        ≡ (if path == k then some (get_or (lookup k disk) content) else lookup k disk)
  added disk missing = elim (Bool-cases (path == k)) [
    | inr differs ↦ rw differs refl
    | inl same ↦
        let there : lookup k disk ≡ none = rw ((eq_iff path k).0 same) at missing in
        rw (same, there) refl
  ]

module _ (writable : Text → Bool) where
  -- A disk that differs from the old one by one file.
  pub IsWritten : Text → Text → Disk → Disk → Type 0
  IsWritten path content disk disk' =
      (k : Text) → lookup k disk' ≡ (if path == k then some content else lookup k disk)

  write_file_lem :
      (path content : Text) (disk disk' : Disk)
      → write_file writable path content disk ≡ (disk', ok tt)
      → IsWritten path content disk disk'
  unfolding write_file IsWritten
  write_file_lem path content disk disk' h k = elim (Bool-cases (writable path)) [
    | inl can ↦
        let held : insert path content disk ≡ disk' = ap (λ x. x.0) (rw can at h) in
        ap (lookup k) (sym held) ∙ lookup-insert path k content disk
    | inr not_so ↦
        absurd (let clash : err file_unreadable ≡ ok tt = ap (λ x. x.1) (rw not_so at h) in cc)
  ]

  then_ok :
      (next : Disk → Disk × Result (Unit {0})) (first : Disk × Result (Unit {0})) (disk' : Disk)
      → then_ writable next first ≡ (disk', ok tt)
      → (mid : Disk) × (first ≡ (mid, ok tt)) × (next mid ≡ (disk', ok tt))
  unfolding then_
  then_ok next (disk, err e) disk' h = absurd (let clash : err e ≡ ok tt = ap (λ x. x.1) h in cc)
  then_ok next (disk, ok _) disk' h = (disk, refl, h)

  write_all_lem :
      (files : Map Text) (next : Disk → Disk × Result (Unit {0})) (disk disk' : Disk)
      → write_all writable files next disk ≡ (disk', ok tt)
      → (mid : Disk) × ((k : Text) → lookup k mid ≡ overlaid k files (lookup k disk))
        × (next mid ≡ (disk', ok tt))
  unfolding write_all IsWritten
  write_all_lem [] next disk disk' h = (disk, λ k. refl, h)
  write_all_lem ((path, content) ∷ files) next disk disk' h =
      let (first, wrote, rest) = then_ok (write_all writable files next) _ disk' h in
      let (mid, over, done) = write_all_lem files next first disk' rest in
      (
        mid,
        λ k. over k ∙ ap (overlaid k files) (write_file_lem path content disk first wrote k),
        done,
      )

  write_tsconfig_lem :
      (path : Text) (disk disk' : Disk) (k : Text)
      → write_tsconfig writable path disk ≡ (disk', ok tt)
      → lookup k disk'
        ≡ (if path == k then some (get_or (lookup k disk) tsconfig_content) else lookup k disk)
  unfolding write_tsconfig IsWritten
  write_tsconfig_lem path disk disk' k h = elim (Option-cases (lookup path disk)) [
    | inr (old, found) ↦
        let same : disk ≡ disk' = ap (λ x. x.0) (rw found at h) in
        ap (lookup k) (sym same) ∙ kept path k tsconfig_content old disk found
    | inl missing ↦
        write_file_lem path tsconfig_content disk disk' (rw missing at h) k
        ∙ added path k tsconfig_content disk missing
  ]

module _ (writable can_make : Text → Bool) (arg : Option Text) where
  -- The path of tsconfig.json.
  abbrev pub tsconfig_path : Text
  tsconfig_path = join (project_name arg) (lit "tsconfig.json")

  -- What a path holds once the samples are written over it.
  abbrev pub sampled : Disk → Text → Option Text
  sampled disk k = overlaid k (samples (project_name arg)) (lookup k disk)

  -- After an `init` that succeeded each path holds what the last sample with that path says, whatever
  -- it held before, or else what it held before; but tsconfig.json, where it was there, holds
  -- what it held, and otherwise its template.
  pub init_command_lem :
      (disk disk' : Disk) (k : Text)
      → init_command writable can_make arg disk ≡ (disk', ok tt)
      → lookup k disk' ≡ (
          if tsconfig_path == k
          then some (get_or (sampled disk k) tsconfig_content)
          else sampled disk k)
  unfolding init_command
  init_command_lem disk disk' k h =
      elim (Bool-cases (make_all can_make (dirs (project_name arg)))) [
        | inr not_made ↦
            absurd
              (let clash : err file_unreadable ≡ ok tt = ap (λ x. x.1) (rw not_made at h) in cc)
        | inl made ↦
            let (mid, over, done) =
              write_all_lem writable (samples (project_name arg))
                (write_tsconfig writable tsconfig_path) disk disk' (rw made at h) in
            write_tsconfig_lem writable tsconfig_path mid disk' k done
            ∙ ap (λ old. if tsconfig_path == k then some (get_or old tsconfig_content) else old)
                (over k)
      ]
