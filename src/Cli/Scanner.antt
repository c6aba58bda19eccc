-- ===== src/Cli/Scanner.antt =====
-- The scanner of packages/cli/internal/engine/scanner/scanner.go. `filepath.Walk` is an argument: the
-- files below the directory, in its order, by their paths relative to the directory.
use santokit.Base.{
  Bool, true, not, ◌||◌, Option, none, some, List, [], ◌∷◌, if◌then◌else◌, eqb, Text, lit, ◌==◌,
  Result, ok, err,
}
use santokit.Base.Paths.{ext, base}

-- `FileType`
pub data FileType : Type 0 where
  hcl yaml sql js : FileType

pub record ScannedFile : Type 0 where
  pub path : Text
  pub type : FileType
  pub is_public : Bool

-- The type of an extension; other files are skipped.
pub type_of : Text → Option FileType
type_of e =
    if e == lit ".hcl"
    then some hcl
    else if e == lit ".yaml" || e == lit ".yml"
    then some yaml
    else if e == lit ".sql"
    then some sql
    else if e == lit ".js"
    then some js
    else none

-- `filename[0] != '_'`
public_name : Text → Bool
public_name [] = true
public_name (c ∷ _) = not (eqb c b'_')

scanned : Text → Option FileType → List ScannedFile → List ScannedFile
scanned path none files = files
scanned path (some t) files =
    record { path = path; type = t; is_public = public_name (base path) } ∷ files

-- The function that `scanDir` walks with, on the files of the walk.
scan_files : List Text → List ScannedFile
unfolding scanned type_of public_name
scan_files [] = []
scan_files (path ∷ paths) = scanned path (type_of (ext path)) (scan_files paths)

-- `scanDir`, where the walk may fail
unfoldable pub scan_dir : Result (List Text) → Result (List ScannedFile)
unfolding scan_files
scan_dir (ok paths) = ok (scan_files paths)
scan_dir (err e) = err e
