-- ===== src/Cli/Disk.antt =====
-- The files that commands write: their contents by path. `writable` tells whether `os.MkdirAll` of the
-- path's directory and `os.WriteFile` of the path succeed; a write that fails leaves the file.
use santokit.Base.{Bool, if◌then◌else◌, Text, Map, insert, Result, ok, err, file_unreadable}

abbrev pub Disk : Type 0
Disk = Map Text

-- `os.MkdirAll` of the directory and `os.WriteFile`
unfoldable pub write_file : (Text → Bool) → Text → Text → Disk → Disk × Result (Unit {0})
write_file writable path content disk =
    if writable path then (insert path content disk, ok tt) else (disk, err file_unreadable)
