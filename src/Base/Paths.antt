-- ===== src/Base/Paths.antt =====
-- The functions of Go's `path/filepath` on Unix that the program calls.

use mathlib.Core.Path.{◌≡◌, refl}
use mathlib.Core.Bool.{Bool, true, false}
use mathlib.Core.List.{List, [], ◌∷◌, ◌++◌, reverse}
use santokit.Base.Tests.{eqb, if◌then◌else◌}
use santokit.Base.Bytes.{Text, lit, ◌==◌, is_empty}
use santokit.Base.Strings.{split, has_prefix}
use santokit.Base.Strings.Search.{trim_left}

-- The bytes up to a slash, and from it on.
until_slash : Text → Text
until_slash [] = []
until_slash (c ∷ s) = if eqb c b'/' then [] else c ∷ until_slash s

from_slash : Text → Text
from_slash [] = []
from_slash (c ∷ s) = if eqb c b'/' then c ∷ s else from_slash s

-- `filepath.Split`: the directory with its slash, and the file name
unfoldable pub split_path : Text → Text × Text
unfolding until_slash from_slash
split_path path = (reverse (from_slash (reverse path)), reverse (until_slash (reverse path)))

-- In the name in reverse, the extension up to its dot; a name without a dot has none.
ext_of : Text → Text → Text
ext_of seen [] = []
ext_of seen (c ∷ s) =
    if eqb c b'.' then c ∷ seen else if eqb c b'/' then [] else ext_of (c ∷ seen) s

-- `filepath.Ext`
unfoldable pub ext : Text → Text
unfolding ext_of
ext path = ext_of [] (reverse path)

base_of : Text → Text → Text
base_of path [] = if is_empty path then lit "." else lit "/"
base_of path (c ∷ s) = reverse (until_slash (c ∷ s))

-- `filepath.Base`
unfoldable pub base : Text → Text
unfolding base_of until_slash
base path = base_of path (trim_left b'/' (reverse path))

-- One element of a path, on the elements before it in reverse.
step : Bool → List Text → Text → List Text
step rooted done part =
    if is_empty part
    then done
    else if part == lit "."
    then done
    else if part == lit ".."
    then elim done [
      | [] ↦ if rooted then [] else part ∷ []
      | last ∷ before ↦ if last == lit ".." then part ∷ last ∷ before else before
    ]
    else part ∷ done

elements : Bool → List Text → List Text → List Text
unfolding step
elements rooted done [] = reverse done
elements rooted done (part ∷ parts) = elements rooted (step rooted done part) parts

joined : List Text → Text
joined [] = []
joined (part ∷ []) = part
joined (part ∷ next ∷ parts) = part ++ b'/' ∷ joined (next ∷ parts)

dot_if_empty : Text → Text
dot_if_empty [] = lit "."
dot_if_empty (c ∷ s) = c ∷ s

-- `filepath.Clean`
unfoldable pub clean : Text → Text
unfolding elements joined dot_if_empty
clean path =
    if has_prefix path (lit "/")
    then b'/' ∷ joined (elements true [] (split path b'/'))
    else dot_if_empty (joined (elements false [] (split path b'/')))

-- `filepath.Join` of two elements, of which empty ones are left out
unfoldable pub join : Text → Text → Text
join [] [] = []
join [] (c ∷ name) = clean (c ∷ name)
join (c ∷ dir) [] = clean (c ∷ dir)
join (c ∷ dir) (d ∷ name) = clean ((c ∷ dir) ++ b'/' ∷ d ∷ name)

-- `filepath.Dir`
unfoldable pub dir : Text → Text
dir path = clean (split_path path).0

paths : Unit {0}
unfolding split_path ext base clean join dir split has_prefix ◌==◌ trim_left
paths = tt

clean_tests :
    (clean (lit "orders//./x/../") ≡ lit "orders")
    × ((clean (lit "") ≡ lit ".")
        × ((clean (lit "/../a") ≡ lit "/a") × (clean (lit "../a/../..") ≡ lit "../..")))
unfolding paths
clean_tests = (refl, (refl, (refl, refl)))

name_tests :
    (split_path (lit "users/get.sql") ≡ (lit "users/", lit "get.sql"))
    × ((ext (lit "users.d/get.sql") ≡ lit ".sql")
        × ((ext (lit "users.d/get") ≡ lit "")
            × ((base (lit "users/get.sql") ≡ lit "get.sql")
                × (join (lit ".") (lit "get") ≡ lit "get"))))
unfolding paths
name_tests = (refl, (refl, (refl, (refl, refl))))
