-- ===== src/Base/Strings.antt =====
-- The functions of Go's package `strings` that the hub calls, over the bytes of a string.
pub mod Laws
pub mod Visible
pub mod Search
use Prim.Native.Nat.{ℕ, ◌+◌}
use mathlib.Core.Bool.{Bool, true, false, ◌&&◌, ◌||◌}
use mathlib.Core.List.{List, [], ◌∷◌, ◌++◌, reverse}
use santokit.Base.Tests.{eqb, leb, if◌then◌else◌}
use santokit.Base.Bytes.{Text}

-- The encodings of the runes for which `unicode.IsSpace` holds: one, two and three bytes.
space1 : ℕ → Bool
space1 a = leb 9 a && leb a 13 || eqb a 32

space2 : ℕ → ℕ → Bool
space2 a b = eqb a 0xC2 && (eqb b 0x85 || eqb b 0xA0)

space3 : ℕ → ℕ → ℕ → Bool
space3 a b c =
    eqb a 0xE1 && eqb b 0x9A && eqb c 0x80
    || eqb a 0xE2
      && eqb b 0x80
      && (leb 0x80 c && leb c 0x8A || eqb c 0xA8 || eqb c 0xA9 || eqb c 0xAF)
    || eqb a 0xE2 && eqb b 0x81 && eqb c 0x9F
    || eqb a 0xE3 && eqb b 0x80 && eqb c 0x80

-- Drop white space at the front, where `flip` says that the bytes stand in reverse.
trim_from : Bool → Text → Text
trim_from flip [] = []
trim_from flip (a ∷ []) = if space1 a then [] else a ∷ []
trim_from flip (a ∷ b ∷ []) =
    let one = trim_from flip (b ∷ []) in
    if space1 a then one else if (if flip then space2 b a else space2 a b) then [] else a ∷ b ∷ []
trim_from flip (a ∷ b ∷ c ∷ s) =
    let one = trim_from flip (b ∷ c ∷ s) in
    let two = trim_from flip (c ∷ s) in
    let three = trim_from flip s in
    if space1 a
    then one
    else if (if flip then space2 b a else space2 a b)
    then two
    else if (if flip then space3 c b a else space3 a b c)
    then three
    else a ∷ b ∷ c ∷ s

-- `strings.TrimSpace`
unfoldable pub trim_space : Text → Text
unfolding trim_from space1 space2 space3
trim_space s = reverse (trim_from true (reverse (trim_from false s)))

-- `strings.ToLower`, exact wherever its result is compared with ASCII text: besides A to Z only
-- U+0130 and U+212A have an ASCII lower case, and no other rune is mapped to an ASCII one.
unfoldable pub to_lower : Text → Text
to_lower [] = []
to_lower (a ∷ []) = (if leb 65 a && leb a 90 then a + 32 else a) ∷ []
to_lower (a ∷ b ∷ []) =
    let rest = to_lower (b ∷ []) in
    if eqb a 0xC4 && eqb b 0xB0
    then 105 ∷ []
    else (if leb 65 a && leb a 90 then a + 32 else a) ∷ rest
to_lower (a ∷ b ∷ c ∷ s) =
    let one = to_lower (b ∷ c ∷ s) in
    let two = to_lower (c ∷ s) in
    let three = to_lower s in
    if eqb a 0xC4 && eqb b 0xB0
    then 105 ∷ two
    else if eqb a 0xE2 && eqb b 0x84 && eqb c 0xAA
    then 107 ∷ three
    else (if leb 65 a && leb a 90 then a + 32 else a) ∷ one

-- `strings.HasPrefix`
unfoldable pub has_prefix : Text → Text → Bool
has_prefix s [] = true
has_prefix [] (_ ∷ _) = false
has_prefix (a ∷ s) (b ∷ p) = eqb a b && has_prefix s p

-- `strings.HasSuffix`
unfoldable pub has_suffix : Text → Text → Bool
unfolding has_prefix
has_suffix s p = has_prefix (reverse s) (reverse p)

-- `strings.Split` at a separator of one byte: `cur` is the part that is being read.
split_from : ℕ → Text → Text → List Text
split_from sep cur [] = cur ∷ []
split_from sep cur (c ∷ s) = elim (eqb c sep) [
  | true ↦ cur ∷ split_from sep [] s
  | false ↦ split_from sep (cur ++ c ∷ []) s
]

unfoldable pub split : Text → ℕ → List Text
unfolding split_from
split s sep = split_from sep [] s
