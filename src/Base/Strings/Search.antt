-- ===== src/Base/Strings/Search.antt =====
-- `strings.Cut`, `strings.SplitN` with three parts, and the trims of Go's package `strings`.
use santokit.Base.Tests.{eqb, if◌then◌else◌, Bool-cases}
use mathlib.Core.Logic.{inl, inr}
use Prim.Native.Nat.{ℕ, ◌-◌}
use mathlib.Core.Path.{◌≡◌, refl}
use mathlib.Core.Bool.{true, false}
use mathlib.Core.Option.{Option, none, some}
use mathlib.Core.List.{[], ◌∷◌, ◌++◌, reverse}
use native.Mathlib.Omega.{arith}
use santokit.Base.Lists.{length, take, drop}
use santokit.Base.Bytes.{Text, lit}
use santokit.Base.Strings.{has_prefix, has_suffix}

pub behind : ℕ → Option (Text × Text) → Option (Text × Text)
behind c none = none
behind c (some (before, after)) = some (c ∷ before, after)

-- What stands before and after the first `sep`; `strings.Index` is the length of the first part.
unfoldable pub cut : Text → Text → Option (Text × Text)
unfolding behind
cut sep [] = if has_prefix [] sep then some ([], []) else none
cut sep (c ∷ s) =
    let rest = behind c (cut sep s) in
    if has_prefix (c ∷ s) sep then some ([], drop (length sep) (c ∷ s)) else rest

-- `strings.TrimSuffix`
unfoldable pub trim_suffix : Text → Text → Text
trim_suffix s suffix = if has_suffix s suffix then take (length s - length suffix) s else s

-- Leading bytes `c` dropped.
unfoldable pub trim_left : ℕ → Text → Text
trim_left c [] = []
trim_left c (d ∷ s) = elim (eqb d c) [ true ↦ trim_left c s | false ↦ d ∷ s ]

-- `strings.Trim` at a cutset of one byte
unfoldable pub trim_byte : ℕ → Text → Text
trim_byte c s = reverse (trim_left c (reverse (trim_left c s)))

-- The second and third part of `strings.SplitN(s, sep, 3)`, if there are three.
pub after_first : Text → Option (Text × Text) → Option (Text × Text)
after_first sep none = none
after_first sep (some (before, after)) = cut sep after

unfoldable pub split_three : Text → Text → Option (Text × Text)
unfolding after_first
split_three sep s = after_first sep (cut sep s)

-- Behind a text and a line end, `---` is the first one if the text has none.
abbrev pub dashes : Text
dashes = lit "---"

line_end_first :
    (s r : Text) (c : ℕ)
    → has_prefix (c ∷ s) dashes ≡ false
    → has_prefix (c ∷ (s ++ 10 ∷ r)) dashes ≡ false
unfolding has_prefix
line_end_first [] r c h = ground arith
line_end_first (d ∷ []) r c h = ground arith
line_end_first (d ∷ e ∷ s) r c h = h

behind-none : (c : ℕ) (o : Option (Text × Text)) → behind c o ≡ none → o ≡ none
unfolding behind
behind-none c none h = refl
behind-none c (some (a, b)) h = cc

pub cut-append :
    (s r : Text)
    → cut dashes s ≡ none
    → cut dashes (s ++ 10 ∷ (dashes ++ r)) ≡ some (s ++ 10 ∷ [], r)
unfolding cut
cut-append [] r h = unfold has_prefix behind in refl
cut-append (c ∷ s) r h = elim (Bool-cases (has_prefix (c ∷ s) dashes)) [
  | inl here ↦ absurd (found (rw here at h))
  | inr other ↦
      rw
        (
          line_end_first s (dashes ++ r) c other,
          cut-append s r (behind-none c (cut dashes s) (rw other at h)),
        )
        (unfold behind in refl)
]
  where
    found : {x : Text × Text} → some x ≡ none → ⊥
    found e = cc
