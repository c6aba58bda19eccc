-- ===== src/Base/Strings/Laws.antt =====
-- Splitting a text that was joined by the separator, and trimming.
use Prim.Native.Nat.{ℕ}
use mathlib.Core.Path.{◌≡◌, refl}
use mathlib.Core.Logic.{◌≢◌}
use mathlib.Core.Bool.{true}
use mathlib.Core.List.{[], ◌∷◌, ◌++◌, append_assoc, append-nil}
use native.Mathlib.Omega.{arith}
use santokit.Base.Lists.{All}
use santokit.Base.Bytes.{Text, lit}
use santokit.Base.Strings.{split_from, split, has_prefix, trim_space}

abbrev pub Lacks : ℕ → Text → Type 0
Lacks sep = All (λ c. c ≢ sep)

module _ (sep : ℕ) where
  split_from-Lacks : (p cur : Text) → Lacks sep p → split_from sep cur p ≡ (cur ++ p) ∷ []
  unfolding split_from
  split_from-Lacks [] cur h = rw append-nil
  split_from-Lacks (c ∷ p) cur h =
      ground (arith, split_from-Lacks p (cur ++ c ∷ []), append_assoc cur (c ∷ []) p)

  split_from-join :
      (p rest cur : Text)
      → Lacks sep p
      → split_from sep cur (p ++ sep ∷ rest) ≡ (cur ++ p) ∷ split_from sep [] rest
  unfolding split_from
  split_from-join [] rest cur h = ground (arith, append-nil cur)
  split_from-join (c ∷ p) rest cur h =
      ground (arith, split_from-join p rest (cur ++ c ∷ []), append_assoc cur (c ∷ []) p)

pub split_single : (sep : ℕ) (p : Text) → Lacks sep p → split p sep ≡ p ∷ []
unfolding split
split_single sep p h = split_from-Lacks sep p [] h

pub split-join :
    (sep : ℕ) (p rest : Text) → Lacks sep p → split (p ++ sep ∷ rest) sep ≡ p ∷ split rest sep
unfolding split
split-join sep p rest h = split_from-join sep p rest [] h

pub has_prefix-append : (p s : Text) → has_prefix (p ++ s) p ≡ true
unfolding has_prefix
has_prefix-append [] s = refl
has_prefix-append (c ∷ p) s = ground (arith, has_prefix-append p s)

trim_space_test : trim_space (lit "\t  a b \n") ≡ lit "a b"
unfolding trim_space
trim_space_test = refl

-- A no-break space before the text, and an ideographic space behind it.
trim_space_unicode : trim_space (0xC2 ∷ 0xA0 ∷ 97 ∷ 0xE3 ∷ 0x80 ∷ 0x80 ∷ []) ≡ lit "a"
unfolding trim_space
trim_space_unicode = refl

split_test : split (lit "a..b") b'.' ≡ lit "a" ∷ [] ∷ lit "b" ∷ []
unfolding split
split_test = refl
