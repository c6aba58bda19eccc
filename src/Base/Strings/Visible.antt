-- ===== src/Base/Strings/Visible.antt =====
-- Trimming keeps every visible ASCII byte.
use Prim.Native.Nat.{ℕ, ◌<◌}
use mathlib.Core.Path.{◌≡◌, refl}
use mathlib.Core.Bool.{Bool, true, false, ◌||◌, ◌&&◌}
use mathlib.Core.List.{[], ◌∷◌, ◌++◌, reverse, reverse-cons}
use native.Mathlib.Omega.{arith}
use santokit.Base.Tests.{eqb, leb}
use santokit.Base.Bytes.{Text, is_empty}
use santokit.Base.Strings.{space1, space2, space3, trim_from, trim_space}

has : ℕ → Text → Bool
has c [] = false
has c (a ∷ s) = eqb a c || has c s

abbrev pub visible : ℕ → Bool
visible c = leb 33 c && leb c 126

space1_apart : (a k : ℕ) → visible k ≡ true → space1 a ≡ true → eqb a k ≡ false
unfolding space1
space1_apart a k v h = ground arith

space2_apart :
    (a b k : ℕ) → visible k ≡ true → space2 a b ≡ true → (eqb a k ≡ false) × (eqb b k ≡ false)
unfolding space2
space2_apart a b k v h = ground arith

-- The first byte of a rune of three bytes fixes it, and the others are above ASCII.
space3_high : (a b c : ℕ) → space3 a b c ≡ true → (126 < a) × (126 < b) × (126 < c)
unfolding space3
space3_high a b c h = ground arith

space3_apart :
    (a b c k : ℕ)
    → visible k ≡ true
    → space3 a b c ≡ true
    → (eqb a k ≡ false) × (eqb b k ≡ false) × (eqb c k ≡ false)
space3_apart a b c k v h = ground (arith, space3_high a b c)

has-trim_from :
    (k : ℕ) (flip : Bool) (s : Text)
    → visible k ≡ true
    → has k s ≡ true
    → has k (trim_from flip s) ≡ true
unfolding has trim_from
has-trim_from k flip [] v h = h
has-trim_from k flip (a ∷ []) v h = ground (arith, space1_apart a k v)
has-trim_from k true (a ∷ b ∷ []) v h =
    ground (arith, has-trim_from k true (b ∷ []) v, space1_apart a k v, space2_apart b a k v)
has-trim_from k false (a ∷ b ∷ []) v h =
    ground (arith, has-trim_from k false (b ∷ []) v, space1_apart a k v, space2_apart a b k v)
has-trim_from k true (a ∷ b ∷ c ∷ s) v h = ground (
  arith,
  has-trim_from k true (b ∷ c ∷ s) v,
  has-trim_from k true (c ∷ s) v,
  has-trim_from k true s v,
  space1_apart a k v,
  space2_apart b a k v,
  space3_apart c b a k v,
)
has-trim_from k false (a ∷ b ∷ c ∷ s) v h = ground (
  arith,
  has-trim_from k false (b ∷ c ∷ s) v,
  has-trim_from k false (c ∷ s) v,
  has-trim_from k false s v,
  space1_apart a k v,
  space2_apart a b k v,
  space3_apart a b c k v,
)

has-append : (c : ℕ) (s t : Text) → has c (s ++ t) ≡ (has c s || has c t)
unfolding has
has-append c [] t = refl
has-append c (a ∷ s) t = ground (arith, has-append c s t)

has-reverse : (c : ℕ) (s : Text) → has c (reverse s) ≡ has c s
unfolding has
has-reverse c [] = refl
has-reverse c (a ∷ s) = rw (reverse-cons, has-append) (ground (arith, has-reverse c s))

has-trim_space :
    (c : ℕ) (s : Text) → visible c ≡ true → has c s ≡ true → has c (trim_space s) ≡ true
unfolding trim_space
has-trim_space c s v h =
    let front = trim_from false s in
    rw (has-reverse c (trim_from true (reverse front))) (
      has-trim_from c true (reverse front) v
        (rw (has-reverse c front) (has-trim_from c false s v h)))

has_not_empty : (c : ℕ) (s : Text) → has c s ≡ true → is_empty s ≡ false
unfolding has
has_not_empty c [] h = cc
has_not_empty c (a ∷ s) h = refl

-- A text that begins with a visible ASCII byte is not blank.
pub trim_space_visible :
    (c : ℕ) (s : Text) → visible c ≡ true → is_empty (trim_space (c ∷ s)) ≡ false
trim_space_visible c s v =
    has_not_empty c (trim_space (c ∷ s)) (has-trim_space c (c ∷ s) v (unfold has in ground arith))
