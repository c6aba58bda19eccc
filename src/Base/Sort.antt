-- ===== src/Base/Sort.antt =====
-- `sort.Strings`: strings in byte order. Equal strings cannot be told apart, so every sort gives
-- this list.

use mathlib.Core.Path.{◌≡◌, refl}
use mathlib.Core.Logic.{inl, inr}
use mathlib.Core.Bool.{Bool, true, false, ◌&&◌, ◌||◌}
use mathlib.Core.List.{List, [], ◌∷◌}
use native.Mathlib.Omega.{arith}
use santokit.Base.Tests.{ltb, eqb, if◌then◌else◌, Bool-cases}
use santokit.Base.Lists.{All}
use santokit.Base.Bytes.{Text, ◌==◌, contains}

unfoldable pub text_leb : Text → Text → Bool
text_leb [] t = true
text_leb (_ ∷ _) [] = false
text_leb (a ∷ s) (b ∷ t) = ltb a b || eqb a b && text_leb s t

insert_sorted : Text → List Text → List Text
insert_sorted x [] = x ∷ []
insert_sorted x (y ∷ ys) = if text_leb x y then x ∷ y ∷ ys else y ∷ insert_sorted x ys

unfoldable pub sort_strings : List Text → List Text
unfolding insert_sorted text_leb
sort_strings [] = []
sort_strings (x ∷ xs) = insert_sorted x (sort_strings xs)

text_leb_total : (s t : Text) → text_leb s t ≡ false → text_leb t s ≡ true
unfolding text_leb
text_leb_total [] t h = absurd (cc)
text_leb_total (a ∷ s) [] h = refl
text_leb_total (a ∷ s) (b ∷ t) h = ground (arith, text_leb_total s t)

text_leb_trans : (s t u : Text) → text_leb s t ≡ true → text_leb t u ≡ true → text_leb s u ≡ true
unfolding text_leb
text_leb_trans [] t u h k = refl
text_leb_trans (a ∷ s) [] u h k = absurd (cc)
text_leb_trans (a ∷ s) (b ∷ t) [] h k = absurd (cc)
text_leb_trans (a ∷ s) (b ∷ t) (c ∷ u) h k = ground (arith, text_leb_trans s t u)

-- Each string is at most every later one.
abbrev pub IsSorted : List Text → Type 0
IsSorted [] = Unit
IsSorted (x ∷ xs) = All (λ y. text_leb x y ≡ true) xs × IsSorted xs

All-le_trans :
    (x y : Text) (ys : List Text)
    → text_leb x y ≡ true
    → All (λ z. text_leb y z ≡ true) ys
    → All (λ z. text_leb x z ≡ true) ys
All-le_trans x y [] h k = tt
All-le_trans x y (z ∷ zs) h (p, k) = (text_leb_trans x y z h p, All-le_trans x y zs h k)

All-insert_sorted :
    (x z : Text) (ys : List Text)
    → text_leb z x ≡ true
    → All (λ y. text_leb z y ≡ true) ys
    → All (λ y. text_leb z y ≡ true) (insert_sorted x ys)
unfolding insert_sorted
All-insert_sorted x z [] h k = (h, tt)
All-insert_sorted x z (y ∷ ys) h (p, k) = elim (Bool-cases (text_leb x y)) [
  | inl le ↦ rw le (h, (p, k))
  | inr gt ↦ rw gt (p, All-insert_sorted x z ys h k)
]

insert_sorted-IsSorted : (x : Text) (ys : List Text) → IsSorted ys → IsSorted (insert_sorted x ys)
unfolding insert_sorted
insert_sorted-IsSorted x [] h = (tt, tt)
insert_sorted-IsSorted x (y ∷ ys) (p, h) = elim (Bool-cases (text_leb x y)) [
  | inl le ↦ rw le ((le, All-le_trans x y ys le p), (p, h))
  | inr gt ↦
      rw gt (All-insert_sorted x y ys (text_leb_total x y gt) p, insert_sorted-IsSorted x ys h)
]

pub sort_strings-IsSorted : (xs : List Text) → IsSorted (sort_strings xs)
unfolding sort_strings
sort_strings-IsSorted [] = tt
sort_strings-IsSorted (x ∷ xs) = insert_sorted-IsSorted x _ (sort_strings-IsSorted xs)

contains-insert_sorted :
    (k x : Text) (ys : List Text) → contains k (insert_sorted x ys) ≡ (x == k || contains k ys)
unfolding contains insert_sorted
contains-insert_sorted k x [] = refl
contains-insert_sorted k x (y ∷ ys) = ground (arith, contains-insert_sorted k x ys)

pub contains-sort_strings :
    (k : Text) (xs : List Text) → contains k (sort_strings xs) ≡ contains k xs
unfolding contains sort_strings
contains-sort_strings k [] = refl
contains-sort_strings k (x ∷ xs) =
    ground (arith, contains-insert_sorted k x (sort_strings xs), contains-sort_strings k xs)

module _ {κ} (P : Text → Type κ) where
  All-insert : (x : Text) (ys : List Text) → P x → All P ys → All P (insert_sorted x ys)
  unfolding insert_sorted
  All-insert x [] h k = (h, tt)
  All-insert x (y ∷ ys) h (p, k) = elim (Bool-cases (text_leb x y)) [
    | inl le ↦ rw le (h, (p, k))
    | inr gt ↦ rw gt (p, All-insert x ys h k)
  ]

  pub All-sort_strings : (xs : List Text) → All P xs → All P (sort_strings xs)
  unfolding sort_strings
  All-sort_strings [] h = tt
  All-sort_strings (x ∷ xs) (p, h) = All-insert x (sort_strings xs) p (All-sort_strings xs h)
