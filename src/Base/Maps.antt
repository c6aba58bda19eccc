-- ===== src/Base/Maps.antt =====
-- Go maps with string keys, as association lists. The order of a list stands for one order in which
-- a `range` loop may visit the map, which Go leaves open.
use mathlib.Core.Path.{◌≡◌, refl, subst}
use mathlib.Core.Logic.{inl, inr}
use mathlib.Core.Bool.{Bool, true, false}
use mathlib.Core.List.{List, [], ◌∷◌}
use mathlib.Core.Option.{Option, none, some}
use native.Mathlib.Omega.{arith}
use santokit.Base.Tests.{Bool-cases, if◌then◌else◌, is_some}
use santokit.Base.Bytes.{Text, ◌==◌, eq_iff, eq_refl, contains}

abbrev pub Map {ℓ} : Type ℓ → Type ℓ
Map V = List (Text × V)

module _ {ℓ} {V : Type ℓ} where
  unfoldable pub lookup : Text → Map V → Option V
  lookup wanted [] = none
  lookup wanted ((key, value) ∷ rest) = if key == wanted then some value else lookup wanted rest

  unfoldable pub insert : Text → V → Map V → Map V
  insert key new [] = (key, new) ∷ []
  insert key new ((other, old) ∷ rest) =
      if other == key then (key, new) ∷ rest else (other, old) ∷ insert key new rest

  unfoldable pub delete : Text → Map V → Map V
  delete k [] = []
  delete k ((j, v) ∷ m) = let rest = delete k m in if j == k then rest else (j, v) ∷ rest

  unfoldable pub keys : Map V → List Text
  keys [] = []
  keys ((k, _) ∷ m) = k ∷ keys m

  -- No key stands twice, as in every Go map.
  abbrev pub IsUnique : Map V → Type 0
  IsUnique [] = Unit
  IsUnique ((k, _) ∷ m) = (contains k (keys m) ≡ false) × IsUnique m

  pub lookup-insert :
      (key wanted : Text) (new : V) (m : Map V)
      → lookup wanted (insert key new m) ≡ (if key == wanted then some new else lookup wanted m)
  unfolding lookup insert
  lookup-insert key wanted new [] = refl
  lookup-insert key wanted new ((first, _) ∷ rest) = ground (
    arith,
    lookup-insert key wanted new rest,
    eq_iff first key,
    eq_iff first wanted,
    eq_iff key wanted,
  )

  pub lookup-delete :
      (k j : Text) (m : Map V) → lookup j (delete k m) ≡ (if k == j then none else lookup j m)
  unfolding lookup delete
  lookup-delete k j [] = ground arith
  lookup-delete k j ((i, v) ∷ m) =
      ground (arith, eq_iff k j, eq_iff i k, eq_iff i j, lookup-delete k j m)

  pub contains-keys : (k : Text) (m : Map V) → contains k (keys m) ≡ is_some (lookup k m)
  unfolding contains keys lookup
  contains-keys k [] = refl
  contains-keys k ((j, v) ∷ m) = ground (arith, contains-keys k m)

  pub contains-keys-insert :
      (k j : Text) (v : V) (m : Map V)
      → contains j (keys (insert k v m)) ≡ (if k == j then true else contains j (keys m))
  contains-keys-insert k j v m =
      ground (arith, contains-keys j (insert k v m), contains-keys j m, lookup-insert k j v m)

  pub contains-keys-delete :
      (k j : Text) (m : Map V)
      → contains j (keys (delete k m)) ≡ (if k == j then false else contains j (keys m))
  contains-keys-delete k j m =
      ground (arith, contains-keys j (delete k m), contains-keys j m, lookup-delete k j m)

  pub insert-IsUnique : (k : Text) (v : V) (m : Map V) → IsUnique m → IsUnique (insert k v m)
  unfolding insert keys contains
  insert-IsUnique k v [] h = (refl, tt)
  insert-IsUnique k v ((j, w) ∷ m) h =
      ground (arith, insert-IsUnique k v m, eq_iff j k, eq_iff k j, contains-keys-insert k j v m)

  pub delete-IsUnique : (k : Text) (m : Map V) → IsUnique m → IsUnique (delete k m)
  unfolding delete keys
  delete-IsUnique k [] h = tt
  delete-IsUnique k ((j, w) ∷ m) h =
      ground (arith, delete-IsUnique k m, eq_iff k j, contains-keys-delete k j m)

  pub lookup-insert_self : (k : Text) (v : V) (m : Map V) → lookup k (insert k v m) ≡ some v
  lookup-insert_self k v m = simp (lookup-insert, eq_refl)

module _ {ℓ} {V : Type ℓ} where
  pub lookup-nil : (k : Text) (m : Map V) → m ≡ [] → lookup k m ≡ none
  unfolding lookup
  lookup-nil k m e = rw e

-- Every entry of `m` reads in the map `whole`.
abbrev pub Reads {ℓ} : {V : Type ℓ} → Map V → Map V → Type ℓ
Reads whole [] = Unit
Reads whole ((k, v) ∷ m) = (lookup k whole ≡ some v) × Reads whole m

module _ {ℓ} {V : Type ℓ} where
  Reads-cons :
      (k : Text) (v : V) (whole m : Map V)
      → contains k (keys m) ≡ false
      → Reads whole m
      → Reads ((k, v) ∷ whole) m
  unfolding keys contains lookup
  Reads-cons k v whole [] h r = tt
  Reads-cons k v whole ((j, w) ∷ m) h (e, r) =
      (ground (arith, eq_iff j k, eq_iff k j), Reads-cons k v whole m (ground arith) r)

  -- Where no key stands twice, a lookup finds each entry.
  pub Reads-self : (m : Map V) → IsUnique m → Reads m m
  Reads-self [] h = tt
  Reads-self ((k, v) ∷ m) (new, h) =
      (unfold lookup in simp eq_refl, Reads-cons k v m m new (Reads-self m h))

module _ {ℓ κ} {V : Type ℓ} (P : V → Type κ) where
  -- Every value of the map.
  abbrev pub Values : Map V → Type κ
  Values [] = Unit
  Values ((_, v) ∷ m) = P v × Values m

  pub insert-Values : (k : Text) (v : V) (m : Map V) → P v → Values m → Values (insert k v m)
  unfolding insert
  insert-Values k v [] p h = (p, tt)
  insert-Values k v ((j, w) ∷ m) p h = elim (Bool-cases (j == k)) [
    | inl e ↦ rw e (p, h.1)
    | inr e ↦ rw e (h.0, insert-Values k v m p h.1)
  ]

  lookup_head :
      (b : Bool) (w v : V) (r : Option V) → (if b then some w else r) ≡ some v → b ≡ true → w ≡ v
  lookup_head b w v r e h = ground arith

  pub lookup-Values : (k : Text) (v : V) (m : Map V) → Values m → lookup k m ≡ some v → P v
  unfolding lookup
  lookup-Values k v [] h e = absurd (cc)
  lookup-Values k v ((j, w) ∷ m) h e = elim (Bool-cases (j == k)) [
    | inl same ↦ subst P (lookup_head (j == k) w v (lookup k m) e same) h.0
    | inr other ↦ lookup-Values k v m h.1 (rw other at e)
  ]

pub ruleset map_laws = (lookup-insert, lookup-delete, eq_refl)
