-- ===== src/Registry/Propagation.antt =====
-- What the edge KV holds after `Push`.
use santokit.Base.{
  ℕ, zero, suc, ap, ◌≡◌, ◌≢◌, refl, ◌++◌, Bool, false, Option, none, some, List, [], ◌∷◌, arith,
  drop, ◌∙◌, if◌then◌else◌, Text, lit, ◌==◌, eq_iff, eq_refl, Map, lookup, insert, lookup-insert,
}
use santokit.Registry.{
  Bundle, ServerBundle, KvValue, latest, server, create_server_bundle, edge_key, edge_bundles,
  create_edge_latest, latest_key, logic_key, write, write_bundles, propagate, redis_place,
}

-- The last bundle with a key.
abbrev pub last_with : (Bundle → Text) → Text → List Bundle → Option Bundle
last_with key k [] = none
last_with key k (b ∷ bs) = elim (last_with key k bs) [
  | none ↦ if key b == k then some b else none
  | some c ↦ some c
]

abbrev pub served : Option Bundle → Option ServerBundle
served none = none
served (some b) = some (create_server_bundle b)

lookup-edge_bundles :
    (k : Text) (bs : List Bundle) (m : Map ServerBundle)
    → lookup k (edge_bundles bs m) ≡ (elim (last_with edge_key k bs) [
      | none ↦ lookup k m
      | some b ↦ some (create_server_bundle b)
    ])
unfolding edge_bundles
lookup-edge_bundles k [] m = refl
lookup-edge_bundles k (b ∷ bs) m = ground (
  arith,
  lookup-edge_bundles k bs (insert (edge_key b) (create_server_bundle b) m),
  lookup-insert (edge_key b) k (create_server_bundle b) m,
)

-- In the latest bundle of a project each `namespace/name` has the last bundle pushed for it.
pub create_edge_latest_lem :
    (p v k : Text) (bs : List Bundle)
    → lookup k (create_edge_latest p v bs).bundles ≡ served (last_with edge_key k bs)
unfolding create_edge_latest lookup
create_edge_latest_lem p v k bs = ground (arith, lookup-edge_bundles k bs [])

-- No bundle is stored under the key of a project's latest bundle.
byte_at : ℕ → Text → ℕ
byte_at i [] = 0
byte_at zero (c ∷ s) = c
byte_at (suc i) (c ∷ s) = byte_at i s

-- Both sides begin with the same eight bytes, which the right one shows to be "project:".
same_front :
    (a b c d e f g h : ℕ) (u v : Text)
    → a ∷ b ∷ c ∷ d ∷ e ∷ f ∷ g ∷ h ∷ u ≡ lit "project:" ++ (a ∷ b ∷ c ∷ d ∷ e ∷ f ∷ g ∷ h ∷ v)
    → u ≡ lit "project:" ++ v
unfolding byte_at
same_front a b c d e f g h u v eq =
    ap (drop 8) eq
    ∙ cc (
      ap (byte_at 0) eq,
      ap (byte_at 1) eq,
      ap (byte_at 2) eq,
      ap (byte_at 3) eq,
      ap (byte_at 4) eq,
      ap (byte_at 5) eq,
      ap (byte_at 6) eq,
      ap (byte_at 7) eq,
    )

keys_differ :
    (p s t : Text) → p ++ (lit ":logic:" ++ s) ≢ lit "project:" ++ (p ++ (lit ":latest" ++ t))
unfolding byte_at
keys_differ [] s t = λ e. absurd (omega (arith, ap (byte_at 0) e))
keys_differ (a ∷ []) s t = λ e. absurd (omega (arith, ap (byte_at 1) e))
keys_differ (a ∷ b ∷ []) s t = λ e. absurd (omega (arith, ap (byte_at 2) e))
keys_differ (a ∷ b ∷ c ∷ []) s t = λ e. absurd (omega (arith, ap (byte_at 3) e))
keys_differ (a ∷ b ∷ c ∷ d ∷ []) s t = λ e. absurd (omega (arith, ap (byte_at 4) e))
keys_differ (a ∷ b ∷ c ∷ d ∷ e ∷ []) s t = λ e. absurd (omega (arith, ap (byte_at 5) e))
keys_differ (a ∷ b ∷ c ∷ d ∷ e ∷ f ∷ []) s t = λ e. absurd (omega (arith, ap (byte_at 6) e))
keys_differ (a ∷ b ∷ c ∷ d ∷ e ∷ f ∷ g ∷ []) s t =
    λ e. absurd (omega (arith, ap (byte_at 0) e, ap (byte_at 8) e))
keys_differ (a ∷ b ∷ c ∷ d ∷ e ∷ f ∷ g ∷ h ∷ p) s t =
    λ eq. keys_differ p s t (same_front a b c d e f g h _ _ eq)

last_with-none : (p : Text) (bs : List Bundle) → last_with (logic_key p) (latest_key p) bs ≡ none
last_with-none p [] = refl
last_with-none p (b ∷ bs) = ground (
  arith,
  last_with-none p bs,
  eq_iff (logic_key p b) (latest_key p),
  keys_differ p (b.namespace ++ (lit ":" ++ b.name)) [],
)

-- What a place holds after the bundles are written: the last one with that place, if there is one.
abbrev pub written : Option KvValue → Option Bundle → Option KvValue
written before none = before
written before (some b) = some (server (create_server_bundle b))

module _ (place : Text → Text) (fails : Text → Bool) (fine : (k : Text) → fails k ≡ false)
    (p : Text) where
  lookup-write :
      (k j : Text) (x : KvValue) (kv : Map KvValue)
      → lookup k (write place fails j x kv) ≡ (if place j == k then some x else lookup k kv)
  unfolding write
  lookup-write k j x kv = rw (fine (place j)) (lookup-insert (place j) k x kv)

  lookup-write_bundles :
      (k : Text) (bs : List Bundle) (kv : Map KvValue)
      → lookup k (write_bundles place fails p bs kv)
        ≡ written (lookup k kv) (last_with (λ b. place (logic_key p b)) k bs)
  unfolding write_bundles
  lookup-write_bundles k [] kv = refl
  lookup-write_bundles k (b ∷ bs) kv =
      let x = server (create_server_bundle b) in
      ground (
        arith,
        lookup-write_bundles k bs (write place fails (logic_key p b) x kv),
        lookup-write k (logic_key p b) x kv,
      )

  lookup-propagate_at :
      (v k : Text) (bs : List Bundle) (kv : Map KvValue)
      → lookup k (propagate place fails p v bs kv)
        ≡ written
            (if place (latest_key p) == k
              then some (latest (create_edge_latest p v bs))
              else lookup k kv)
            (last_with (λ b. place (logic_key p b)) k bs)
  unfolding propagate
  lookup-propagate_at v k bs kv =
      let x = latest (create_edge_latest p v bs) in
      rw
        (
          lookup-write_bundles k bs (write place fails (latest_key p) x kv),
          lookup-write k (latest_key p) x kv,
        )
        refl

module _ (fails : Text → Bool) (fine : (k : Text) → fails k ≡ false) (p : Text) where
  -- Where no write fails, each place of the edge, a Redis key or the cleaned path of a file, holds
  -- the last bundle pushed whose key has that place; if there is none, the bundles that were pushed
  -- with their version, where it is the place of the project's latest key; and otherwise what it held
  -- before. In Redis the latest key holds the bundles that were pushed, whatever they are called.
  pub lookup-propagate :
      (place : Text → Text) (v k : Text) (bs : List Bundle) (kv : Map KvValue)
      → (lookup k (propagate place fails p v bs kv)
          ≡ written
              (if place (latest_key p) == k
                then some (latest (create_edge_latest p v bs))
                else lookup k kv)
              (last_with (λ b. place (logic_key p b)) k bs))
        × (lookup (latest_key p) (propagate redis_place fails p v bs kv)
            ≡ some (latest (create_edge_latest p v bs)))
  lookup-propagate place v k bs kv = (
    lookup-propagate_at place fails fine p v k bs kv,
    rw
        (
          lookup-propagate_at redis_place fails fine p v (latest_key p) bs kv,
          last_with-none p bs,
          eq_refl (latest_key p),
        )
        refl,
  )
