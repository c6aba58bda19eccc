-- ===== src/Cli/Sync/Declared.antt =====
-- Which configurations the declarations speak of after `logic apply` and `sync`.
use santokit.Base.{
  ◌≡◌, refl, ◌⊎◌, inl, inr, Bool-cases, true, false, ◌&&◌, List, [], ◌∷◌, All, arith, Text, lit,
  ◌==◌, eq_refl, contains,
}
use santokit.Base.Strings.{has_prefix}
use santokit.Registry
use santokit.Cli.Parser.{LogicConfig}
use santokit.Cli.Integrator.{Bundle}
use santokit.Cli.Generator.{parts_of, is_generated, add_bundles, empty_node}
use santokit.Cli.Generator.Places.{
  bundles_at, placed_at, path_of, same_path, bundles_at-add_bundles,
}
use santokit.Cli.Client.{fetched, fetched_bundle, fetched_bundles}
use santokit.Cli.Deploy.Laws.{IsBundleOf, AreBundlesOf}

abbrev pub names : List Bundle → List Text
names [] = []
names (b ∷ bundles) = b.name ∷ names bundles

-- The configuration is private, since its name begins with an underscore, or a bundle of its name
-- stands at the path of its namespace.
abbrev pub IsDeclared : (List Text → List Bundle) → LogicConfig → Type 0
IsDeclared found c =
    (has_prefix c.name (lit "_") ≡ true)
    ⊎ (contains c.name (names (found (path_of (parts_of c.namespace)))) ≡ true)

same_path_refl : (path : List Text) → same_path path path ≡ true
same_path_refl [] = refl
same_path_refl (p ∷ path) = rw (eq_refl p) (same_path_refl path)

module _ (sha256 : Text → Text) (c : LogicConfig) (b : Registry.Bundle)
    (it : IsBundleOf sha256 c b) where
  fetched-is_generated :
      has_prefix c.name (lit "_") ≡ false → is_generated (fetched_bundle b) ≡ true
  unfolding is_generated fetched_bundle ◌==◌
  fetched-is_generated public = elim it.source [
    | inl (type, _, _) ↦ rw (it.name, public, type) refl
    | inr (type, _, _) ↦ rw (it.name, public, type) refl
  ]

  placed_first :
      (bundles : List Bundle) → IsDeclared (λ path. placed_at path (fetched_bundle b ∷ bundles)) c
  unfolding fetched_bundle contains
  placed_first bundles = elim (Bool-cases (has_prefix c.name (lit "_"))) [
    | inl private ↦ inl private
    | inr public ↦ inr (
        rw
          (
            fetched-is_generated public,
            it.namespace,
            same_path_refl (path_of (parts_of c.namespace)),
            it.name,
            eq_refl c.name,
          )
          refl)
  ]

module _ (b : Bundle) (bundles : List Bundle) where
  placed_later :
      (c : LogicConfig)
      → IsDeclared (λ path. placed_at path bundles) c
      → IsDeclared (λ path. placed_at path (b ∷ bundles)) c
  unfolding contains
  placed_later c (inl private) = inl private
  placed_later c (inr found) =
      elim (Bool-cases (
        is_generated b
        && same_path (path_of (parts_of b.namespace)) (path_of (parts_of c.namespace)))) [
          | inl here ↦ inr (rw (here, found) (grind arith))
          | inr elsewhere ↦ inr (rw elsewhere found)
        ]

  All-placed_later :
      (configs : List LogicConfig)
      → All (IsDeclared (λ path. placed_at path bundles)) configs
      → All (IsDeclared (λ path. placed_at path (b ∷ bundles))) configs
  All-placed_later [] _ = tt
  All-placed_later (c ∷ configs) (first, rest) =
      (placed_later c first, All-placed_later configs rest)

All-placed :
    (sha256 : Text → Text) (configs : List LogicConfig) (bundles : List Registry.Bundle)
    → AreBundlesOf sha256 configs bundles
    → All (IsDeclared (λ path. placed_at path (fetched_bundles bundles))) configs
unfolding fetched_bundles
All-placed sha256 [] [] _ = tt
All-placed sha256 [] (b ∷ bundles) same = elim same [ ]
All-placed sha256 (c ∷ configs) [] same = elim same [ ]
All-placed sha256 (c ∷ configs) (b ∷ bundles) (it, rest) = (
  placed_first sha256 c b it (fetched_bundles bundles),
  All-placed_later (fetched_bundle b) (fetched_bundles bundles) configs
      (All-placed sha256 configs bundles rest),
)

-- The namespaces of the tree of a list of bundles, each as the bundles at its path.
abbrev pub declared_in : List Bundle → List Text → List Bundle
declared_in bundles path = bundles_at path (add_bundles bundles empty_node)

IsDeclared-tree :
    (bundles : List Bundle) (configs : List LogicConfig)
    → All (IsDeclared (λ path. placed_at path bundles)) configs
    → All (IsDeclared (declared_in bundles)) configs
IsDeclared-tree bundles [] _ = tt
IsDeclared-tree bundles (c ∷ configs) (first, rest) = (
  rw (bundles_at-add_bundles (path_of (parts_of c.namespace)) bundles) first,
  IsDeclared-tree bundles configs rest,
)

module _ (sha256 : Text → Text) (configs : List LogicConfig) (m : Registry.Manifest)
    (same : AreBundlesOf sha256 configs m.bundles) where
  pub fetched-IsDeclared : All (IsDeclared (declared_in (fetched m).bundles)) configs
  unfolding fetched
  fetched-IsDeclared =
      IsDeclared-tree (fetched_bundles m.bundles) configs (All-placed sha256 configs m.bundles same)
