-- ===== src/Cli/Generator/Places.antt =====
-- Where the bundles stand in the tree of namespaces.
use mathlib.Core.List.{append_assoc, append-nil}
use santokit.Base.{
  ◌≡◌, refl, sym, ap, ◌∙◌, inl, inr, Bool-cases, Bool, true, false, ◌&&◌, List, [], ◌∷◌, ◌++◌,
  arith, if◌then◌else◌, Text, ◌==◌, eq_iff,
}
use santokit.Cli.Integrator.{Bundle}
use santokit.Cli.Generator.{
  Node, node, Children, no_children, child, empty_node, update, skipped, add, parts_of,
  is_generated, add_bundles,
}

-- The child of a name, empty where there is none.
abbrev pub child_at : Text → Children → Node
child_at part no_children = empty_node
child_at part (child name n cs) = if name == part then n else child_at part cs

-- The bundles that stand at a path of names.
abbrev pub bundles_at : List Text → Node → List Bundle
bundles_at [] (node bundles cs) = bundles
bundles_at (part ∷ path) (node bundles cs) = bundles_at path (child_at part cs)

-- The path of a namespace: its parts without the empty ones and the dots.
abbrev pub path_of : List Text → List Text
path_of [] = []
path_of (part ∷ parts) = if skipped part then path_of parts else part ∷ path_of parts

abbrev pub same_path : List Text → List Text → Bool
same_path [] [] = true
same_path [] (_ ∷ _) = false
same_path (_ ∷ _) [] = false
same_path (a ∷ p) (b ∷ q) = a == b && same_path p q

-- The bundles of the list that are generated under the path, in their order.
abbrev pub placed_at : List Text → List Bundle → List Bundle
placed_at path [] = []
placed_at path (b ∷ bundles) =
    if is_generated b && same_path (path_of (parts_of b.namespace)) path
    then b ∷ placed_at path bundles
    else placed_at path bundles

child_at-update :
    (part wanted : Text) (change : Node → Node) (cs : Children)
    → child_at wanted (update part change cs)
      ≡ (if part == wanted then change (child_at wanted cs) else child_at wanted cs)
unfolding update
child_at-update part wanted change no_children = ground arith
child_at-update part wanted change (child name n cs) = ground (
  arith,
  child_at-update part wanted change cs,
  eq_iff name part,
  eq_iff name wanted,
  eq_iff part wanted,
)

-- What `add` of a bundle along the parts does to the bundles of a path.
after_add : Bundle → List Text → List Text → Node → List Bundle
after_add b parts path n =
    if same_path (path_of parts) path then bundles_at path n ++ b ∷ [] else bundles_at path n

module _ (b : Bundle) (part : Text) (parts : List Text)
    (earlier : (path : List Text) (n : Node)
      → bundles_at path (add b parts n) ≡ after_add b parts path n) where
  bundles_at-update :
      (cs : Children) (bundles : List Bundle) (path : List Text)
      → bundles_at path (node bundles (update part (add b parts) cs)) ≡ (
          if same_path (part ∷ path_of parts) path
          then bundles_at path (node bundles cs) ++ b ∷ []
          else bundles_at path (node bundles cs))
  unfolding after_add
  bundles_at-update cs bundles [] = refl
  bundles_at-update cs bundles (q ∷ path) =
      let below = child_at-update part q (add b parts) cs in
      elim (Bool-cases (part == q)) [
        | inl here ↦ rw (below, here) (earlier path (child_at q cs))
        | inr other ↦ rw (below, other) refl
      ]

bundles_at-add :
    (b : Bundle) (parts path : List Text) (n : Node)
    → bundles_at path (add b parts n) ≡ after_add b parts path n
unfolding add after_add
bundles_at-add b [] [] (node bundles cs) = refl
bundles_at-add b [] (part ∷ path) (node bundles cs) = refl
bundles_at-add b (part ∷ parts) path (node bundles cs) = elim (Bool-cases (skipped part)) [
  | inl out ↦ rw out (bundles_at-add b parts path (node bundles cs))
  | inr kept ↦ rw kept (bundles_at-update b part parts (bundles_at-add b parts) cs bundles path)
]

bundles_at_empty : (path : List Text) → bundles_at path empty_node ≡ []
bundles_at_empty [] = refl
bundles_at_empty (part ∷ path) = bundles_at_empty path

placed_after :
    (path : List Text) (bundles : List Bundle) (root : Node)
    → bundles_at path (add_bundles bundles root) ≡ bundles_at path root ++ placed_at path bundles
unfolding add_bundles
placed_after path [] root = sym (append-nil (bundles_at path root))
placed_after path (b ∷ bundles) root = elim (Bool-cases (is_generated b)) [
  | inr out ↦ rw out (placed_after path bundles root)
  | inl made ↦
      let later = placed_after path bundles (add b (parts_of b.namespace) root) in
      let now = bundles_at-add b (parts_of b.namespace) path root in
      elim (Bool-cases (same_path (path_of (parts_of b.namespace)) path)) [
        | inl here ↦
            let joined : bundles_at path (add b (parts_of b.namespace) root)
                ≡ bundles_at path root ++ b ∷ [] =
              unfold after_add in rw here at now in
            rw (made, here)
              (later
                ∙ ap (λ xs. xs ++ placed_at path bundles) joined
                ∙ append_assoc (bundles_at path root) (b ∷ []) (placed_at path bundles))
        | inr elsewhere ↦
            let same : bundles_at path (add b (parts_of b.namespace) root) ≡ bundles_at path root =
              unfold after_add in rw elsewhere at now in
            rw (made, elsewhere) (later ∙ ap (λ xs. xs ++ placed_at path bundles) same)
      ]
]

-- In the tree that is made from a list of bundles, the bundles at each path of names are those of the
-- list that are generated, since their type is logic, js or sql and their name does not begin with an
-- underscore, and whose namespace is that path once its empty parts and dots are left out, in the
-- order of the list.
pub bundles_at-add_bundles :
    (path : List Text) (bundles : List Bundle)
    → bundles_at path (add_bundles bundles empty_node) ≡ placed_at path bundles
bundles_at-add_bundles path bundles =
    placed_after path bundles empty_node
    ∙ ap (λ xs. xs ++ placed_at path bundles) (bundles_at_empty path)
