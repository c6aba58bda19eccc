-- ===== src/Cli/Generator/Balance.antt =====
-- The whole tree of declarations opens as many braces as it closes.
use santokit.Base.{
  ℕ, ◌+◌, refl, inl, inr, Bool-cases, List, [], ◌∷◌, ◌++◌, All, All-append, get_or, Text, lit, ◌==◌,
  Map, Values, lookup, keys,
}
use santokit.Base.Sort.{text_leb, sort_strings, All-sort_strings}
use santokit.Cli.Integrator.{Bundle, Manifest}
use santokit.Cli.Generator.{
  Node, node, Children, no_children, child, empty_node, update, skipped, add, parts_of,
  is_generated, add_bundles, insert_bundle, sort_bundles, write_children, write_namespace,
  write_inner, preamble, generate_types,
}
use santokit.Cli.Generator.Braces.{
  IsBalanced, enclosed, ◌⊕◌, block, block-IsBalanced, HasBalancedNames, write_bundles-IsBalanced,
}

-- Every bundle and every name in the tree is balanced.
abbrev mutual
  HasBalancedTree : Node → Type 0
  HasBalancedTree (node bundles cs) = All HasBalancedNames bundles × HasBalancedChildren cs

  HasBalancedChildren : Children → Type 0
  HasBalancedChildren no_children = Unit
  HasBalancedChildren (child name n cs) =
      IsBalanced name × HasBalancedTree n × HasBalancedChildren cs

insert_bundle-balanced :
    (b : Bundle) (bundles : List Bundle)
    → HasBalancedNames b
    → All HasBalancedNames bundles
    → All HasBalancedNames (insert_bundle b bundles)
unfolding insert_bundle
insert_bundle-balanced b [] p h = (p, tt)
insert_bundle-balanced b (c ∷ bundles) p (q, h) = elim (Bool-cases (text_leb b.name c.name)) [
  | inl le ↦ rw le (p, (q, h))
  | inr gt ↦ rw gt (q, insert_bundle-balanced b bundles p h)
]

sort_bundles-balanced :
    (bundles : List Bundle)
    → All HasBalancedNames bundles
    → All HasBalancedNames (sort_bundles bundles)
unfolding sort_bundles
sort_bundles-balanced [] h = tt
sort_bundles-balanced (b ∷ bundles) (p, h) =
    insert_bundle-balanced b (sort_bundles bundles) p (sort_bundles-balanced bundles h)

get_or-IsBalanced :
    (name : Text) (inner : Map Text)
    → Values IsBalanced inner
    → IsBalanced (get_or (lookup name inner) [])
unfolding lookup
get_or-IsBalanced name [] h = record { same = refl }
get_or-IsBalanced name ((other, s) ∷ inner) (p, h) = elim (Bool-cases (other == name)) [
  | inl same ↦ rw same p
  | inr differs ↦ rw differs (get_or-IsBalanced name inner h)
]

write_children-IsBalanced :
    (n : ℕ) (inner : Map Text) (names : List Text)
    → Values IsBalanced inner
    → All IsBalanced names
    → IsBalanced (write_children n inner names)
unfolding write_children block
write_children-IsBalanced n inner [] v h = record { same = refl }
write_children-IsBalanced n inner (name ∷ names) v (p, h) =
    block-IsBalanced n (lit ": {\n") (lit "};\n") name (get_or (lookup name inner) []) _ refl p
      (get_or-IsBalanced name inner v) (write_children-IsBalanced n inner names v h)

mutual
  unfolding write_namespace write_inner keys

  write_namespace-IsBalanced :
      (n : ℕ) (t : Node) → HasBalancedTree t → IsBalanced (write_namespace n t)
  write_namespace-IsBalanced n (node bundles cs) (h, k) =
      let (inner, names) = write_inner-IsBalanced (n + 2) cs k in
      write_bundles-IsBalanced n (sort_bundles bundles) (sort_bundles-balanced bundles h)
      ⊕ write_children-IsBalanced n (write_inner (n + 2) cs)
          (sort_strings (keys (write_inner (n + 2) cs))) inner
          (All-sort_strings IsBalanced (keys (write_inner (n + 2) cs)) names)

  write_inner-IsBalanced :
      (n : ℕ) (cs : Children)
      → HasBalancedChildren cs
      → Values IsBalanced (write_inner n cs) × All IsBalanced (keys (write_inner n cs))
  write_inner-IsBalanced n no_children h = (tt, tt)
  write_inner-IsBalanced n (child name t cs) (p, h, k) =
      let (inner, names) = write_inner-IsBalanced n cs k in
      ((write_namespace-IsBalanced n t h, inner), (p, names))

update-balanced :
    (part : Text) (change : Node → Node) (cs : Children)
    → ((t : Node) → HasBalancedTree t → HasBalancedTree (change t))
    → IsBalanced part
    → HasBalancedChildren cs
    → HasBalancedChildren (update part change cs)
unfolding update
update-balanced part change no_children kept p h = (p, kept empty_node (tt, tt), tt)
update-balanced part change (child name t cs) kept p (q, h, k) = elim (Bool-cases (name == part)) [
  | inl same ↦ rw same (q, kept t h, k)
  | inr differs ↦ rw differs (q, h, update-balanced part change cs kept p k)
]

add-balanced :
    (b : Bundle) (parts : List Text) (t : Node)
    → HasBalancedNames b
    → All IsBalanced parts
    → HasBalancedTree t
    → HasBalancedTree (add b parts t)
unfolding add
add-balanced b [] (node bundles cs) named h (k, l) =
    (All-append HasBalancedNames bundles (b ∷ []) k (named, tt), l)
add-balanced b (part ∷ parts) (node bundles cs) named (p, h) (k, l) =
    elim (Bool-cases (skipped part)) [
      | inl out ↦ rw out (add-balanced b parts (node bundles cs) named h (k, l))
      | inr kept ↦
          rw kept
            (k, update-balanced part (add b parts) cs (λ t. add-balanced b parts t named h) p l)
    ]

-- A bundle whose names, the parts of its namespace among them, have as many opening braces as
-- closing ones.
abbrev pub IsWritable : Bundle → Type 0
IsWritable b = HasBalancedNames b × All IsBalanced (parts_of b.namespace)

add_bundles-balanced :
    (bundles : List Bundle) (t : Node)
    → All IsWritable bundles
    → HasBalancedTree t
    → HasBalancedTree (add_bundles bundles t)
unfolding add_bundles
add_bundles-balanced [] t h k = k
add_bundles-balanced (b ∷ bundles) t ((named, parts), h) k = elim (Bool-cases (is_generated b)) [
  | inl made ↦ rw made (
      add_bundles-balanced bundles (add b (parts_of b.namespace) t) h
        (add-balanced b (parts_of b.namespace) t named parts k))
  | inr out ↦ rw out (add_bundles-balanced bundles t h k)
]

-- Where in each name of a bundle, of a part of its namespace and of its parameters as many braces
-- open as close, as in every name without braces, the declarations that are generated from the
-- manifest open as many braces as they close.
pub generate_types-IsBalanced :
    (m : Manifest) → All IsWritable m.bundles → IsBalanced (generate_types m)
unfolding generate_types
generate_types-IsBalanced m h = enclosed preamble _ (lit "  }\n" ++ lit "}\n") refl (
    write_namespace-IsBalanced 4 (add_bundles m.bundles empty_node)
      (add_bundles-balanced m.bundles empty_node h (tt, tt)))
