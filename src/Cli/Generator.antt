-- ===== src/Cli/Generator.antt =====
-- The generator of TypeScript declarations, packages/cli/internal/engine/generator/types.go. A node
-- of the tree of namespaces is a `node`, with the map of its children as `Children`. `sort.Slice` may
-- order bundles of one name either way; here they keep their order.
pub mod Places
pub mod Braces
pub mod Balance
pub mod Tests
use santokit.Base.{
  ℕ, zero, suc, ◌+◌, Bool, true, false, not, ◌&&◌, ◌||◌, Option, none, some, List, [], ◌∷◌, ◌++◌,
  get_or, if◌then◌else◌, is_empty, Text, lit, ◌==◌, Map, lookup, keys,
}
use santokit.Base.Json.{Json, bool, str, obj, Fields, end, field}
use santokit.Base.Sort.{text_leb, sort_strings}
use santokit.Base.Strings.{has_prefix, split}
use santokit.Base.Strings.Search.{trim_byte}
use santokit.Cli.Integrator.{Bundle, Manifest}

-- `namespaceNode`
mutual
  pub data Node : Type 0 where
    node : List Bundle → Children → Node

  pub data Children : Type 0 where
    no_children : Children
    child : Text → Node → Children → Children

abbrev pub empty_node : Node
empty_node = node [] no_children

-- Change the child of a name, which is made where it is missing.
pub update : Text → (Node → Node) → Children → Children
update part change no_children = child part (change empty_node) no_children
update part change (child name n cs) =
    if name == part then child name (change n) cs else child name n (update part change cs)

abbrev pub skipped : Text → Bool
skipped part = is_empty part || part == lit "."

-- The walk along the parts of a namespace, with the append at its end.
unfoldable pub add : Bundle → List Text → Node → Node
unfolding update
add b [] (node bundles cs) = node (bundles ++ b ∷ []) cs
add b (part ∷ parts) (node bundles cs) =
    let on = add b parts (node bundles cs) in
    if skipped part then on else node bundles (update part (add b parts) cs)

-- The parts of a namespace.
unfoldable pub parts_of : Text → List Text
parts_of namespace =
    let ns = trim_byte b'/' namespace in
    if not (is_empty ns) && not (ns == lit ".") then split ns b'/' else []

-- The bundles that the loop does not skip.
unfoldable pub is_generated : Bundle → Bool
is_generated b =
    (b.type == lit "logic" || b.type == lit "js" || b.type == lit "sql")
    && not (has_prefix b.name (lit "_"))

-- The loop of `GenerateTypes`.
unfoldable pub add_bundles : List Bundle → Node → Node
unfolding parts_of is_generated
add_bundles [] root = root
add_bundles (b ∷ bundles) root =
    add_bundles bundles (if is_generated b then add b (parts_of b.namespace) root else root)

-- `%*s` with an empty string
pub spaces : ℕ → Text
spaces zero = []
spaces (suc n) = b' ' ∷ spaces n

pub insert_bundle : Bundle → List Bundle → List Bundle
insert_bundle b [] = b ∷ []
insert_bundle b (c ∷ bundles) =
    if text_leb b.name c.name then b ∷ c ∷ bundles else c ∷ insert_bundle b bundles

-- `sort.Slice` by name
unfoldable pub sort_bundles : List Bundle → List Bundle
unfolding insert_bundle
sort_bundles [] = []
sort_bundles (b ∷ bundles) = insert_bundle b (sort_bundles bundles)

pub field_names : Fields → List Text
field_names end = []
field_names (field name v fields) = name ∷ field_names fields

field_of : Text → Fields → Option Json
field_of name end = none
field_of name (field other v fields) = if other == name then some v else field_of name fields

type_name : Option Json → Text
type_name (some (str s)) = s
type_name _ = []

is_required : Option Json → Bool
is_required (some (bool b)) = b
is_required _ = false

-- `tsType`
unfoldable pub ts_type : Text → Text
ts_type type =
    if type == lit "string"
    then lit "string"
    else if type == lit "int"
    then lit "number"
    else if type == lit "bool"
    then lit "boolean"
    else lit "any"

-- The line of a parameter; one whose configuration is not an object has none.
write_param : ℕ → Text → Option Json → Text
unfolding field_of type_name is_required ts_type
write_param indent name (some (obj config)) =
    spaces (indent + 2)
    ++ (name
        ++ ((if is_required (field_of (lit "required") config) then [] else lit "?")
            ++ (lit ": " ++ (ts_type (type_name (field_of (lit "type") config)) ++ lit ";\n"))))
write_param indent name _ = []

write_params : ℕ → Fields → List Text → Text
unfolding write_param field_of
write_params indent params [] = []
write_params indent params (name ∷ names) =
    write_param indent name (field_of name params) ++ write_params indent params names

write_all_params : ℕ → Option Json → Text
unfolding write_params field_names
write_all_params indent (some (obj params)) =
    write_params indent params (sort_strings (field_names params))
write_all_params indent _ = []

write_bundle : ℕ → Bundle → Text
unfolding spaces write_all_params
write_bundle indent b =
    spaces indent
    ++ (b.name
        ++ (lit ": (params: {\n"
            ++ (write_all_params indent (lookup (lit "params") (get_or b.config []))
                ++ (spaces indent ++ lit "}) => Promise<any>;\n"))))

pub write_bundles : ℕ → List Bundle → Text
unfolding write_bundle
write_bundles indent [] = []
write_bundles indent (b ∷ bundles) = write_bundle indent b ++ write_bundles indent bundles

-- The children in the order of their names, with what is written inside each.
write_children : ℕ → Map Text → List Text → Text
unfolding spaces
write_children indent inner [] = []
write_children indent inner (name ∷ names) =
    spaces indent
    ++ (name
        ++ (lit ": {\n"
            ++ (get_or (lookup name inner) []
                ++ (spaces indent ++ (lit "};\n" ++ write_children indent inner names)))))

mutual
  unfolding write_bundles write_children

  -- `writeNamespace`
  pub write_namespace : ℕ → Node → Text
  write_namespace indent (node bundles cs) =
      write_bundles indent (sort_bundles bundles)
      ++ write_children indent (write_inner (indent + 2) cs)
          (sort_strings (keys (write_inner (indent + 2) cs)))

  write_inner : ℕ → Children → Map Text
  write_inner indent no_children = []
  write_inner indent (child name n cs) = (name, write_namespace indent n) ∷ write_inner indent cs

abbrev preamble : Text
preamble =
    lit "// This file is auto-generated by Santokit CLI.\n"
    ++ (lit "// Do not edit manually.\n\n"
        ++ (lit "import '@santokit/client';\n\n"
            ++ (lit "declare module '@santokit/client' {\n"
                ++ lit "  interface LogicNamespace {\n")))

-- `GenerateTypes`
unfoldable pub generate_types : Manifest → Text
unfolding write_namespace
generate_types m =
    preamble ++ (write_namespace 4 (add_bundles m.bundles empty_node) ++ (lit "  }\n" ++ lit "}\n"))
