-- ===== src/Cli/Generator/Tests.antt =====
-- The declarations of two bundles.
use santokit.Base.{◌≡◌, refl, none, some, List, [], ◌∷◌, ◌++◌, Text, lit, ◌==◌, lookup, keys}
use santokit.Base.Json.{str, obj, field, end}
use santokit.Base.Sort.{text_leb, sort_strings}
use santokit.Base.Strings.{has_prefix, split}
use santokit.Base.Strings.Search.{trim_left, trim_byte}
use santokit.Cli.Integrator.{Bundle, Manifest}
use santokit.Cli.Generator.{
  empty_node, parts_of, is_generated, add, add_bundles, sort_bundles, ts_type, write_namespace,
  generate_types,
}
use santokit.Cli.Generator.Places.{bundles_at, placed_at, bundles_at-add_bundles}
use santokit.Cli.Generator.Braces.{count, IsBalanced}
use santokit.Cli.Generator.Balance.{generate_types-IsBalanced}

abbrev get : Bundle
get = record {
  type = lit "sql";
  namespace = lit "/users/./";
  name = lit "get";
  content = [];
  hash = [];
  config = some (
      (lit "params", obj (field (lit "id") (obj (field (lit "type") (str (lit "int")) end)) end))
      ∷ []);
  created_at = 0;
}

abbrev hidden : Bundle
hidden = record get { name = lit "_helper" }

abbrev list : Bundle
list = record {
  type = lit "js";
  namespace = lit "users";
  name = lit "all";
  content = [];
  hash = [];
  config = none;
  created_at = 0;
}

abbrev pub bundles : List Bundle
bundles = get ∷ hidden ∷ list ∷ []

generator : Unit {0}
unfolding add_bundles add parts_of is_generated has_prefix split trim_byte trim_left ◌==◌
    sort_bundles text_leb sort_strings ts_type lookup keys write_namespace generate_types
generator = tt

places_test : bundles_at (lit "users" ∷ []) (add_bundles bundles empty_node) ≡ get ∷ list ∷ []
unfolding generator
places_test = refl

bundles_at-add_bundles_example :
    bundles_at (lit "users" ∷ []) (add_bundles bundles empty_node)
    ≡ placed_at (lit "users" ∷ []) bundles
bundles_at-add_bundles_example = bundles_at-add_bundles (lit "users" ∷ []) bundles

abbrev manifest : Manifest
manifest = record {
  version = lit "v-1";
  project_id = lit "shop";
  bundles = bundles;
  created_at = 0;
}

balanced : (s : Text) → count b'{' s ≡ count b'}' s → IsBalanced s
balanced s h = record { same = h }

generate_types-IsBalanced_example : IsBalanced (generate_types manifest)
unfolding generator
generate_types-IsBalanced_example = generate_types-IsBalanced manifest (
  (
    (balanced (lit "get") refl, (balanced (lit "id") refl, tt)),
    (balanced (lit "users") refl, (balanced (lit ".") refl, tt)),
  ),
  (
    (
      (balanced (lit "_helper") refl, (balanced (lit "id") refl, tt)),
      (balanced (lit "users") refl, (balanced (lit ".") refl, tt)),
    ),
    (((balanced (lit "all") refl, tt), (balanced (lit "users") refl, tt)), tt),
  ),
)

write_test :
    write_namespace 4 (add_bundles bundles empty_node)
    ≡ lit "    users: {\n      all: (params: {\n      }) => Promise<any>;\n"
      ++ (lit "      get: (params: {\n        id?: number;\n      }) => Promise<any>;\n"
          ++ lit "    };\n")
unfolding generator
write_test = refl
