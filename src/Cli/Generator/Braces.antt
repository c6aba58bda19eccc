-- ===== src/Cli/Generator/Braces.antt =====
-- The declarations that are written open as many braces as they close.
use santokit.Base.{
  ℕ, zero, suc, ◌+◌, ◌≡◌, refl, Bool, true, false, Option, none, some, List, [], ◌∷◌, ◌++◌, All,
  arith, get_or, eqb, if◌then◌else◌, Text, lit, ◌==◌, lookup,
}
use santokit.Base.Json.{Json, obj, str, bool, null, num, arr, Fields}
use santokit.Base.Sort.{sort_strings, All-sort_strings}
use santokit.Cli.Integrator.{Bundle}
use santokit.Cli.Generator.{
  spaces, field_names, field_of, type_name, is_required, ts_type, write_param, write_params,
  write_all_params, write_bundle, write_bundles,
}

abbrev pub count : ℕ → Text → ℕ
count c [] = 0
count c (d ∷ s) = if eqb d c then suc (count c s) else count c s

-- As many braces open as close.
pub record IsBalanced (s : Text) : Type 0 where
  pub same : count b'{' s ≡ count b'}' s

count-append : (c : ℕ) (s t : Text) → count c (s ++ t) ≡ count c s + count c t
count-append c [] t = omega arith
count-append c (d ∷ s) t = ground (arith, count-append c s t)

infixr 5 ◌⊕◌
pub ◌⊕◌ : {s t : Text} → IsBalanced s → IsBalanced t → IsBalanced (s ++ t)
◌⊕◌ {s} {t} h k = record {
  same = omega (arith, h.same, k.same, count-append b'{' s t, count-append b'}' s t);
}

pub literal : (s : Text) → count b'{' s ≡ count b'}' s → IsBalanced s
literal s h = record { same = h }

if-IsBalanced :
    (b : Bool) (s t : Text) → IsBalanced s → IsBalanced t → IsBalanced (if b then s else t)
if-IsBalanced true s t h k = h
if-IsBalanced false s t h k = k

spaces-IsBalanced : (n : ℕ) → IsBalanced (spaces n)
unfolding spaces
spaces-IsBalanced zero = record { same = refl }
spaces-IsBalanced (suc n) = record { same = (spaces-IsBalanced n).same }

ts_type-IsBalanced : (t : Text) → IsBalanced (ts_type t)
unfolding ts_type
ts_type-IsBalanced t =
    let any : Text = if t == lit "bool" then lit "boolean" else lit "any" in
    if-IsBalanced (t == lit "string") (lit "string") (if t == lit "int" then lit "number" else any)
      (record { same = refl })
      (if-IsBalanced (t == lit "int") (lit "number") any (record { same = refl })
        (if-IsBalanced (t == lit "bool") (lit "boolean") (lit "any") (record { same = refl })
          (record { same = refl })))

-- A block that opens a brace at its first line and closes it at its last, and what follows it.
unfoldable pub block : ℕ → Text → Text → Text → Text → Text → Text
block n first last name inner rest =
    spaces n ++ (name ++ (first ++ (inner ++ (spaces n ++ (last ++ rest)))))

count-block :
    (c n : ℕ) (first last name inner rest : Text)
    → count c (block n first last name inner rest)
      ≡ count c (spaces n)
        + (count c name
            + (count c first
                + (count c inner + (count c (spaces n) + (count c last + count c rest)))))
unfolding block
count-block c n first last name inner rest = omega (
  arith,
  count-append c (spaces n) (name ++ (first ++ (inner ++ (spaces n ++ (last ++ rest))))),
  count-append c name (first ++ (inner ++ (spaces n ++ (last ++ rest)))),
  count-append c first (inner ++ (spaces n ++ (last ++ rest))),
  count-append c inner (spaces n ++ (last ++ rest)),
  count-append c (spaces n) (last ++ rest),
  count-append c last rest,
)

pub block-IsBalanced :
    (n : ℕ) (first last name inner rest : Text)
    → count b'{' first + count b'{' last ≡ count b'}' first + count b'}' last
    → IsBalanced name
    → IsBalanced inner
    → IsBalanced rest
    → IsBalanced (block n first last name inner rest)
block-IsBalanced n first last name inner rest whole h k l = record {
  same = omega (
    arith,
    whole,
    h.same,
    k.same,
    l.same,
    (spaces-IsBalanced n).same,
    count-block b'{' n first last name inner rest,
    count-block b'}' n first last name inner rest,
  );
}

write_param-IsBalanced :
    (n : ℕ) (name : Text) (v : Option Json) → IsBalanced name → IsBalanced (write_param n name v)
unfolding write_param
write_param-IsBalanced n name (some (obj config)) h =
    spaces-IsBalanced (n + 2)
    ⊕ (h
        ⊕ (if-IsBalanced (is_required (field_of (lit "required") config)) [] (lit "?")
              (record { same = refl }) (record { same = refl })
            ⊕ (literal (lit ": ") refl
                ⊕ (ts_type-IsBalanced (type_name (field_of (lit "type") config))
                    ⊕ literal (lit ";\n") refl))))
write_param-IsBalanced n name none h = record { same = refl }
write_param-IsBalanced n name (some null) h = record { same = refl }
write_param-IsBalanced n name (some (bool _)) h = record { same = refl }
write_param-IsBalanced n name (some (num _)) h = record { same = refl }
write_param-IsBalanced n name (some (str _)) h = record { same = refl }
write_param-IsBalanced n name (some (arr _)) h = record { same = refl }

write_params-IsBalanced :
    (n : ℕ) (params : Fields) (names : List Text)
    → All IsBalanced names
    → IsBalanced (write_params n params names)
unfolding write_params
write_params-IsBalanced n params [] h = record { same = refl }
write_params-IsBalanced n params (name ∷ names) (p, h) =
    write_param-IsBalanced n name (field_of name params) p
    ⊕ write_params-IsBalanced n params names h

pub enclosed :
    (first inner last : Text)
    → count b'{' first + count b'{' last ≡ count b'}' first + count b'}' last
    → IsBalanced inner
    → IsBalanced (first ++ (inner ++ last))
enclosed first inner last whole h = record {
  same = omega (
    arith,
    whole,
    h.same,
    count-append b'{' first (inner ++ last),
    count-append b'}' first (inner ++ last),
    count-append b'{' inner last,
    count-append b'}' inner last,
  );
}

-- The names of the parameters of a bundle are balanced.
abbrev pub HasBalancedParams : Option Json → Type 0
HasBalancedParams (some (obj params)) = All IsBalanced (field_names params)
HasBalancedParams _ = Unit

write_all_params-IsBalanced :
    (n : ℕ) (v : Option Json) → HasBalancedParams v → IsBalanced (write_all_params n v)
unfolding write_all_params
write_all_params-IsBalanced n (some (obj params)) h =
    write_params-IsBalanced n params (sort_strings (field_names params))
      (All-sort_strings IsBalanced (field_names params) h)
write_all_params-IsBalanced n none h = record { same = refl }
write_all_params-IsBalanced n (some null) h = record { same = refl }
write_all_params-IsBalanced n (some (bool _)) h = record { same = refl }
write_all_params-IsBalanced n (some (num _)) h = record { same = refl }
write_all_params-IsBalanced n (some (str _)) h = record { same = refl }
write_all_params-IsBalanced n (some (arr _)) h = record { same = refl }

-- A bundle whose name and parameters' names are balanced.
abbrev pub HasBalancedNames : Bundle → Type 0
HasBalancedNames b =
    IsBalanced b.name × HasBalancedParams (lookup (lit "params") (get_or b.config []))

pub write_bundles-IsBalanced :
    (n : ℕ) (bundles : List Bundle)
    → All HasBalancedNames bundles
    → IsBalanced (write_bundles n bundles)
unfolding write_bundles write_bundle block
write_bundles-IsBalanced n [] h = record { same = refl }
write_bundles-IsBalanced n (b ∷ bundles) ((named, params), h) =
    block-IsBalanced n (lit ": (params: {\n") (lit "}) => Promise<any>;\n") b.name _ [] refl named
      (write_all_params-IsBalanced n (lookup (lit "params") (get_or b.config [])) params)
      (literal [] refl)
    ⊕ write_bundles-IsBalanced n bundles h
