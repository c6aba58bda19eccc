-- ===== src/Cli/Parser/Laws.antt =====
-- What the parser accepts.
use santokit.Base.{
  ◌≡◌, ◌↔◌, refl, Bool, true, false, not, ◌&&◌, ◌||◌, Option, none, some, [], ◌∷◌, ◌++◌, arith,
  if◌then◌else◌, is_empty, Text, lit, ◌==◌, Map, Values, Result, ok, err, Error, ◌>>=◌, ◌>>◌,
  fail_if, or_error, slice_out_of_range, yaml_failed,
}
use santokit.Base.Strings.{trim_space, has_prefix, has_suffix}
use santokit.Base.Strings.Search.{dashes, cut, split_three, cut-append}
use santokit.Cli.Parser.{
  Param, LogicConfig, no_config, Yaml, blank, allowed, check_params, check_all_params,
  validate_logic_config, parse_logic_file, comment_stage, in_comment, dashes_stage, front_matter,
  by_name,
}

abbrev pub AllAllowed : Option (Map Param) → Type 0
AllAllowed none = Unit
AllAllowed (some params) = Values (λ (p : Param). allowed p.type ≡ true) params

-- A configuration that can be deployed: it has a place, exactly one of the two sources, and parameters
-- of known types.
pub record IsDeployable (c : LogicConfig) : Type 0 where
  pub namespaced : blank c.namespace ≡ false
  pub below_root : (c.namespace == lit ".") ≡ false
  pub named : blank c.name ≡ false
  pub one_source : blank c.sql ≡ not (blank c.js)
  pub readable : blank c.access ≡ is_empty c.access
  pub typed : AllAllowed c.params

check_params_iff :
    (params : Map Param)
    → (check_params params ≡ ok tt) ↔ Values (λ (p : Param). allowed p.type ≡ true) params
unfolding check_params
check_params_iff [] = ((λ _. tt), (λ _. refl))
check_params_iff ((name, p) ∷ params) = ground (arith, check_params_iff params)

blank-empty : blank [] ≡ true
unfolding trim_space
blank-empty = refl

pub empty_is_blank : (s : Text) → is_empty s ≡ true → blank s ≡ true
empty_is_blank [] h = blank-empty
empty_is_blank (c ∷ s) h = cc

check_all_params_iff :
    (params : Option (Map Param)) → (check_all_params params ≡ ok tt) ↔ AllAllowed params
unfolding check_all_params
check_all_params_iff none = ((λ _. tt), (λ _. refl))
check_all_params_iff (some params) = check_params_iff params

-- The guards of the validation, on the outcomes of their tests.
guards_iff :
    (ns root name sql js no_access access : Bool) (rest : Result (Unit {0}))
    → (no_access ≡ true → access ≡ true)
    → ((fail_if (ns || root) Error.namespace_required
          >> (fail_if name Error.name_required
              >> (fail_if (sql && js) Error.no_content
                  >> (fail_if (not sql && not js) Error.two_contents
                      >> (fail_if (not no_access && access) Error.invalid_access >> rest)))))
        ≡ ok tt)
      ↔ ((ns ≡ false)
          × (root ≡ false)
          × (name ≡ false)
          × (sql ≡ not js)
          × (access ≡ no_access)
          × (rest ≡ ok tt))
guards_iff ns root name sql js no_access access rest h = ground arith

-- `ValidateLogicConfig` accepts exactly the configurations that can be deployed: a namespace other than
-- the root, a name, SQL or JS but not both, an access that is empty or visible, and parameters of the
-- types string, int, bool and json.
pub validate_logic_config_iff :
    (c : LogicConfig) → (validate_logic_config c ≡ ok tt) ↔ IsDeployable c
unfolding validate_logic_config
validate_logic_config_iff c =
    let g =
      guards_iff (blank c.namespace) (c.namespace == lit ".") (blank c.name) (blank c.sql)
        (blank c.js) (is_empty c.access) (blank c.access) (check_all_params c.params)
        (empty_is_blank c.access) in
    let p = check_all_params_iff c.params in
    (
      λ e.
          let (a, b, n, s, r, t) = g.0 e in
          record {
            namespaced = a;
            below_root = b;
            named = n;
            one_source = s;
            readable = r;
            typed = p.0 t;
          },
      λ d. g.1 (d.namespaced, d.below_root, d.named, d.one_source, d.readable, p.1 d.typed),
    )

-- A file that starts with `/*/` makes the parser slice behind its end: `ParseLogicFile` panics, whatever
-- follows and whatever the file is called.
pub parse_logic_file_panics :
    (yaml : Yaml) (content filename rest : Text)
    → trim_space content ≡ b'/' ∷ b'*' ∷ b'/' ∷ rest
    → parse_logic_file yaml content filename ≡ err slice_out_of_range
unfolding parse_logic_file comment_stage in_comment cut has_prefix
parse_logic_file_panics yaml content filename rest e = rw e refl

module _ (yaml : Yaml) (header body : Text) where
  abbrev file : Text
  file = dashes ++ (header ++ 10 ∷ (dashes ++ body))

  no_comment : trim_space file ≡ file → comment_stage yaml no_config file ≡ ok (no_config, file)
  unfolding comment_stage has_prefix
  no_comment trimmed = rw trimmed refl

  header_lem :
      trim_space file ≡ file
      → cut dashes header ≡ none
      → dashes_stage yaml (no_config, file) ≡ (
          or_error (yaml (header ++ 10 ∷ []) no_config) yaml_failed >>= λ config.
          ok (config, trim_space body))
  unfolding dashes_stage front_matter has_prefix split_three cut
  header_lem trimmed plain = rw trimmed (rw (cut-append header body plain) refl)

  -- A file with front matter and no outer white space, whose header is YAML of whole lines without
  -- `---`, is read as the YAML's configuration with the trimmed rest as its SQL or its JS, where the
  -- name ends in `.sql` or in `.js`; where the YAML is refused, so is the file.
  pub parse_logic_file_lem :
      (filename : Text)
      → trim_space file ≡ file
      → cut dashes header ≡ none
      → parse_logic_file yaml file filename ≡ (
          or_error (yaml (header ++ 10 ∷ []) no_config) yaml_failed >>= λ config. ok (
            if has_suffix filename (lit ".sql")
            then record config { sql = trim_space body }
            else if has_suffix filename (lit ".js")
            then record config { js = trim_space body }
            else config))
  unfolding parse_logic_file
  parse_logic_file_lem filename trimmed plain =
      rw (no_comment trimmed, header_lem trimmed plain)
        (named (or_error (yaml (header ++ 10 ∷ []) no_config) yaml_failed))
    where
      named :
          (r : Result LogicConfig)
          → ((r >>= λ config. ok (config, trim_space body)) >>= λ state.
              ok (by_name yaml filename state))
            ≡ (r >>= λ config. ok (
                if has_suffix filename (lit ".sql")
                then record config { sql = trim_space body }
                else if has_suffix filename (lit ".js")
                then record config { js = trim_space body }
                else config))
      named (ok config) = unfold by_name in refl
      named (err e) = refl
