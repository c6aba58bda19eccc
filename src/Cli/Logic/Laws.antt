-- ===== src/Cli/Logic/Laws.antt =====
-- What `buildLogicConfigs` returns.
use santokit.Base.{
  ◌≡◌, refl, sym, ◌∙◌, inl, inr, Bool-cases, Option-cases, Bool, true, false, Option, some, List,
  [], ◌∷◌, arith, get_or, Text, ◌==◌, eq_iff, contains, Map, keys, lookup, insert, IsUnique,
  insert-IsUnique, All, ok, ◌>>◌, or_error, >>=-eq-ok, >>-eq-ok, file_unreadable, missing_content,
}
use santokit.Cli.Scanner.{ScannedFile}
use santokit.Cli.Parser.{LogicConfig, Yaml, validate_logic_config}
use santokit.Cli.Parser.Laws.{IsDeployable, validate_logic_config_iff}
use santokit.Cli.Logic.{
  Entry, namespace_of, name_of, key_at, new_entry, marked, read_into, add_file, add_files,
  finish_entry, placed, finish, build_logic_configs,
}

-- No text stands twice.
abbrev pub Distinct : List Text → Type 0
Distinct [] = Unit
Distinct (k ∷ ks) = (contains k ks ≡ false) × Distinct ks

abbrev pub place : LogicConfig → Text
place c = key_at c.namespace c.name

pub places : List LogicConfig → List Text
places [] = []
places (c ∷ configs) = place c ∷ places configs

-- Every entry stands under the key of its place.
abbrev Keyed : Map Entry → Type 0
Keyed [] = Unit
Keyed ((k, e) ∷ entries) = (k ≡ key_at e.namespace e.name) × Keyed entries

insert-Keyed :
    (e : Entry) (entries : Map Entry)
    → Keyed entries
    → Keyed (insert (key_at e.namespace e.name) e entries)
unfolding insert
insert-Keyed e [] h = (refl, tt)
insert-Keyed e ((k, x) ∷ entries) (h, hs) = elim (Bool-cases (k == key_at e.namespace e.name)) [
  | inl same ↦ rw same (refl, hs)
  | inr other ↦ rw other (h, insert-Keyed e entries hs)
]

lookup-Keyed :
    (k : Text) (e : Entry) (entries : Map Entry)
    → Keyed entries
    → lookup k entries ≡ some e
    → key_at e.namespace e.name ≡ k
unfolding lookup
lookup-Keyed k e [] h found = cc
lookup-Keyed k e ((j, x) ∷ entries) (h, hs) found = elim (Bool-cases (j == k)) [
  | inl same ↦ ground (arith, found, same, h, eq_iff j k)
  | inr other ↦ lookup-Keyed k e entries hs (rw other at found)
]

Distinct-keys : (entries : Map Entry) → IsUnique entries → Distinct (keys entries)
unfolding keys
Distinct-keys [] h = tt
Distinct-keys ((k, e) ∷ entries) (h, hs) = (h, Distinct-keys entries hs)

module _ (yaml : Yaml) (read : Text → Option Text) where
  finish_entry_lem :
      (e : Entry) (c : LogicConfig)
      → finish_entry yaml read e ≡ ok c
      → IsDeployable c × (place c ≡ key_at e.namespace e.name)
  unfolding finish_entry
  finish_entry_lem e c h =
      let (content, there, g) =
        >>=-eq-ok (or_error e.content missing_content)
          (λ content.
            validate_logic_config (placed yaml read e content) >> ok (placed yaml read e content))
          h in
      let (good, k) =
        >>-eq-ok (validate_logic_config (placed yaml read e content))
          (ok (placed yaml read e content)) g in
      let same = one (placed yaml read e content) c k in
      ((validate_logic_config_iff c).0 (rw (← same) good), rw (← same) (unfold placed in refl))
    where
      one : (a b : LogicConfig) → ok a ≡ ok b → a ≡ b
      one a b h = cc

  finish_lem :
      (entries : Map Entry) (configs : List LogicConfig)
      → Keyed entries
      → finish yaml read entries ≡ ok configs
      → All IsDeployable configs × (places configs ≡ keys entries)
  unfolding finish places keys
  finish_lem [] configs _ h = none_left configs h
    where
      none_left : (cs : List LogicConfig) → ok [] ≡ ok cs → All IsDeployable cs × (places cs ≡ [])
      none_left [] e = (tt, refl)
      none_left (c ∷ cs) e = absurd (cc)
  finish_lem ((k, e) ∷ entries) configs (h, hs) all =
      let (c, one, g) = >>=-eq-ok (finish_entry yaml read e) _ all in
      let (cs, rest, last) = >>=-eq-ok (finish yaml read entries) (λ cs. ok (c ∷ cs)) g in
      let (valid, at) = finish_entry_lem e c one in
      let (valids, ats) = finish_lem entries cs hs rest in
      made c cs configs last valid (at ∙ sym h) valids ats
    where
      made :
          (c : LogicConfig) (cs configs : List LogicConfig)
          → ok (c ∷ cs) ≡ ok configs
          → IsDeployable c
          → place c ≡ k
          → All IsDeployable cs
          → places cs ≡ keys entries
          → All IsDeployable configs × (places configs ≡ k ∷ keys entries)
      made c cs [] e v a vs ps = absurd (cc)
      made c cs (d ∷ ds) e v a vs ps =
          let first : c ≡ d = cc in
          let others : cs ≡ ds = cc in ((rw (← first) v, rw (← others) vs), cc)

  read_into_place :
      (e e' : Entry) (path content : Text)
      → read_into yaml read e path content ≡ ok e'
      → (e'.namespace ≡ e.namespace) × (e'.name ≡ e.name)
  unfolding read_into
  read_into_place e e' path content h = ground arith

  entry_at :
      (ns name : Text) (public : Bool) (entries : Map Entry)
      → Keyed entries
      → key_at
          (marked public (get_or (lookup (key_at ns name) entries) (new_entry ns name))).namespace
          (marked public (get_or (lookup (key_at ns name) entries) (new_entry ns name))).name
        ≡ key_at ns name
  entry_at ns name public entries h = elim (Option-cases (lookup (key_at ns name) entries)) [
    | inl missing ↦ rw missing (kept public (new_entry ns name))
    | inr (e, found) ↦ rw found (kept public e ∙ lookup-Keyed (key_at ns name) e entries h found)
  ]
    where
      kept :
          (b : Bool) (e : Entry)
          → key_at (marked b e).namespace (marked b e).name ≡ key_at e.namespace e.name
      kept true e = unfold marked in refl
      kept false e = unfold marked in refl

  add_file_lem :
      (entries entries' : Map Entry) (file : ScannedFile)
      → Keyed entries
      → IsUnique entries
      → add_file yaml read entries file ≡ ok entries'
      → Keyed entries' × IsUnique entries'
  unfolding add_file
  add_file_lem entries entries' file h u e =
      let ns = namespace_of file.path in
      let name = name_of file.path in
      let entry =
        marked file.is_public (get_or (lookup (key_at ns name) entries) (new_entry ns name)) in
      let (content, readable, g) = >>=-eq-ok (or_error (read file.path) file_unreadable) _ e in
      let (entry', parsed, k) =
        >>=-eq-ok (read_into yaml read entry file.path content)
          (λ entry'. ok (insert (key_at ns name) entry' entries)) g in
      let (same_ns, same_name) = read_into_place entry entry' file.path content parsed in
      let key : key_at entry'.namespace entry'.name ≡ key_at ns name =
        rw (same_ns, same_name) (entry_at ns name file.is_public entries h) in
      stored (key_at ns name) entry' key k
    where
      stored :
          (k : Text) (entry' : Entry)
          → key_at entry'.namespace entry'.name ≡ k
          → ok (insert k entry' entries) ≡ ok entries'
          → Keyed entries' × IsUnique entries'
      stored k entry' key e =
          let same : insert k entry' entries ≡ entries' = cc in
          (
            rw (← same, ← key) (insert-Keyed entry' entries h),
            rw (← same) (insert-IsUnique k entry' entries u),
          )

  add_files_lem :
      (entries entries' : Map Entry) (files : List ScannedFile)
      → Keyed entries
      → IsUnique entries
      → add_files yaml read entries files ≡ ok entries'
      → Keyed entries' × IsUnique entries'
  unfolding add_files
  add_files_lem entries entries' [] h u e = one entries h u e
    where
      one :
          (m : Map Entry)
          → Keyed m
          → IsUnique m
          → ok m ≡ ok entries'
          → Keyed entries' × IsUnique entries'
      one m h u e = let same : m ≡ entries' = cc in (rw (← same) h, rw (← same) u)
  add_files_lem entries entries' (file ∷ files) h u e =
      let (next, added, rest) = >>=-eq-ok (add_file yaml read entries file) _ e in
      let (h', u') = add_file_lem entries next file h u added in
      add_files_lem next entries' files h' u' rest

  -- Where `buildLogicConfigs` succeeds, every configuration that it returns can be deployed, and no two
  -- of them have the same place, the path that their namespace and name make.
  pub build_logic_configs_lem :
      (files : List ScannedFile) (configs : List LogicConfig)
      → build_logic_configs yaml read files ≡ ok configs
      → All IsDeployable configs × Distinct (places configs)
  unfolding build_logic_configs
  build_logic_configs_lem files configs e =
      let (entries, added, finished) = >>=-eq-ok (add_files yaml read [] files) _ e in
      let (keyed, unique) = add_files_lem [] entries files tt tt added in
      let (valid, same) = finish_lem entries configs keyed finished in
      (valid, rw same (Distinct-keys entries unique))
