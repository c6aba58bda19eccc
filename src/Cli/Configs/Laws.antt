-- ===== src/Cli/Configs/Laws.antt =====
-- What `config apply` reads and sends.
use santokit.Base.{
  ◌≡◌, refl, ap, ◌∙◌, inl, inr, Bool-cases, Bool, false, [], ◌∷◌, get_or, if◌then◌else◌, is_empty,
  Text, lit, ◌==◌, eq_refl, Map, lookup, insert, lookup-insert, ok, ◌>>=◌, >>=-eq-ok,
}
use santokit.Cli.Configs.{
  parse_config_only, FileRead, absent, unreadable, contents, read_optional_file, load_config,
  load_configs,
}

-- The text of the configurations for a type.
abbrev pub fetch : Text → Map Text → Text
fetch name configs = get_or (lookup name configs) []

abbrev text_of : FileRead → Text
text_of absent = []
text_of unreadable = []
text_of (contents content) = content

-- What a type's configuration is to be: its file where it is chosen, and else nothing.
abbrev pub wanted : Map Bool → (Text → FileRead) → Text → Text
wanted chosen read name = if get_or (lookup name chosen) false then text_of (read name) else []

keep : Text → Text → Map Text → Map Text
keep name content configs = if is_empty content then configs else insert name content configs

fetch-keep_other :
    (name other content : Text) (configs : Map Text)
    → (name == other) ≡ false
    → fetch other (keep name content configs) ≡ fetch other configs
unfolding keep
fetch-keep_other name other content configs apart = elim (Bool-cases (is_empty content)) [
  | inl nothing ↦ rw nothing refl
  | inr something ↦ rw (something, lookup-insert name other content configs, apart) refl
]

fetch-keep :
    (name content : Text) (configs : Map Text)
    → fetch name configs ≡ []
    → fetch name (keep name content configs) ≡ content
unfolding keep
fetch-keep name [] configs fresh = fresh
fetch-keep name (b ∷ content) configs fresh =
    rw (lookup-insert name name (b ∷ content) configs, eq_refl name) refl

load_read :
    (name : Text) (configs configs' : Map Text) (file : FileRead)
    → (read_optional_file file >>= λ content.
        ok (if is_empty content then configs else insert name content configs))
      ≡ ok configs'
    → configs' ≡ keep name (text_of file) configs
unfolding keep read_optional_file
load_read name configs configs' absent loaded = cc
load_read name configs configs' unreadable loaded = absurd (cc)
load_read name configs configs' (contents content) loaded = cc

abbrev pub databases : Text
databases = lit "databases"

abbrev pub auth : Text
auth = lit "auth"

abbrev pub storage : Text
storage = lit "storage"

module _ (chosen : Map Bool) (read : Text → FileRead) where
  load_config_eq :
      (name : Text) (configs configs' : Map Text)
      → load_config chosen read name configs ≡ ok configs'
      → configs' ≡ keep name (wanted chosen read name) configs
  unfolding load_config
  load_config_eq name configs configs' loaded =
      elim (Bool-cases (get_or (lookup name chosen) false)) [
        | inl selected ↦
            rw selected (load_read name configs configs' (read name) (rw selected at loaded))
        | inr unselected ↦
            rw unselected
              (unfold keep in let same : ok configs ≡ ok configs' = rw unselected at loaded in cc)
      ]

  unchanged :
      (name other : Text) (configs configs' : Map Text)
      → load_config chosen read name configs ≡ ok configs'
      → (name == other) ≡ false
      → fetch other configs' ≡ fetch other configs
  unchanged name other configs configs' loaded apart =
      ap (fetch other) (load_config_eq name configs configs' loaded)
      ∙ fetch-keep_other name other (wanted chosen read name) configs apart

  taken :
      (name : Text) (configs configs' : Map Text)
      → load_config chosen read name configs ≡ ok configs'
      → fetch name configs ≡ []
      → fetch name configs' ≡ wanted chosen read name
  taken name configs configs' loaded fresh =
      ap (fetch name) (load_config_eq name configs configs' loaded)
      ∙ fetch-keep name (wanted chosen read name) configs fresh

-- What `config apply` sends of each type is its file where the type is chosen, and else nothing.
pub load_configs_lem :
    (read : Text → FileRead) (only : Text) (chosen : Map Bool) (configs : Map Text)
    → parse_config_only only ≡ ok chosen
    → load_configs read only ≡ ok configs
    → (fetch databases configs ≡ wanted chosen read databases)
      × (fetch auth configs ≡ wanted chosen read auth)
      × (fetch storage configs ≡ wanted chosen read storage)
unfolding load_configs ◌==◌ lookup
load_configs_lem read only chosen configs parsed loaded =
    let (first, loaded_first, rest) =
      >>=-eq-ok (load_config chosen read databases [])
        (λ configs. load_config chosen read auth configs >>= λ configs.
          load_config chosen read storage configs)
        (rw parsed at loaded) in
    let (second, loaded_second, loaded_last) =
      >>=-eq-ok (load_config chosen read auth first) (load_config chosen read storage) rest in
    let at_second : fetch storage second ≡ [] =
      unchanged chosen read auth storage first second loaded_second refl
      ∙ unchanged chosen read databases storage [] first loaded_first refl in
    (
      unchanged chosen read storage databases second configs loaded_last refl
          ∙ unchanged chosen read auth databases first second loaded_second refl
          ∙ taken chosen read databases [] first loaded_first refl,
      unchanged chosen read storage auth second configs loaded_last refl
          ∙ taken chosen read auth first second loaded_second
              (unchanged chosen read databases auth [] first loaded_first refl),
      taken chosen read storage second configs loaded_last at_second,
    )
