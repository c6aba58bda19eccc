-- ===== src/Cli/Integrator/Laws.antt =====
-- What a validated configuration is bundled as.
use santokit.Base.{
  ℕ, ◌≡◌, ◌⊎◌, refl, inl, inr, Bool-cases, true, false, [], ◌∷◌, arith, is_empty, Text, lit, ok,
}
use santokit.Base.Encoding.{hex}
use santokit.Base.Strings.{trim_space}
use santokit.Cli.Parser.{LogicConfig, blank, validate_logic_config}
use santokit.Cli.Parser.Laws.{validate_logic_config_iff}
use santokit.Cli.Integrator.{bundle_logic, source_of}

pub not_blank : (s : Text) → blank s ≡ false → is_empty s ≡ false
unfolding trim_space
not_blank [] h = cc
not_blank (c ∷ s) h = refl

module _ (sha256 : Text → Text) (now : ℕ) (c : LogicConfig)
    (valid : validate_logic_config c ≡ ok tt) where
  -- A configuration that was validated, with an SQL part that is empty or not blank, is bundled with its
  -- one source, which is not blank, under the source's type and its hash.
  pub bundle_logic_lem :
      blank c.sql ≡ is_empty c.sql
      → ((blank c.sql ≡ false)
          × ((bundle_logic sha256 now c).type ≡ lit "sql")
          × ((bundle_logic sha256 now c).content ≡ c.sql)
          × ((bundle_logic sha256 now c).hash ≡ hex (sha256 c.sql)))
        ⊎ ((blank c.js ≡ false)
            × ((bundle_logic sha256 now c).type ≡ lit "js")
            × ((bundle_logic sha256 now c).content ≡ c.js)
            × ((bundle_logic sha256 now c).hash ≡ hex (sha256 c.js)))
  unfolding bundle_logic source_of
  bundle_logic_lem clean =
      let d = (validate_logic_config_iff c).0 valid in
      elim (Bool-cases (is_empty c.sql)) [
        | inl no_sql ↦
            let js_there : blank c.js ≡ false = ground (arith, d.one_source, clean, no_sql) in
            inr (
              js_there,
              rw (no_sql, not_blank c.js js_there) refl,
              rw (no_sql, not_blank c.js js_there) refl,
              rw (no_sql, not_blank c.js js_there) refl,
            )
        | inr sql ↦ inl (ground (arith, clean, sql), rw sql refl, rw sql refl, rw sql refl)
      ]

  -- An SQL part of white space alone hides the JS: the configuration is valid, and the white space is
  -- what is bundled.
  pub blank_sql_hides_js :
      blank c.sql ≡ true
      → is_empty c.sql ≡ false
      → (blank c.js ≡ false)
        × ((bundle_logic sha256 now c).type ≡ lit "sql")
        × ((bundle_logic sha256 now c).content ≡ c.sql)
  unfolding bundle_logic source_of
  blank_sql_hides_js no_text there =
      let d = (validate_logic_config_iff c).0 valid in
      (ground (arith, d.one_source, no_text), rw there refl, rw there refl)
