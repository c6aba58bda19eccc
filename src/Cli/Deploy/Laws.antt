-- ===== src/Cli/Deploy/Laws.antt =====
-- What the hub holds after `logic apply`.
use santokit.Base.{
  ℕ, ◌⊎◌, inl, inr, Bool-cases, false, [], arith, is_empty, lit, ◌≡◌, refl, sym, ap, ◌∙◌, Option,
  some, List, ◌∷◌, All, Text, ok,
}
use santokit.Registry.{IsLog}
use santokit.Registry
use santokit.Api.Auth.{AuthEnv, admitted, auth_middleware}
use santokit.Api.Http.{manifest, respond}
use santokit.Api.Hub.{Deps, Hub, Request, push_manifest}
use santokit.Api.Hub.Handlers.{dispatch, handle_get_manifest}
use santokit.Api.Hub.Handlers.Manifests.{get_manifest-Pushed}
use santokit.Cli.Scanner.{ScannedFile}
use santokit.Cli.Parser.{LogicConfig, Yaml}
use santokit.Cli.Parser.Laws.{IsDeployable, empty_is_blank}
use santokit.Cli.Integrator.{bundle_logic, source_of, create_manifest}
use santokit.Cli.Integrator.Laws.{not_blank}
use santokit.Base.Encoding.{hex}
use santokit.Cli.Logic.{build_logic_configs}
use santokit.Cli.Logic.Laws.{Distinct, places, build_logic_configs_lem}
use santokit.Cli.Client.{ClientConfig, headers, done, received, received_all, push_manifest_to}
use santokit.Cli.Client.Laws.{connect, request, ask_lem, done_status}
use santokit.Cli.Configs.{project_of}
use santokit.Cli.Deploy.{bundle_all, manifest_of, push_made, apply_files, logic_apply_command}

-- A bundle of a configuration: it stands at the same place, and holds its SQL or its JS under the
-- source's type, with the hash of what it holds.
pub record IsBundleOf (sha256 : Text → Text) (c : LogicConfig) (b : Registry.Bundle) : Type 0 where
  pub namespace : b.namespace ≡ c.namespace
  pub name : b.name ≡ c.name
  pub source :
      ((b.type ≡ lit "sql") × (b.content ≡ c.sql) × (is_empty c.sql ≡ false))
      ⊎ ((b.type ≡ lit "js") × (b.content ≡ c.js) × (is_empty c.js ≡ false))
  pub hash : b.hash ≡ hex (sha256 b.content)

-- The bundles are those of the configurations, one each, in their order.
abbrev pub AreBundlesOf : (Text → Text) → List LogicConfig → List Registry.Bundle → Type 0
AreBundlesOf sha256 [] [] = Unit
AreBundlesOf sha256 (c ∷ configs) (b ∷ bundles) =
    IsBundleOf sha256 c b × AreBundlesOf sha256 configs bundles
AreBundlesOf sha256 [] (_ ∷ _) = ⊥
AreBundlesOf sha256 (_ ∷ _) [] = ⊥

module _ (sha256 : Text → Text) (now : ℕ) where
  bundle_lem :
      (c : LogicConfig)
      → IsDeployable c
      → IsBundleOf sha256 c (received (bundle_logic sha256 now c))
  unfolding received bundle_logic source_of
  bundle_lem c valid = elim (Bool-cases (is_empty c.sql)) [
    | inl no_sql ↦
        let js = not_blank c.js (ground (arith, valid.one_source, empty_is_blank c.sql no_sql)) in
        record {
          namespace = refl;
          name = refl;
          source = inr (rw (no_sql, js) (refl, refl, refl));
          hash = refl;
        }
    | inr sql ↦ record {
      namespace = refl;
      name = refl;
      source = inl (rw sql (refl, refl, refl));
      hash = refl;
    }
  ]

  bundles_lem :
      (yaml : Yaml) (read : Text → Option Text) (configs : List LogicConfig)
      → All IsDeployable configs
      → AreBundlesOf sha256 configs (received_all (bundle_all yaml read sha256 now configs))
  unfolding received_all bundle_all
  bundles_lem yaml read [] valid = tt
  bundles_lem yaml read (c ∷ configs) (valid, rest) =
      (bundle_lem c valid, bundles_lem yaml read configs rest)

module _ (d : Deps) (log : IsLog d.manifests) (secret : Text) (env : AuthEnv) (r : Request)
    (c : ClientConfig) (user project_id variable : Text)
    (project : project_of c variable ≡ ok project_id)
    (admits : auth_middleware d.codec secret r.now env (headers c project_id).authorization
      ≡ admitted user)
    (yaml : Yaml) (read : Text → Option Text) (sha256 : Text → Text) (now : ℕ) (h : Hub d) where
  abbrev sent : Request
  sent = request d secret env r c user project_id admits

  -- Against a hub that admits the client and whose repository keeps the manifest saved last as the latest,
  -- after a `logic apply` of at least one file that succeeded `GET /manifest` of the project answers a
  -- manifest with one bundle for each of the configurations that the files make, in their order, of the
  -- same place and with the SQL or JS and its hash; the configurations can be deployed and have different
  -- places.
  pub get_manifest-logic_apply :
      (file : ScannedFile) (files : List ScannedFile) (configs : List LogicConfig)
      → build_logic_configs yaml read (file ∷ files) ≡ ok configs
      → (logic_apply_command yaml read sha256 now
          (connect d secret env r)
          c
          h
          variable
          (ok (file ∷ files))).1
        ≡ ok tt
      → (m : Registry.Manifest) × (handle_get_manifest d
            (logic_apply_command yaml read sha256 now
              (connect d secret env r)
              c
              h
              variable
              (ok (file ∷ files))).0
            project_id
          ≡ respond 200 (manifest m))
        × AreBundlesOf sha256 configs m.bundles
        × All IsDeployable configs
        × Distinct (places configs)
  unfolding logic_apply_command apply_files manifest_of push_made push_manifest_to create_manifest
      dispatch
  get_manifest-logic_apply file files configs built good =
      let bundles = received_all (bundle_all yaml read sha256 now configs) in
      let e =
        ask_lem d secret env r c user project_id admits h (push_manifest (some bundles))
          (done (connect d secret env r) c) in
      let status =
        done_status d secret env r c user project_id admits _
          (sym (ap (λ x. x.1) e) ∙ rw (built, project) at good) in
      let (m, answered, it) = get_manifest-Pushed d log h sent user bundles status in
      let (deployable, different) =
        build_logic_configs_lem yaml read (file ∷ files) configs built in
      (
        m,
        rw (built, project) (ap (λ x. handle_get_manifest d x.0 project_id) e ∙ answered),
        rw it.content (bundles_lem sha256 now yaml read configs deployable),
        deployable,
        different,
      )
