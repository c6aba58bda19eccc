-- ===== src/Provisioner/Laws.antt =====
-- Which requests have reached the edge.
use santokit.Base.{ℕ, ◌≡◌, refl, ap, Option, List, [], ◌∷◌, ◌++◌, Result, ok, err, Error}
use santokit.Provisioner.{EdgeBundle, Config, KvRequest, upload_bundle, next_step, provision}

module _ {W : Type 0} (send : W → KvRequest → W × Option ℕ) (config : Config) where
  -- Uploads that were accepted, one after the other.
  pub data Uploaded : W → List EdgeBundle → W → Type 0 where
    nothing : {w : W} → Uploaded w [] w
    upload :
        {w w' w'' : W} {bundle : EdgeBundle} {bundles : List EdgeBundle}
        → upload_bundle send config w bundle ≡ (w', ok tt)
        → Uploaded w' bundles w''
        → Uploaded w (bundle ∷ bundles) w''

  -- Where an upload stopped: the bundles before it were uploaded, and it was refused.
  pub record Stopped (w : W) (bundles : List EdgeBundle) (w' : W) (e : Error) : Type 0 where
    pub before : List EdgeBundle
    pub refused : EdgeBundle
    pub after : List EdgeBundle
    pub split : bundles ≡ before ++ refused ∷ after
    pub reached : W
    pub uploaded : Uploaded w before reached
    pub refusal : upload_bundle send config reached refused ≡ (w', err e)

  refused_further_on :
      {w w1 w' : W} {bundle : EdgeBundle} {bundles : List EdgeBundle} {e : Error}
      → upload_bundle send config w bundle ≡ (w1, ok tt)
      → Stopped w1 bundles w' e
      → Stopped w (bundle ∷ bundles) w' e
  refused_further_on {bundle} first s = record {
    before = bundle ∷ s.before;
    refused = s.refused;
    after = s.after;
    split = ap (λ t. bundle ∷ t) s.split;
    reached = s.reached;
    uploaded = upload first s.uploaded;
    refusal = s.refusal;
  }

  -- What a `Provision` did, by its result.
  abbrev pub Did : W → List EdgeBundle → W → Result (Unit {0}) → Type 0
  Did w bundles w' (ok _) = Uploaded w bundles w'
  Did w bundles w' (err e) = Stopped w bundles w' e

  -- A `Provision` that succeeds has uploaded every bundle in order, each accepted; one that fails has
  -- uploaded those before some bundle, and it is that bundle's refusal that it returns.
  pub provision_lem :
      (w : W) (bundles : List EdgeBundle)
      → Did w bundles (provision send config w bundles).0 (provision send config w bundles).1
  unfolding provision next_step
  provision_lem w [] = nothing
  provision_lem w (bundle ∷ bundles) =
      by_first (upload_bundle send config w bundle) refl (λ w'. provision_lem w' bundles)
    where
      later :
          (w1 w' : W) (r : Result (Unit {0}))
          → upload_bundle send config w bundle ≡ (w1, ok tt)
          → Did w1 bundles w' r
          → Did w (bundle ∷ bundles) w' r
      later w1 w' (ok _) first did = upload first did
      later w1 w' (err e) first did = refused_further_on first did

      by_first :
          (x : W × Result (Unit {0}))
          → upload_bundle send config w bundle ≡ x
          → ((w' : W)
              → Did w' bundles
                  (provision send config w' bundles).0
                  (provision send config w' bundles).1)
          → Did w
              (bundle ∷ bundles)
              (next_step send config x (λ w'. provision send config w' bundles)).0
              (next_step send config x (λ w'. provision send config w' bundles)).1
      by_first (w1, ok _) e rest = later w1 _ _ e (rest w1)
      by_first (w1, err failed) e rest = record {
        before = [];
        refused = bundle;
        after = bundles;
        split = refl;
        reached = w;
        uploaded = nothing;
        refusal = e;
      }
