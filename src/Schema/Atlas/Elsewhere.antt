-- ===== src/Schema/Atlas/Elsewhere.antt =====
-- Planning and applying one project leaves the plan and the state of every other.
use santokit.Base.{
  ◌≡◌, ◌≢◌, refl, inl, inr, Bool-cases, Bool, true, false, Option, none, some, List, [], ◌∷◌, arith,
  is_empty, Text, eq_iff, Map, lookup, insert, delete, lookup-insert, lookup-delete, Result, ok,
  err,
}
use santokit.Schema.{Migration, PlanResult, Schemas, Service, plan_mock, apply_mock, apply_planned}
use santokit.Schema.Atlas.{
  Atlas, url_of, connect, no_schemas, plan_native, remember, plan_on, plan, after_changes, finish,
  in_local_mode, apply_on, apply_planned_on, apply_at, apply,
}

module _ (p q : Text) (n : q ≢ p) (m : Map Schemas) where
  lookup-delete_other : lookup p (delete q m) ≡ lookup p m
  lookup-delete_other = ground (arith, lookup-delete q p m, eq_iff q p, n)

  lookup-insert_other : (schemas : Schemas) → lookup p (insert q schemas m) ≡ lookup p m
  lookup-insert_other schemas = ground (arith, lookup-insert q p schemas m, eq_iff q p, n)

-- The service has the same plan and the same state of the project.
abbrev pub AreSame : Text → Service → Service → Type 0
AreSame p s s' =
    (lookup p s'.last_planned ≡ lookup p s.last_planned) × (lookup p s'.state ≡ lookup p s.state)

module _ (atlas : Atlas) (sha256 : Text → Text) (p q : Text) (n : q ≢ p) where
  apply_planned_elsewhere :
      (s : Service) (ms : List Migration) (found : Option Schemas)
      → AreSame p s (apply_planned s q ms found).0
  unfolding apply_planned
  apply_planned_elsewhere s [] none = (refl, refl)
  apply_planned_elsewhere s (_ ∷ _) none = (refl, refl)
  apply_planned_elsewhere s [] (some x) =
      (lookup-delete_other p q n s.last_planned, lookup-insert_other p q n s.state x)
  apply_planned_elsewhere s (_ ∷ _) (some x) =
      (lookup-delete_other p q n s.last_planned, lookup-insert_other p q n s.state x)

  apply_mock_elsewhere : (s : Service) (ms : List Migration) → AreSame p s (apply_mock s q ms).0
  unfolding apply_mock
  apply_mock_elsewhere s ms = apply_planned_elsewhere s ms (lookup q s.last_planned)

  finish_elsewhere :
      (s : Service) (w : atlas.World) (c : atlas.Client) (changes : Result (List atlas.Change))
      → AreSame p s (finish atlas s w q c changes).0.0
  unfolding finish after_changes
  finish_elsewhere s w c (err e) = (refl, refl)
  finish_elsewhere s w c (ok []) = (refl, refl)
  finish_elsewhere s w c (ok (change ∷ changes)) =
      after (atlas.apply_changes w c (change ∷ changes))
    where
      after : (x : atlas.World × Bool) → AreSame p s (after_changes atlas s q x).0.0
      after (w', true) = (lookup-delete_other p q n s.last_planned, refl)
      after (w', false) = (refl, refl)

  apply_planned_on_elsewhere :
      (s : Service) (w : atlas.World) (ms : List Migration) (url : Text) (found : Option Schemas)
      → AreSame p s (apply_planned_on atlas s w q ms url found).0.0
  unfolding apply_planned_on apply_on in_local_mode
  apply_planned_on_elsewhere s w ms url none = (refl, refl)
  apply_planned_on_elsewhere s w ms url (some []) = (refl, refl)
  apply_planned_on_elsewhere s w ms url (some (x ∷ schemas)) = on (atlas.open_ w url)
    where
      on :
          (client : Option atlas.Client)
          → AreSame p s (apply_on atlas s w q ms (x ∷ schemas) client).0.0
      on none = apply_mock_elsewhere s ms
      on (some c) = finish_elsewhere s w c _

  pub apply_elsewhere :
      (s : Service) (w : atlas.World) (db_url : Result Text) (ms : List Migration)
      → AreSame p s (apply atlas s w db_url q ms).0.0
  unfolding apply apply_at in_local_mode
  apply_elsewhere s w db_url ms = elim (Bool-cases (is_empty q)) [
    | inl unnamed ↦ rw unnamed (refl, refl)
    | inr named ↦ rw named (at (url_of db_url))
  ]
    where
      at : (url : Option Text) → AreSame p s (apply_at atlas s w q ms url).0.0
      at none = apply_mock_elsewhere s ms
      at (some url) = apply_planned_on_elsewhere s w ms url (lookup q s.last_planned)

  plan_on_elsewhere :
      (version : Text) (s : Service) (w : atlas.World) (schemas : Schemas)
      (client : Option atlas.Client)
      → AreSame p s (plan_on atlas sha256 version s w q schemas client).0
  unfolding plan_on plan_mock remember
  plan_on_elsewhere version s w schemas none =
      (lookup-insert_other p q n s.last_planned schemas, refl)
  plan_on_elsewhere version s w schemas (some c) =
      result (plan_native atlas sha256 version w c q schemas)
    where
      result : (r : Result PlanResult) → AreSame p s (remember atlas sha256 version s q schemas r).0
      result (err e) = (refl, refl)
      result (ok r) = (lookup-insert_other p q n s.last_planned schemas, refl)

  pub plan_elsewhere :
      (version : Text) (s : Service) (w : atlas.World) (db_url : Result Text) (schemas : Schemas)
      → AreSame p s (plan atlas sha256 version s w db_url q schemas).0
  unfolding plan
  plan_elsewhere version s w db_url schemas = elim (Bool-cases (is_empty q)) [
    | inl unnamed ↦ rw unnamed (refl, refl)
    | inr named ↦ elim (Bool-cases (no_schemas schemas)) [
      | inl nothing ↦ rw (named, nothing) (refl, refl)
      | inr something ↦
          rw (named, something)
            (plan_on_elsewhere version s w schemas (connect atlas w (url_of db_url)))
    ]
  ]
