-- ===== src/Schema/Atlas/Converges.antt =====
-- Planning and applying against a database: failures keep the plan, and an applied plan leaves
-- nothing to plan.
use santokit.Base.{
  ◌≡◌, refl, ap, inl, inr, Bool-cases, Bool, true, false, Option, none, some, List, [], ◌∷◌,
  is_empty, Text, lookup, Result, ok, err, or_error, Error, inspect_failed, eval_failed, >>=-eq-ok,
}
use santokit.Schema.{Migration, PlanResult, Schemas, Service, apply_mock, apply_planned}
use santokit.Schema.Atlas.{
  Atlas, changes_to, eval_hcl, combine, url_of, plan_native, native_result, plan, after_changes,
  finish, in_local_mode, apply_on, apply_planned_on, apply_at, apply,
}

-- What the service relies on: after all changes were applied the database is still there, and does
-- not differ from the realm that the changes lead to.
pub record Settles (atlas : Atlas) : Type 0 where
  pub reopens :
      (w : atlas.World) (url : Text) (c : atlas.Client) (changes : List atlas.Change)
      → atlas.open_ w url ≡ some c
      → atlas.open_ (atlas.apply_changes w c changes).0 url ≡ some c
  pub settled :
      (w w' : atlas.World) (c : atlas.Client) (current desired : atlas.Realm)
      (changes : List atlas.Change)
      → atlas.inspect w c ≡ some current
      → atlas.diff c current desired ≡ some changes
      → atlas.apply_changes w c changes ≡ (w', true)
      → (current' : atlas.Realm) × (atlas.inspect w' c ≡ some current')
        × (atlas.diff c current' desired ≡ some [])

or_error-eq-ok {ℓ} :
    {A : Type ℓ} (o : Option A) (e : Error) {a : A} → or_error o e ≡ ok a → o ≡ some a
or_error-eq-ok none e h = cc
or_error-eq-ok (some a) e h = cc

apply_mock_refused :
    (s : Service) (p : Text) (ms : List Migration) (e : Error)
    → (apply_mock s p ms).1 ≡ err e
    → (apply_mock s p ms).0 ≡ s
unfolding apply_mock
apply_mock_refused s p ms e = go ms (lookup p s.last_planned)
  where
    go :
        (ms : List Migration) (planned : Option Schemas)
        → (apply_planned s p ms planned).1 ≡ err e
        → (apply_planned s p ms planned).0 ≡ s
    go [] none h = refl
    go (_ ∷ _) none h = refl
    go [] (some _) h = cc
    go (_ ∷ _) (some _) h = cc

module _ (atlas : Atlas) (s : Service) (w : atlas.World) (p : Text) (ms : List Migration)
    (e : Error) where
  after_changes_refused :
      (applied : atlas.World × Bool)
      → (after_changes atlas s p applied).1 ≡ err e
      → (after_changes atlas s p applied).0.0 ≡ s
  unfolding after_changes
  after_changes_refused (w', true) h = cc
  after_changes_refused (w', false) h = refl

  finish_refused :
      (c : atlas.Client) (changes : Result (List atlas.Change))
      → (finish atlas s w p c changes).1 ≡ err e
      → (finish atlas s w p c changes).0.0 ≡ s
  unfolding finish
  finish_refused c (err _) h = refl
  finish_refused c (ok []) h = refl
  finish_refused c (ok (change ∷ changes)) h =
      after_changes_refused (atlas.apply_changes w c (change ∷ changes)) h

  apply_on_refused :
      (schemas : Schemas) (client : Option atlas.Client)
      → (apply_on atlas s w p ms schemas client).1 ≡ err e
      → (apply_on atlas s w p ms schemas client).0.0 ≡ s
  unfolding apply_on in_local_mode
  apply_on_refused schemas none h = apply_mock_refused s p ms e h
  apply_on_refused schemas (some c) h = finish_refused c (changes_to atlas w c schemas) h

  apply_planned_on_refused :
      (url : Text) (planned : Option Schemas)
      → (apply_planned_on atlas s w p ms url planned).1 ≡ err e
      → (apply_planned_on atlas s w p ms url planned).0.0 ≡ s
  unfolding apply_planned_on
  apply_planned_on_refused url none h = refl
  apply_planned_on_refused url (some []) h = refl
  apply_planned_on_refused url (some (x ∷ schemas)) h =
      apply_on_refused (x ∷ schemas) (atlas.open_ w url) h

  apply_at_refused :
      (url : Option Text)
      → (apply_at atlas s w p ms url).1 ≡ err e
      → (apply_at atlas s w p ms url).0.0 ≡ s
  unfolding apply_at in_local_mode
  apply_at_refused none h = apply_mock_refused s p ms e h
  apply_at_refused (some url) h = apply_planned_on_refused url (lookup p s.last_planned) h

  apply_named :
      (db_url : Result Text)
      → is_empty p ≡ false
      → apply atlas s w db_url p ms ≡ apply_at atlas s w p ms (url_of db_url)
  unfolding apply
  apply_named db_url named = rw named

  apply_unnamed : (db_url : Result Text) → is_empty p ≡ true → (apply atlas s w db_url p ms).0.0 ≡ s
  unfolding apply
  apply_unnamed db_url unnamed = rw unnamed

  -- An `Apply` that fails, for whatever reason and in either mode, leaves the recorded states and plans
  -- as they were, so that it can be tried again.
  pub apply_refused :
      (db_url : Result Text)
      → (apply atlas s w db_url p ms).1 ≡ err e
      → (apply atlas s w db_url p ms).0.0 ≡ s
  apply_refused db_url h = elim (Bool-cases (is_empty p)) [
    | inl unnamed ↦ apply_unnamed db_url unnamed
    | inr named ↦
        rw (apply_named db_url named)
          (apply_at_refused (url_of db_url) (rw (apply_named db_url named) at h))
  ]

module _ (atlas : Atlas) (laws : Settles atlas) where
  changes_to-settled :
      (w w' : atlas.World) (c : atlas.Client) (schemas : Schemas) (changes : List atlas.Change)
      → changes_to atlas w c schemas ≡ ok changes
      → atlas.apply_changes w c changes ≡ (w', true)
      → changes_to atlas w' c schemas ≡ ok []
  unfolding changes_to
  changes_to-settled w w' c schemas changes h applied =
      let (current, inspected, h') = >>=-eq-ok (or_error (atlas.inspect w c) inspect_failed) _ h in
      let (desired, evaluated, h'') =
        >>=-eq-ok (or_error (eval_hcl atlas (atlas.name c) (combine schemas)) eval_failed) _ h' in
      let (current', inspected', same) =
        laws.settled w w' c current desired changes (or_error-eq-ok _ _ inspected)
          (or_error-eq-ok _ _ h'') applied in
      rw (inspected', evaluated, same)

  ok_or_err :
      {s s' : Service} {w w' : atlas.World} {e : Error}
      → ◌≡◌ {A = (Service × atlas.World) × Result (Unit {0})} ((s, w), err e) ((s', w'), ok tt)
      → ⊥
  ok_or_err h = cc

  applied_all :
      (s s' : Service) (w' : atlas.World) (p : Text) (applied : atlas.World × Bool)
      → after_changes atlas s p applied ≡ ((s', w'), ok tt)
      → applied ≡ (w', true)
  unfolding after_changes
  applied_all s s' w' p (w, true) h =
      ap (λ (r : (Service × atlas.World) × Result (Unit {0})). (r.0.1, true)) h
  applied_all s s' w' p (w, false) h = absurd (ok_or_err h)

  finish-settled :
      (s s' : Service) (w w' : atlas.World) (p url : Text) (c : atlas.Client) (schemas : Schemas)
      (changes : Result (List atlas.Change))
      → atlas.open_ w url ≡ some c
      → changes_to atlas w c schemas ≡ changes
      → finish atlas s w p c changes ≡ ((s', w'), ok tt)
      → (atlas.open_ w' url ≡ some c) × (changes_to atlas w' c schemas ≡ ok [])
  unfolding finish
  finish-settled s s' w w' p url c schemas (err _) opened h done = absurd (ok_or_err done)
  finish-settled s s' w w' p url c schemas (ok []) opened h done =
      let same : w ≡ w' = ap (λ (r : (Service × atlas.World) × Result (Unit {0})). r.0.1) done in
      rw (← same) (opened, h)
  finish-settled s s' w w' p url c schemas (ok (change ∷ changes)) opened h done =
      let applied = applied_all s s' w' p (atlas.apply_changes w c (change ∷ changes)) done in
      (
        rw (ap (λ (r : atlas.World × Bool). r.0) applied) at
            (laws.reopens w url c (change ∷ changes) opened),
        changes_to-settled w w' c schemas (change ∷ changes) h applied,
      )

  plan_settled :
      (sha256 : Text → Text) (version : Text) (s : Service) (w : atlas.World) (db_url : Result Text)
      (url p alias content : Text) (rest : Schemas) (c : atlas.Client)
      → url_of db_url ≡ some url
      → is_empty p ≡ false
      → atlas.open_ w url ≡ some c
      → changes_to atlas w c ((alias, content) ∷ rest) ≡ ok []
      → (result : PlanResult) × ((plan atlas sha256 version s w db_url p
            ((alias, content) ∷ rest)).1
          ≡ ok result)
        × (result.migrations ≡ [])
        × (result.has_changes ≡ false)
  unfolding plan plan_native
  plan_settled sha256 version s w db_url url p alias content rest c has_url named opened none_left =
      (native_result atlas sha256 version [], rw (named, has_url, opened, none_left), refl, refl)

  -- Where applied changes settle a database, after an `Apply` against a database that opens
  -- succeeded with the non-empty schemas planned for the project, a `Plan` of the same schemas
  -- succeeds and proposes nothing.
  pub plan-apply :
      (sha256 : Text → Text) (version : Text) (s s' : Service) (w w' : atlas.World)
      (db_url : Result Text) (url p alias content : Text) (rest : Schemas) (ms : List Migration)
      (c : atlas.Client)
      → url_of db_url ≡ some url
      → is_empty p ≡ false
      → atlas.open_ w url ≡ some c
      → lookup p s.last_planned ≡ some ((alias, content) ∷ rest)
      → apply atlas s w db_url p ms ≡ ((s', w'), ok tt)
      → (result : PlanResult) × ((plan atlas sha256 version s' w' db_url p
            ((alias, content) ∷ rest)).1
          ≡ ok result)
        × (result.migrations ≡ [])
        × (result.has_changes ≡ false)
  plan-apply sha256 version s s' w w' db_url url p alias content rest ms c has_url named opened
        planned done =
      let (opened', none_left) =
        finish-settled s s' w w' p url c ((alias, content) ∷ rest) _ opened refl
          (unfold apply in rw (named, has_url, planned, opened) at done) in
      plan_settled sha256 version s' w' db_url url p alias content rest c has_url named opened'
        none_left
