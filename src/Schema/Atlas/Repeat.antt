-- ===== src/Schema/Atlas/Repeat.antt =====
-- What a plan over a client says, and what it leaves behind.
use santokit.Base.{
  ltb, ◌≡◌, refl, false, some, ◌∷◌, is_empty, length, Text, lookup, lookup-insert_self, Result, ok,
  err, >>=-eq-ok,
}
use santokit.Schema.{PlanResult, Schemas, Service}
use santokit.Schema.Atlas.{
  Atlas, url_of, connect, changes_to, native_migrations, native_result, plan_native, remember,
  plan_on, plan,
}

module _ (atlas : Atlas) (sha256 : Text → Text) (version : Text) where
  pub plan_eq :
      (s : Service) (w : atlas.World) (db_url : Result Text) (url p alias content : Text)
      (rest : Schemas) (c : atlas.Client)
      → url_of db_url ≡ some url
      → is_empty p ≡ false
      → atlas.open_ w url ≡ some c
      → plan atlas sha256 version s w db_url p ((alias, content) ∷ rest)
        ≡ remember atlas sha256 version s p
            ((alias, content) ∷ rest)
            (plan_native atlas sha256 version w c p ((alias, content) ∷ rest))
  unfolding plan plan_on connect
  plan_eq s w db_url url p alias content rest c has_url named opened =
      rw (named, has_url, opened) refl

  pub remember_lem :
      (s : Service) (p : Text) (schemas : Schemas) (r : Result PlanResult)
      → (remember atlas sha256 version s p schemas r).1 ≡ r
  unfolding remember
  remember_lem s p schemas (ok result) = refl
  remember_lem s p schemas (err e) = refl

  pub remember_ok :
      (s : Service) (p : Text) (schemas : Schemas) (result : PlanResult)
      → lookup p (remember atlas sha256 version s p schemas (ok result)).0.last_planned
        ≡ some schemas
  unfolding remember
  remember_ok s p schemas result = lookup-insert_self p schemas s.last_planned

  -- A plan that says that nothing changes has no migrations, and one without migrations says so.
  pub plan_native_nothing :
      (w : atlas.World) (c : atlas.Client) (p : Text) (schemas : Schemas) (result : PlanResult)
      → plan_native atlas sha256 version w c p schemas ≡ ok result
      → result.has_changes ≡ ltb 0 (length result.migrations)
  unfolding plan_native native_result
  plan_native_nothing w c p schemas result h =
      let (changes, _, h') = >>=-eq-ok (changes_to atlas w c schemas) _ h in
      let (ms, _, h'') =
        >>=-eq-ok (native_migrations atlas sha256 version c p schemas changes) _ h' in
      let same : native_result atlas sha256 version ms ≡ result = cc in rw (← same) refl
