-- ===== src/Schema/Local.antt =====
-- Planning and applying without a database.
use santokit.Base.{
  ◌≡◌, refl, sym, ap, ◌∙◌, ◌↔◌, false, Option, none, some, List, [], ◌∷◌, arith, if◌then◌else◌, ltb,
  length, Text, ◌==◌, eq_iff, eq_refl, lookup, insert, delete, lookup-insert, lookup-insert_self,
  lookup-delete, IsUnique, Reads, Reads-self, or_error, ok, err, no_planned_schemas_to_apply,
  schema_state_not_found,
}
use santokit.Base.Strings.{trim_space}
use santokit.Schema.{
  Migration, PlanResult, Schemas, Service, existing, is_current, mock_changes, plan_mock,
  apply_planned, apply_mock, get_state, normalize_hcl,
}

-- Every schema of the request agrees with the current state, up to white space around it.
abbrev pub IsUpToDate : Service → Text → Schemas → Type 0
IsUpToDate s p [] = Unit
IsUpToDate s p ((alias, desired) ∷ schemas) =
    (trim_space (existing s p alias) ≡ trim_space desired) × IsUpToDate s p schemas

has_changes_same : (a b : PlanResult) → ok a ≡ ok b → a.has_changes ≡ b.has_changes
has_changes_same a b e = cc

module _ (sha256 : Text → Text) (version : Text) where
  mock_changes_iff :
      (s : Service) (p : Text) (schemas : Schemas)
      → (ltb 0 (length (mock_changes sha256 version s p schemas)) ≡ false) ↔ IsUpToDate s p schemas
  unfolding mock_changes is_current normalize_hcl
  mock_changes_iff s p [] = ground arith
  mock_changes_iff s p ((alias, desired) ∷ schemas) = ground (
    arith,
    mock_changes_iff s p schemas,
    eq_iff (trim_space (existing s p alias)) (trim_space desired),
  )

  -- A local plan always succeeds, remembers the schemas of the request for the project, and reports
  -- no changes exactly when every one of them agrees with the current state up to outer white space.
  pub plan_mock_lem :
      (s : Service) (p : Text) (schemas : Schemas)
      → (result : PlanResult) × ((plan_mock sha256 version s p schemas).1 ≡ ok result)
        × ((result.has_changes ≡ false) ↔ IsUpToDate s p schemas)
        × (lookup p (plan_mock sha256 version s p schemas).0.last_planned ≡ some schemas)
  unfolding plan_mock
  plan_mock_lem s p schemas =
      (_, refl, mock_changes_iff s p schemas, lookup-insert_self p schemas s.last_planned)

  apply-plan :
      (s : Service) (p : Text) (schemas : Schemas) (ms : List Migration)
      → apply_mock (plan_mock sha256 version s p schemas).0 p ms ≡ (
        record {
          state = insert p schemas s.state;
          last_planned = delete p (insert p schemas s.last_planned);
        },
        ok tt,
      )
  unfolding apply_mock plan_mock
  apply-plan s p schemas ms = rw (lookup-insert_self, apply_planned)

  -- After a local plan and its application the project's state is the planned schemas, and no other
  -- project's state has changed.
  pub get_state-apply-plan :
      (s : Service) (p q alias : Text) (schemas : Schemas) (ms : List Migration)
      → get_state (apply_mock (plan_mock sha256 version s p schemas).0 p ms).0 q alias ≡ (
          if p == q
          then or_error (lookup alias schemas) schema_state_not_found
          else get_state s q alias)
  unfolding get_state
  get_state-apply-plan s p q alias schemas ms =
      rw apply-plan (ground (arith, lookup-insert p q schemas s.state))

  existing_after :
      (s : Service) (p : Text) (whole schemas : Schemas) (ms : List Migration)
      → Reads whole schemas
      → IsUpToDate (apply_mock (plan_mock sha256 version s p whole).0 p ms).0 p schemas
  existing_after s p whole [] ms h = tt
  existing_after s p whole ((alias, desired) ∷ schemas) ms (e, h) = (
    ap trim_space (rw apply-plan (unfold existing in simp lookup-insert_self (rw e))),
    existing_after s p whole schemas ms h,
  )

  -- Planning the same schemas, without a repeated alias, again after they were applied reports no
  -- changes, where it succeeds; `plan_mock_lem` says that it always does.
  pub plan-apply-plan :
      (s : Service) (p : Text) (schemas : Schemas) (ms : List Migration) (result : PlanResult)
      → IsUnique schemas
      → (plan_mock sha256 version
          (apply_mock (plan_mock sha256 version s p schemas).0 p ms).0
          p
          schemas).1
        ≡ ok result
      → result.has_changes ≡ false
  plan-apply-plan s p schemas ms result unique e =
      let s' = (apply_mock (plan_mock sha256 version s p schemas).0 p ms).0 in
      let (found, same, exact, _) = plan_mock_lem s' p schemas in
      rw (has_changes_same result found (sym e ∙ same))
        (exact.1 (existing_after s p schemas schemas ms (Reads-self schemas unique)))

planned_gone :
    (s : Service) (p : Text) (ms : List Migration) (planned : Option Schemas)
    → lookup p s.last_planned ≡ planned
    → lookup p (apply_planned s p ms planned).0.last_planned ≡ none
unfolding apply_planned
planned_gone s p [] none e = e
planned_gone s p (_ ∷ _) none e = e
planned_gone s p [] (some planned) e = simp (lookup-delete, eq_refl)
planned_gone s p (_ ∷ _) (some planned) e = simp (lookup-delete, eq_refl)

-- A plan is applied once: whatever was planned, after an `Apply` a second one with migrations fails
-- and changes nothing.
pub apply_mock_twice :
    (s : Service) (p : Text) (ms : List Migration) (m : Migration) (ms' : List Migration)
    → apply_mock (apply_mock s p ms).0 p (m ∷ ms')
      ≡ ((apply_mock s p ms).0, err no_planned_schemas_to_apply)
unfolding apply_mock
apply_mock_twice s p ms m ms' =
    rw (planned_gone s p ms (lookup p s.last_planned) refl, apply_planned)
