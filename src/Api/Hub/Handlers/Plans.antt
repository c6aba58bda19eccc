-- ===== src/Api/Hub/Handlers/Plans.antt =====
-- The handlers of schemas and the schema service.
use santokit.Base.{
  ℕ, ◌≡◌, refl, sym, ap, ◌∙◌, inl, inr, Bool-cases, Option-cases, false, Option, none, some, List,
  [], ◌∷◌, arith, ltb, length, Text, lookup, Result, ok, err,
}
use santokit.Base.Strings.{trim_space}
use santokit.Schema.{Migration, PlanResult, Schemas, validate}
use santokit.Schema
use santokit.Schema.Atlas.{plan, apply, url_of, plan_native, remember}
use santokit.Schema.Atlas.Converges.{Settles, plan-apply}
use santokit.Schema.Atlas.Repeat.{plan_eq, remember_lem, remember_ok, plan_native_nothing}
use santokit.Api.Token.{blank}
use santokit.Api.Http.{Response, plan_result, failure, respond}
use santokit.Api.Hub.{Deps, Hub, Request}
use santokit.Api.Hub.Handlers.{
  answer, check_schemas, database_url, planned, plan_checked, plan_schemas, handle_schema_plan,
  applied, handle_schema_apply,
}

status_of : Option Response → ℕ
status_of none = 0
status_of (some r) = r.status

refused_status :
    (schemas : Schemas) (refused : Response)
    → check_schemas schemas ≡ some refused
    → refused.status ≡ 400
unfolding check_schemas status_of
refused_status [] refused h = cc
refused_status ((alias, hcl) ∷ schemas) refused h = elim (Bool-cases (blank alias)) [
  | inl unnamed ↦ ap (λ o. status_of o) (sym (rw unnamed at h))
  | inr named ↦ by_validation (refused_status schemas refused) (validate hcl) (rw named at h)
]
  where
    by_validation :
        (check_schemas schemas ≡ some refused → refused.status ≡ 400)
        → (v : Result (Unit {0}))
        → elim v [ err e ↦ some (respond 400 (failure e)) | ok _ ↦ check_schemas schemas ]
          ≡ some refused
        → refused.status ≡ 400
    by_validation later (err e) k = ap (λ o. status_of o) (sym k)
    by_validation later (ok _) k = later k

module _ (d : Deps) (h : Hub d) (r : Request) (alias content : Text) (rest : Schemas) where
  abbrev schemas : Schemas
  schemas = (alias, content) ∷ rest

  -- What the service plans for the request.
  abbrev pub plan_of : Schema.Service × Result PlanResult
  plan_of =
      plan d.atlas d.sha256 r.version h.schema h.databases
        (database_url d h (trim_space r.project_header)) (trim_space r.project_header) schemas

  pub handle_plan_eq :
      blank r.project_header ≡ false
      → check_schemas schemas ≡ none
      → handle_schema_plan d h r (some schemas) ≡ planned d h plan_of
  unfolding handle_schema_plan plan_schemas plan_checked
  handle_plan_eq named fine = rw (named, fine) refl

  pub planned_reply :
      (x : Schema.Service × Result PlanResult) (result : PlanResult)
      → x.1 ≡ ok result
      → (planned d h x).1 ≡ respond 200 (plan_result result)
  unfolding planned answer
  planned_reply x result e = rw e refl

  pub planned_hub :
      (x : Schema.Service × Result PlanResult) → (planned d h x).0 ≡ record h { schema = x.0 }
  unfolding planned
  planned_hub x = refl

  answered_plan :
      (x : Schema.Service × Result PlanResult) (result : PlanResult)
      → (planned d h x).1.status ≡ 200
      → (planned d h x).1.body ≡ plan_result result
      → x.1 ≡ ok result
  unfolding planned answer
  answered_plan (s, ok p) result good body =
      let same : plan_result p ≡ plan_result result = body in cc
  answered_plan (s, err e) result good body = absurd (omega (arith, good))

  pub handle_plan_ok :
      (result : PlanResult)
      → (handle_schema_plan d h r (some schemas)).1.status ≡ 200
      → (handle_schema_plan d h r (some schemas)).1.body ≡ plan_result result
      → (blank r.project_header ≡ false) × (check_schemas schemas ≡ none) × (plan_of.1 ≡ ok result)
  handle_plan_ok result good body = elim (Bool-cases (blank r.project_header)) [
    | inl missing ↦ absurd (unfold handle_schema_plan in omega (arith, rw missing at good))
    | inr named ↦ elim (Option-cases (check_schemas schemas)) [
      | inl fine ↦
          let e = handle_plan_eq named fine in
          (named, fine, answered_plan plan_of result (rw e at good) (rw e at body))
      | inr (refused, h') ↦ absurd (
          unfold handle_schema_plan plan_schemas plan_checked in
          omega (arith, refused_status schemas refused h', rw (named, h') at good))
    ]
  ]

-- A plan that succeeds and proposes nothing.
abbrev pub IsSettled : Result PlanResult → Type 0
IsSettled plan =
    (result : PlanResult) × (plan ≡ ok result)
    × (result.migrations ≡ [])
    × (result.has_changes ≡ false)

module _ (d : Deps) (laws : Settles d.atlas) (r : Request) (alias content : Text) (rest : Schemas)
    (url : Text) (c : d.atlas.Client) (named : blank r.project_header ≡ false) (h : Hub d)
    (has_url : url_of (database_url d h (trim_space r.project_header)) ≡ some url)
    (opened : d.atlas.open_ h.databases url ≡ some c) where
  abbrev after_plan : Hub d
  after_plan = record h { schema = (plan_of d h r alias content rest).0 }

  plan_of_native :
      (s : Schema.Service)
      → (plan_of d (record h { schema = s }) r alias content rest).1
        ≡ plan_native d.atlas d.sha256 r.version h.databases c
            (trim_space r.project_header)
            ((alias, content) ∷ rest)
  unfolding database_url
  plan_of_native s =
      ap (λ x. x.1)
        (plan_eq d.atlas d.sha256 r.version s h.databases
          (database_url d h (trim_space r.project_header)) url (trim_space r.project_header) alias
          content rest c has_url named opened)
      ∙ remember_lem d.atlas d.sha256 r.version s (trim_space r.project_header)
          ((alias, content) ∷ rest) _

  pub plan_says :
      (result : PlanResult)
      → (plan_of d h r alias content rest).1 ≡ ok result
      → result.has_changes ≡ ltb 0 (length result.migrations)
  plan_says result planned_it =
      plan_native_nothing d.atlas d.sha256 r.version h.databases c (trim_space r.project_header) _
        result (sym (plan_of_native h.schema) ∙ planned_it)

  -- A plan that proposes nothing is settled: planned again, it proposes nothing again.
  pub plan_again :
      (result : PlanResult)
      → (plan_of d h r alias content rest).1 ≡ ok result
      → result.migrations ≡ []
      → IsSettled (plan_of d after_plan r alias content rest).1
  plan_again result planned_it none_left =
      let native = sym (plan_of_native h.schema) ∙ planned_it in
      (
        result,
        plan_of_native (plan_of d h r alias content rest).0 ∙ native,
        none_left,
        plan_says result planned_it ∙ rw none_left refl,
      )

  remembered :
      (result : PlanResult)
      → (plan_of d h r alias content rest).1 ≡ ok result
      → lookup (trim_space r.project_header) after_plan.schema.last_planned
        ≡ some ((alias, content) ∷ rest)
  remembered result planned_it =
      let native = sym (plan_of_native h.schema) ∙ planned_it in
      let p = trim_space r.project_header in
      ap (λ x. lookup p x.0.last_planned)
        (plan_eq d.atlas d.sha256 r.version h.schema h.databases (database_url d h p) url p alias
          content rest c has_url named opened)
      ∙ ap
          (λ n.
            lookup p
              (remember d.atlas d.sha256 r.version h.schema p ((alias, content) ∷ rest)
                n).0.last_planned)
          native
      ∙ remember_ok d.atlas d.sha256 r.version h.schema p ((alias, content) ∷ rest) result

  -- An apply after a plan, which is answered with 200, settles the schemas.
  pub plan-apply_on_hub :
      (result : PlanResult) (ms : List Migration)
      → (plan_of d h r alias content rest).1 ≡ ok result
      → (handle_schema_apply d after_plan r (some ms)).1.status ≡ 200
      → IsSettled
          (plan_of d (handle_schema_apply d after_plan r (some ms)).0 r alias content rest).1
  unfolding handle_schema_apply
  plan-apply_on_hub result ms planned_it good = rw named (by_result _ refl (rw named at good))
    where
      by_result :
          (x : (Schema.Service × d.atlas.World) × Result (Unit {0}))
          → apply d.atlas after_plan.schema h.databases
              (database_url d h (trim_space r.project_header))
              (trim_space r.project_header)
              ms
            ≡ x
          → (applied d after_plan x).1.status ≡ 200
          → IsSettled (plan_of d (applied d after_plan x).0 r alias content rest).1
      by_result ((s', w'), ok _) e good =
          unfold applied answer database_url in
          plan-apply d.atlas laws d.sha256 r.version after_plan.schema s' h.databases w'
            (database_url d h (trim_space r.project_header)) url (trim_space r.project_header) alias
            content rest ms c has_url named opened (remembered result planned_it) e
      by_result (x, err failed) e good = absurd (unfold applied answer in omega (arith, good))
