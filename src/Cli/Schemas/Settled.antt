-- ===== src/Cli/Schemas/Settled.antt =====
-- `schema plan` after `schema apply`, against the hub.
use santokit.Base.{
  ℕ, ◌≡◌, refl, ap, ◌∙◌, inl, inr, Bool-cases, true, false, not, ◌||◌, Option, none, some, List, [],
  ◌∷◌, arith, eqb, hub_error, ltb, length, Text, Result, ok, err, ◌>>=◌,
}
use santokit.Base.Strings.{trim_space}
use santokit.Schema.{Migration, PlanResult, Schemas}
use santokit.Schema.Atlas.{url_of}
use santokit.Schema.Atlas.Converges.{Settles}
use santokit.Api.Token.{blank}
use santokit.Api.Http.{Body, plan_result, Response}
use santokit.Api.Auth.{AuthEnv, admitted, auth_middleware}
use santokit.Api.Hub.{Deps, Hub, Request, schema_plan, schema_apply}
use santokit.Api.Hub.Handlers.{
  dispatch, database_url, planned, check_schemas, handle_schema_plan, handle_schema_apply,
}
use santokit.Api.Hub.Handlers.Plans.{
  plan_of, handle_plan_eq, handle_plan_ok, planned_reply, planned_hub, plan_says, IsSettled,
  plan_again, plan-apply_on_hub,
}
use santokit.Cli.Scanner.{ScannedFile}
use santokit.Cli.Client.{ClientConfig, headers, done, checked, plan_in, plan_schema, apply_schema}
use santokit.Cli.Client.Laws.{connect, request, ask_lem, done_status}
use santokit.Cli.Configs.{project_of}
use santokit.Cli.Schemas.{
  Outcome, nothing_in, no_migrations, load_schema_files, schema_apply_command, schema_plan_command,
  reported, apply_plan, plan_then, apply_to, apply_loaded, shown, plan_for, plan_loaded,
}

decoded : (body : Body) (result : PlanResult) → plan_in body ≡ ok result → body ≡ plan_result result
unfolding plan_in
decoded (plan_result p) result e = cc
decoded body result e = absurd (cc)

plan_body :
    (reply : Response) (result : PlanResult)
    → (checked (some reply) >>= plan_in) ≡ ok result
    → (reply.status ≡ 200) × (reply.body ≡ plan_result result)
unfolding checked
plan_body reply result e = elim (Bool-cases (eqb reply.status 200)) [
  | inl good ↦ (ground (arith, good), decoded reply.body result (rw good at e))
  | inr bad ↦ absurd (let impossible : err hub_error ≡ ok result = rw bad at e in cc)
]

none_left :
    (result : PlanResult) (ms : List Migration)
    → (not result.has_changes || no_migrations ms) ≡ true
    → result.has_changes ≡ ltb 0 (length ms)
    → ms ≡ []
unfolding no_migrations
none_left result [] nothing says = refl
none_left result (m ∷ ms) nothing says = ground (arith, nothing, says)

module _ (d : Deps) (secret : Text) (env : AuthEnv) (r : Request) (c : ClientConfig) where
  -- `schema plan` succeeds and proposes nothing.
  abbrev pub ShowsNothing : Hub d → Text → (Text → Option Text) → Result (List ScannedFile) → Type 0
  ShowsNothing h variable read scan =
      (result : PlanResult) × ((schema_plan_command (connect d secret env r) c h variable read
          scan).1
        ≡ ok (some result))
      × (result.migrations ≡ [])
      × (result.has_changes ≡ false)

module _ (d : Deps) (laws : Settles d.atlas) (secret : Text) (env : AuthEnv) (r : Request)
    (c : ClientConfig) (user project_id : Text)
    (admits : auth_middleware d.codec secret r.now env (headers c project_id).authorization
      ≡ admitted user)
    (alias content : Text) (rest : Schemas) (url : Text) (db : d.atlas.Client) where
  abbrev sent : Request
  sent = request d secret env r c user project_id admits

  plan_schema_eq :
      (h : Hub d)
      → plan_schema (connect d secret env r) c h project_id ((alias, content) ∷ rest) ≡ (
        (handle_schema_plan d h sent (some ((alias, content) ∷ rest))).0,
        checked (some (handle_schema_plan d h sent (some ((alias, content) ∷ rest))).1) >>= plan_in,
      )
  unfolding plan_schema dispatch
  plan_schema_eq h =
      ask_lem d secret env r c user project_id admits h
        (schema_plan (some ((alias, content) ∷ rest))) (λ x. checked x >>= plan_in)

  apply_schema_eq :
      (h : Hub d) (ms : List Migration)
      → apply_schema (connect d secret env r) c h project_id ms ≡ (
        (handle_schema_apply d h sent (some ms)).0,
        done (connect d secret env r) c (some (handle_schema_apply d h sent (some ms)).1),
      )
  unfolding apply_schema dispatch
  apply_schema_eq h ms =
      ask_lem d secret env r c user project_id admits h (schema_apply (some ms))
        (done (connect d secret env r) c)

  reported_state :
      (n : ℕ) (s : Hub d) (q : Result (Unit {0}))
      → (reported (connect d secret env r) c n (s, q)).0 ≡ s
  unfolding reported
  reported_state n s (ok _) = refl
  reported_state n s (err e) = refl

  reported_ok :
      (n : ℕ) (s : Hub d) (q : Result (Unit {0})) (outcome : Outcome)
      → (reported (connect d secret env r) c n (s, q)).1 ≡ ok outcome
      → q ≡ ok tt
  unfolding reported
  reported_ok n s (ok _) outcome h = refl
  reported_ok n s (err e) outcome h = absurd (let impossible : err e ≡ ok outcome = h in cc)

  -- What `schema plan` shows where the schemas are settled.
  shows :
      (h : Hub d) (variable : Text) (read : Text → Option Text) (scan : Result (List ScannedFile))
      → project_of c variable ≡ ok project_id
      → load_schema_files read scan ≡ ok ((alias, content) ∷ rest)
      → blank project_id ≡ false
      → check_schemas ((alias, content) ∷ rest) ≡ none
      → IsSettled (plan_of d h sent alias content rest).1
      → ShowsNothing d secret env r c h variable read scan
  unfolding schema_plan_command plan_loaded plan_for shown checked plan_in
  shows h variable read scan project loaded named fine (result, planned_it, none_there, unchanged) =
      (
        result,
        rw (loaded, project)
            (ap (λ x. (shown (connect d secret env r) c x).1) (plan_schema_eq h)
              ∙ ap (λ x. (shown (connect d secret env r) c (x.0, checked (some x.1) >>= plan_in)).1)
                  (handle_plan_eq d h sent alias content rest named fine)
              ∙ ap
                  (λ x.
                    (shown (connect d secret env r) c (
                      (planned d h (plan_of d h sent alias content rest)).0,
                      checked (some x) >>= plan_in,
                    )).1)
                  (planned_reply d h sent alias content rest (plan_of d h sent alias content rest)
                    result planned_it)),
        none_there,
        unchanged,
      )

  module _ (h : Hub d) (variable : Text) (read : Text → Option Text)
      (scan : Result (List ScannedFile)) (outcome : Outcome)
      (project : project_of c variable ≡ ok project_id)
      (loaded : load_schema_files read scan ≡ ok ((alias, content) ∷ rest))
      (has_url : url_of (database_url d h (trim_space project_id)) ≡ some url)
      (opened : d.atlas.open_ h.databases url ≡ some db) where
    -- The hub's answer to the plan of the command.
    abbrev reply : Hub d × Response
    reply = handle_schema_plan d h sent (some ((alias, content) ∷ rest))

    after_apply :
        (result : PlanResult)
        → blank project_id ≡ false
        → check_schemas ((alias, content) ∷ rest) ≡ none
        → (plan_of d h sent alias content rest).1 ≡ ok result
        → reply.0 ≡ record h { schema = (plan_of d h sent alias content rest).0 }
        → (apply_plan (connect d secret env r) c true project_id result reply.0).1 ≡ ok outcome
        → ShowsNothing d secret env r c
            (apply_plan (connect d secret env r) c true project_id result reply.0).0
            variable
            read
            scan
    unfolding apply_plan
    after_apply result named fine planned_it same good = elim (Bool-cases (nothing_in result)) [
      | inl nothing ↦
          rw (nothing, same)
            (shows _ variable read scan project loaded named fine (
              plan_again d laws sent alias content rest url db named h has_url opened result
                planned_it
                (none_left result result.migrations (unfold nothing_in in nothing) (
                  plan_says d laws sent alias content rest url db named h has_url opened result
                    planned_it))))
      | inr something ↦
          let ms = result.migrations in
          let hub : Hub d = record h { schema = (plan_of d h sent alias content rest).0 } in
          let answered =
            done (connect d secret env r) c (some (handle_schema_apply d hub sent (some ms)).1) in
          let good' : (reported (connect d secret env r) c (length ms)
                ((handle_schema_apply d hub sent (some ms)).0, answered)).1
              ≡ ok outcome =
            rw (something, same, apply_schema_eq hub ms) at good in
          rw
            (
              something,
              same,
              apply_schema_eq hub ms,
              reported_state (length ms) (handle_schema_apply d hub sent (some ms)).0 answered,
            )
            (shows _ variable read scan project loaded named fine (
              plan-apply_on_hub d laws sent alias content rest url db named h has_url opened result
                ms planned_it
                (done_status d secret env r c user project_id admits
                  (handle_schema_apply d hub sent (some ms)).1
                  (reported_ok (length ms) (handle_schema_apply d hub sent (some ms)).0 answered
                    outcome good'))))
    ]

    by_plan :
        (q : Result PlanResult)
        → (checked (some reply.1) >>= plan_in) ≡ q
        → (plan_then (connect d secret env r) c true project_id (reply.0, q)).1 ≡ ok outcome
        → ShowsNothing d secret env r c
            (plan_then (connect d secret env r) c true project_id (reply.0, q)).0
            variable
            read
            scan
    unfolding plan_then
    by_plan (err failed) e good = absurd (let impossible : err failed ≡ ok outcome = good in cc)
    by_plan (ok result) e good =
        let (status, body) = plan_body reply.1 result e in
        let (named, fine, planned_it) =
          handle_plan_ok d h sent alias content rest result status body in
        after_apply result named fine planned_it
          (ap (λ x. x.0) (handle_plan_eq d h sent alias content rest named fine)
            ∙ planned_hub d h sent alias content rest (plan_of d h sent alias content rest))
          good

    -- Against a hub that admits the client and knows a database of the project that opens, and where
    -- applied changes settle a database, an agreed `schema apply` of at least one file that succeeds,
    -- whether it had anything to apply or not, makes the next `schema plan` of the same files succeed
    -- and propose nothing.
    pub schema_plan-schema_apply :
        (schema_apply_command (connect d secret env r) c true h variable read scan).1 ≡ ok outcome
        → ShowsNothing d secret env r c
            (schema_apply_command (connect d secret env r) c true h variable read scan).0
            variable
            read
            scan
    unfolding schema_apply_command apply_loaded apply_to
    schema_plan-schema_apply good =
        rw (loaded, project, plan_schema_eq h)
          (by_plan _ refl (rw (loaded, project, plan_schema_eq h) at good))
