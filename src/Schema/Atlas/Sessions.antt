-- ===== src/Schema/Atlas/Sessions.antt =====
-- Several clients that plan and apply over one service, in any order.
use santokit.Base.{
  ◌≡◌, ◌≢◌, refl, ◌∙◌, false, Option, none, some, List, [], ◌∷◌, All, arith, is_empty, Text, lookup,
  lookup-insert_self, Result, ok, err,
}
use santokit.Schema.{Migration, PlanResult, Schemas, Service, plan_mock}
use santokit.Schema.Atlas.{Atlas, url_of, connect, plan_native, remember, plan_on, plan, apply}
use santokit.Schema.Atlas.Converges.{Settles, plan-apply}
use santokit.Schema.Atlas.Elsewhere.{AreSame, apply_elsewhere, plan_elsewhere}

-- What happens between two calls of a client: a call of `Plan` or of `Apply`, with the time in its
-- layout and what the vault returns as the URL, or a change of the databases that does not go through
-- the service.
pub data Action (atlas : Atlas) : Type 0 where
  planned : Text → Result Text → Text → Schemas → Action atlas
  applied : Result Text → Text → List Migration → Action atlas
  changed : atlas.World → Action atlas

module _ (atlas : Atlas) (sha256 : Text → Text) where
  unfoldable pub act : Action atlas → Service × atlas.World → Service × atlas.World
  act (planned version db_url p schemas) (s, w) =
      ((plan atlas sha256 version s w db_url p schemas).0, w)
  act (applied db_url p ms) (s, w) = (apply atlas s w db_url p ms).0
  act (changed w') (s, w) = (s, w')

  -- the actions in their order
  unfoldable pub act_all : List (Action atlas) → Service × atlas.World → Service × atlas.World
  unfolding act
  act_all [] state = state
  act_all (a ∷ actions) state = act_all actions (act a state)

-- The action does not plan or apply schemas of the project.
abbrev pub LeavesProject : (atlas : Atlas) → Text → Action atlas → Type 0
LeavesProject atlas p (planned version db_url q schemas) = q ≢ p
LeavesProject atlas p (applied db_url q ms) = q ≢ p
LeavesProject atlas p (changed w) = Unit

module _ (atlas : Atlas) (sha256 : Text → Text) (p : Text) where
  act_elsewhere :
      (a : Action atlas) (s : Service) (w : atlas.World)
      → LeavesProject atlas p a
      → AreSame p s (act atlas sha256 a (s, w)).0
  unfolding act
  act_elsewhere (planned version db_url q schemas) s w n =
      plan_elsewhere atlas sha256 p q n version s w db_url schemas
  act_elsewhere (applied db_url q ms) s w n = apply_elsewhere atlas sha256 p q n s w db_url ms
  act_elsewhere (changed w') s w n = (refl, refl)

  act_all_elsewhere :
      (actions : List (Action atlas)) (state : Service × atlas.World)
      → All (LeavesProject atlas p) actions
      → lookup p (act_all atlas sha256 actions state).0.last_planned ≡ lookup p state.0.last_planned
  unfolding act_all
  act_all_elsewhere [] state h = refl
  act_all_elsewhere (a ∷ actions) (s, w) (n, h) =
      act_all_elsewhere actions (act atlas sha256 a (s, w)) h ∙ (act_elsewhere a s w n).0

  plan_on_remembers :
      (version : Text) (s : Service) (w : atlas.World) (schemas : Schemas) (r : PlanResult)
      (client : Option atlas.Client)
      → (plan_on atlas sha256 version s w p schemas client).1 ≡ ok r
      → lookup p (plan_on atlas sha256 version s w p schemas client).0.last_planned ≡ some schemas
  unfolding plan_on plan_mock remember
  plan_on_remembers version s w schemas r none h = lookup-insert_self p schemas s.last_planned
  plan_on_remembers version s w schemas r (some c) h =
      result (plan_native atlas sha256 version w c p schemas) h
    where
      result :
          (native : Result PlanResult)
          → (remember atlas sha256 version s p schemas native).1 ≡ ok r
          → lookup p (remember atlas sha256 version s p schemas native).0.last_planned
            ≡ some schemas
      result (err e) h = absurd (let clash : err e ≡ ok r = h in cc)
      result (ok _) h = lookup-insert_self p schemas s.last_planned

  plan_remembers :
      (version : Text) (s : Service) (w : atlas.World) (db_url : Result Text) (schemas : Schemas)
      (r : PlanResult)
      → (plan atlas sha256 version s w db_url p schemas).1 ≡ ok r
      → lookup p (plan atlas sha256 version s w db_url p schemas).0.last_planned ≡ some schemas
  unfolding plan
  plan_remembers version s w db_url schemas r h =
      ground (arith, plan_on_remembers version s w schemas r (connect atlas w (url_of db_url)))

module _ (atlas : Atlas) (laws : Settles atlas) (sha256 : Text → Text) where
  -- Where applied changes settle a database: after a `Plan` of non-empty schemas of a project
  -- succeeded, and after any actions of other clients that neither plan nor apply this project,
  -- changes of the databases included, an `Apply` of the project against a database that opens,
  -- whoever calls it and with whatever migrations, brings the database to these schemas if it
  -- succeeds: a further `Plan` of them succeeds and proposes nothing.
  pub apply_after_plan :
      (version version' : Text) (s s' : Service) (w w' : atlas.World)
      (planned_url url_now : Result Text) (url p alias content : Text) (rest : Schemas)
      (r : PlanResult) (actions : List (Action atlas)) (ms : List Migration) (c : atlas.Client)
      → is_empty p ≡ false
      → (plan atlas sha256 version s w planned_url p ((alias, content) ∷ rest)).1 ≡ ok r
      → All (LeavesProject atlas p) actions
      → url_of url_now ≡ some url
      → atlas.open_
          (act_all atlas sha256
            (planned version planned_url p ((alias, content) ∷ rest) ∷ actions)
            (s, w)).1
          url
        ≡ some c
      → apply atlas
          (act_all atlas sha256
            (planned version planned_url p ((alias, content) ∷ rest) ∷ actions)
            (s, w)).0
          (act_all atlas sha256
            (planned version planned_url p ((alias, content) ∷ rest) ∷ actions)
            (s, w)).1
          url_now
          p
          ms
        ≡ ((s', w'), ok tt)
      → (result : PlanResult) × ((plan atlas sha256 version' s' w' url_now p
            ((alias, content) ∷ rest)).1
          ≡ ok result)
        × (result.migrations ≡ [])
        × (result.has_changes ≡ false)
  apply_after_plan version version' s s' w w' planned_url url_now url p alias content rest r actions
        ms c named good others has_url opened done =
      let schemas = (alias, content) ∷ rest in
      let state = act_all atlas sha256 (planned version planned_url p schemas ∷ actions) (s, w) in
      let kept : lookup p state.0.last_planned ≡ some schemas =
        unfold act_all act in
        act_all_elsewhere atlas sha256 p actions _ others
        ∙ plan_remembers atlas sha256 p version s w planned_url schemas r good in
      plan-apply atlas laws sha256 version' state.0 s' state.1 w' url_now url p alias content rest
        ms c has_url named opened kept done
