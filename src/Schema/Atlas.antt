-- ===== src/Schema/Atlas.antt =====
-- `Plan` and `Apply` of packages/hub/internal/schema/schema.go, over the Atlas library.
pub mod Converges
pub mod Repeat
pub mod Elsewhere
pub mod Sessions
use santokit.Base.{
  ℕ, ltb, ◌++◌, Bool, true, false, not, Option, none, some, List, [], ◌∷◌, if◌then◌else◌, length,
  is_empty, Text, lit, ◌==◌, ◌||◌, Map, lookup, insert, delete, or_error, Result, ok, err, ◌>>=◌,
  project_id_required, schemas_required, no_planned_schemas, inspect_failed, eval_failed,
  diff_failed, plan_failed, apply_failed,
}
use santokit.Base.Decimal.{decimal}
use santokit.Schema.{Migration, PlanResult, Schemas, Service, short_hash, plan_mock, apply_mock}

-- The calls of ariga.io/atlas. A `World` is what the databases hold; `none` is an error.
pub record Atlas : Type 1 where
  pub World : Type 0
  pub Client : Type 0
  pub Realm : Type 0
  pub Change : Type 0
  pub open_ : World → Text → Option Client
  pub name : Client → Text
  pub inspect : World → Client → Option Realm
  pub eval_postgres : Text → Option Realm
  pub eval_sqlite : Text → Option Realm
  pub diff : Client → Realm → Realm → Option (List Change)
  pub plan_changes : Client → List Change → Option (List Text)
  -- the databases afterwards, and whether every change was applied
  pub apply_changes : World → Client → List Change → World × Bool

-- `sb.WriteString(content)` and a line end, for each schema
pub combine : Schemas → Text
combine [] = []
combine ((_, content) ∷ schemas) = content ++ (lit "\n" ++ combine schemas)

-- `strings.Join(sqls, ";\n")`
pub join_sql : List Text → Text
join_sql [] = []
join_sql (s ∷ []) = s
join_sql (s ∷ t ∷ ss) = s ++ (lit ";\n" ++ join_sql (t ∷ ss))

no_schemas : Schemas → Bool
no_schemas [] = true
no_schemas (_ ∷ _) = false

-- The database that the secret `database_url` names, unless it is missing or empty.
unfoldable pub url_of : Result Text → Option Text
url_of (err e) = none
url_of (ok []) = none
url_of (ok (c ∷ url)) = some (c ∷ url)

module _ (atlas : Atlas) where
  open atlas use {
    World, Client, Realm, Change, open_, name, inspect, eval_postgres, eval_sqlite, diff,
    plan_changes, apply_changes,
  }

  -- `evalHCL`
  pub eval_hcl : Text → Text → Option Realm
  eval_hcl driver hcl =
      if driver == lit "sqlite3" || driver == lit "sqlite"
      then eval_sqlite hcl
      else eval_postgres hcl

  -- The steps that `Plan` and `Apply` share: inspect, evaluate, compare.
  unfoldable pub changes_to : World → Client → Schemas → Result (List Change)
  unfolding eval_hcl combine
  changes_to w c schemas = do
    current ← or_error (inspect w c) inspect_failed
    desired ← or_error (eval_hcl (name c) (combine schemas)) eval_failed
    or_error (diff c current desired) diff_failed

  pub connect : World → Option Text → Option Client
  connect w none = none
  connect w (some url) = open_ w url

  module _ (sha256 : Text → Text) (version : Text) where
    native_migrations : Client → Text → Schemas → List Change → Result (List Migration)
    native_migrations c project_id schemas [] = ok []
    native_migrations c project_id schemas (change ∷ changes) = do
      sqls ← or_error (plan_changes c (change ∷ changes)) plan_failed
      ok (
          record {
            id = project_id ++ (lit "-" ++ short_hash sha256 (combine schemas));
            project_id = project_id;
            version = version;
            sql = join_sql sqls;
            description = lit "Schema update (Native)";
            applied = false;
          }
          ∷ [])

    native_result : List Migration → PlanResult
    native_result migrations = record {
      migrations = migrations;
      has_changes = ltb 0 (length migrations);
      summary = decimal (length migrations) ++ lit " changes proposed";
    }

    unfoldable pub plan_native : World → Client → Text → Schemas → Result PlanResult
    unfolding native_migrations native_result
    plan_native w c project_id schemas = do
      changes ← changes_to w c schemas
      migrations ← native_migrations c project_id schemas changes
      ok (native_result migrations)

    -- `lastPlanned` is written only by a plan that succeeds.
    pub remember : Service → Text → Schemas → Result PlanResult → Service × Result PlanResult
    remember s project_id schemas (err e) = (s, err e)
    remember s project_id schemas (ok result) =
        (record s { last_planned = insert project_id schemas s.last_planned }, ok result)

    pub plan_on : Service → World → Text → Schemas → Option Client → Service × Result PlanResult
    unfolding remember
    plan_on s w project_id schemas none = plan_mock sha256 version s project_id schemas
    plan_on s w project_id schemas (some c) =
        remember s project_id schemas (plan_native w c project_id schemas)

    -- `Plan`, where `db_url` is what `vault.Get(projectID, "database_url")` returns
    unfoldable pub plan :
        Service → World → Result Text → Text → Schemas → Service × Result PlanResult
    unfolding plan_on url_of connect no_schemas
    plan s w db_url project_id schemas =
        if is_empty project_id
        then (s, err project_id_required)
        else if no_schemas schemas
        then (s, err schemas_required)
        else plan_on s w project_id schemas (connect w (url_of db_url))

  -- what follows `client.ApplyChanges`
  after_changes : Service → Text → World × Bool → (Service × World) × Result (Unit {0})
  after_changes s project_id (w, true) =
      ((record s { last_planned = delete project_id s.last_planned }, w), ok tt)
  after_changes s project_id (w, false) = ((s, w), err apply_failed)

  finish :
      Service → World → Text → Client → Result (List Change) → (Service × World) × Result (Unit {0})
  unfolding after_changes
  finish s w project_id c (err e) = ((s, w), err e)
  finish s w project_id c (ok []) = ((s, w), ok tt)
  finish s w project_id c (ok (change ∷ changes)) =
      after_changes s project_id (apply_changes w c (change ∷ changes))

  in_local_mode : World → Service × Result (Unit {0}) → (Service × World) × Result (Unit {0})
  in_local_mode w (s, r) = ((s, w), r)

  apply_on :
      Service
      → World
      → Text
      → List Migration
      → Schemas
      → Option Client
      → (Service × World) × Result (Unit {0})
  unfolding finish in_local_mode
  apply_on s w project_id migrations schemas none =
      in_local_mode w (apply_mock s project_id migrations)
  apply_on s w project_id migrations schemas (some c) =
      finish s w project_id c (changes_to w c schemas)

  apply_planned_on :
      Service
      → World
      → Text
      → List Migration
      → Text
      → Option Schemas
      → (Service × World) × Result (Unit {0})
  unfolding apply_on
  apply_planned_on s w project_id migrations url none = ((s, w), err no_planned_schemas)
  apply_planned_on s w project_id migrations url (some []) = ((s, w), err no_planned_schemas)
  apply_planned_on s w project_id migrations url (some (e ∷ schemas)) =
      apply_on s w project_id migrations (e ∷ schemas) (open_ w url)

  apply_at :
      Service → World → Text → List Migration → Option Text → (Service × World) × Result (Unit {0})
  unfolding apply_planned_on
  apply_at s w project_id migrations none = in_local_mode w (apply_mock s project_id migrations)
  apply_at s w project_id migrations (some url) =
      apply_planned_on s w project_id migrations url (lookup project_id s.last_planned)

  -- `Apply`
  unfoldable pub apply :
      Service → World → Result Text → Text → List Migration → (Service × World) × Result (Unit {0})
  unfolding apply_at url_of
  apply s w db_url project_id migrations =
      if is_empty project_id
      then ((s, w), err project_id_required)
      else apply_at s w project_id migrations (url_of db_url)
