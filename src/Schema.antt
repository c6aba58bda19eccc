-- ===== src/Schema.antt =====
-- The schema service of packages/hub/internal/schema/schema.go: its state, and the local mode that
-- plans and applies without a database (`planMock`, `applyMock`).
pub mod Local
pub mod Atlas
pub mod Tests
use santokit.Base.{
  ℕ, ltb, ◌++◌, Bool, not, false, Option, none, some, List, [], ◌∷◌, get_or, if◌then◌else◌, length,
  take, eqb, is_empty, Text, lit, ◌==◌, Map, lookup, insert, delete, or_error, Result, ok, err,
  fail_if, no_planned_schemas_to_apply, schema_empty, schema_state_not_found,
}
use santokit.Base.Strings.{trim_space}
use santokit.Base.Encoding.{hex}
use santokit.Base.Decimal.{decimal}

pub record Migration : Type 0 where
  pub id : Text
  pub project_id : Text
  pub version : Text
  pub sql : Text
  pub description : Text
  pub applied : Bool

pub record PlanResult : Type 0 where
  pub migrations : List Migration
  pub has_changes : Bool
  pub summary : Text

-- A project's schemas by alias.
abbrev pub Schemas : Type 0
Schemas = Map Text

-- The maps `state` and `lastPlanned` of `Service`, by project.
pub record Service : Type 0 where
  pub state : Map Schemas
  pub last_planned : Map Schemas

-- `NewService`
abbrev pub new_service : Service
new_service = record { state = []; last_planned = [] }

pub normalize_hcl : Text → Text
normalize_hcl value = trim_space value

-- `shortHash`, over the function `sha256.Sum256`.
pub short_hash : (Text → Text) → Text → Text
short_hash sha256 value = hex (take 6 (sha256 value))

pub plan_summary : ℕ → Text
plan_summary change_count =
    if eqb change_count 0
    then lit "Local mode: no changes detected"
    else lit "Local mode: " ++ (decimal change_count ++ lit " schema changes detected")

-- The content that an alias has in the current state, empty if there is none.
pub existing : Service → Text → Text → Text
existing s project_id alias = get_or (lookup alias (get_or (lookup project_id s.state) [])) []

pub is_current : Service → Text → Text → Text → Bool
unfolding existing normalize_hcl
is_current s project_id alias desired =
    normalize_hcl (existing s project_id alias) == normalize_hcl desired

-- `version` is the clock's `Format("20060102150405")`.
module _ (sha256 : Text → Text) (version : Text) where
  mock_migration : Text → Text → Text → Migration
  mock_migration project_id alias desired = record {
    id = project_id ++ (lit "-" ++ short_hash sha256 desired);
    project_id = project_id;
    version = version;
    sql = lit "-- Native Atlas driver failed. Mock migration for " ++ alias;
    description = lit "schema update for " ++ (alias ++ lit " (mock)");
    applied = false;
  }

  -- the loop of `planMock`
  mock_changes : Service → Text → Schemas → List Migration
  mock_changes s project_id [] = []
  mock_changes s project_id ((alias, desired) ∷ schemas) =
      let rest = mock_changes s project_id schemas in
      if is_current s project_id alias desired
      then rest
      else mock_migration project_id alias desired ∷ rest

  -- `planMock`
  unfoldable pub plan_mock : Service → Text → Schemas → Service × Result PlanResult
  unfolding mock_changes mock_migration is_current short_hash plan_summary
  plan_mock s project_id schemas =
      let changes = mock_changes s project_id schemas in
      (
        record s { last_planned = insert project_id schemas s.last_planned },
        ok (record {
          migrations = changes;
          has_changes = ltb 0 (length changes);
          summary = plan_summary (length changes);
        }),
      )

apply_planned : Service → Text → List Migration → Option Schemas → Service × Result (Unit {0})
apply_planned s project_id [] none = (s, ok tt)
apply_planned s project_id (_ ∷ _) none = (s, err no_planned_schemas_to_apply)
apply_planned s project_id migrations (some planned) = (
  record {
    state = insert project_id planned s.state;
    last_planned = delete project_id s.last_planned;
  },
  ok tt,
)

-- `applyMock`
unfoldable pub apply_mock : Service → Text → List Migration → Service × Result (Unit {0})
unfolding apply_planned
apply_mock s project_id migrations =
    apply_planned s project_id migrations (lookup project_id s.last_planned)

-- `Validate`
unfoldable pub validate : Text → Result (Unit {0})
validate hcl = fail_if (is_empty (trim_space hcl)) schema_empty

-- `GetState`
unfoldable pub get_state : Service → Text → Text → Result Text
get_state s project_id alias =
    or_error (lookup alias (get_or (lookup project_id s.state) [])) schema_state_not_found
