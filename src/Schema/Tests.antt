-- ===== src/Schema/Tests.antt =====
-- The schema service in local mode, and over a stand-in for Atlas: one database that holds the text
-- of its schema, and changes that replace it.
mod Sessions
use santokit.Base.{
  ◌≡◌, refl, ◌↔◌, Bool, true, false, Option, none, some, List, [], ◌∷◌, arith, if◌then◌else◌, Text,
  lit, ◌==◌, eq_iff, eq_refl, lookup, insert, delete, Result, ok, inspect_failed,
}
use mathlib.Core.Path.{subst}
use santokit.Base.Strings.{trim_space}
use santokit.Base.Encoding.{hex}
use santokit.Base.Decimal.{decimal}
use santokit.Schema.{
  Migration, PlanResult, Schemas, Service, new_service, plan_mock, apply_mock, get_state, existing,
}
use santokit.Schema.Local.{IsUpToDate, plan_mock_lem, get_state-apply-plan}
use santokit.Schema.Atlas.{Atlas, changes_to, url_of, plan, apply}
use santokit.Schema.Atlas.Converges.{Settles, apply_refused, plan-apply}

abbrev pub sha256 : Text → Text
sha256 s = lit "abcdefgh"

abbrev pub stamp : Text
stamp = lit "20240102030405"

abbrev pub schemas : Schemas
schemas = (lit "main", lit "table users {}") ∷ (lit "logs", lit "table lines {}") ∷ []

abbrev planned : Service
planned = record { state = []; last_planned = (lit "shop", schemas) ∷ [] }

schema : Unit {0}
unfolding plan_mock apply_mock get_state existing lookup insert delete ◌==◌ trim_space hex decimal
schema = tt

plan_test : (plan_mock sha256 stamp new_service (lit "shop") schemas).0 ≡ planned
unfolding schema
plan_test = refl

abbrev unchanged : PlanResult
unchanged = record {
  migrations = [];
  has_changes = false;
  summary = lit "Local mode: no changes detected";
}

unchanged_test :
    (plan_mock sha256 stamp
      (apply_mock (plan_mock sha256 stamp new_service (lit "shop") schemas).0 (lit "shop") []).0
      (lit "shop")
      schemas).1
    ≡ ok unchanged
unfolding schema
unchanged_test = refl

abbrev migration : Migration
migration = record {
  id = lit "m";
  project_id = lit "shop";
  version = stamp;
  sql = [];
  description = [];
  applied = false;
}

abbrev pub compare_text : Text → Text → Option (List Text)
compare_text a b = some (if a == b then [] else b ∷ [])

abbrev pub replace : Text → List Text → Text × Bool
replace w [] = (w, true)
replace w (x ∷ _) = (x, true)

abbrev pub toy : Atlas
toy = record {
  World = Text;
  Client = Text;
  Realm = Text;
  Change = Text;
  open_ = λ w url. some url;
  name = λ c. lit "sqlite";
  inspect = λ w c. some w;
  eval_postgres = λ hcl. none;
  eval_sqlite = λ hcl. some hcl;
  diff = λ c a b. compare_text a b;
  plan_changes = λ c changes. some changes;
  apply_changes = λ w c changes. replace w changes;
}

compare_text_self : (b : Text) → compare_text b b ≡ some []
compare_text_self b = rw (eq_refl b)

replace_settles :
    (w w' desired : Text) (changes : List Text)
    → compare_text w desired ≡ some changes
    → replace w changes ≡ (w', true)
    → compare_text w' desired ≡ some []
replace_settles w w' desired [] d r = ground (arith, d, r, eq_iff w desired)
replace_settles w w' desired (x ∷ changes) d r =
    ground (arith, d, r, eq_iff w desired, compare_text_self desired)

same_text : (a b : Text) → some a ≡ some b → b ≡ a
same_text a b e = cc

pub toy-Settles : Settles toy
toy-Settles = record {
  reopens = λ w url c changes e. e;
  settled = λ w w' c current desired changes i d r. (
    w',
    refl,
    replace_settles w w' desired changes
        (subst (λ v. compare_text v desired ≡ some changes) (same_text w current i) d) r,
  );
}

abbrev pub db_url : Result Text
db_url = ok (lit "sqlite://shop.db")

abbrev pub applied : Service
applied = record { state = []; last_planned = [] }

abbrev pub desired : Text
desired = lit "table users {}\ntable lines {}\n"

apply_test : apply toy planned (lit "") db_url (lit "shop") [] ≡ ((applied, desired), ok tt)
unfolding schema apply changes_to
apply_test = refl

-- A database that cannot be inspected.
abbrev broken : Atlas
broken = record {
  World = Text;
  Client = Text;
  Realm = Text;
  Change = Text;
  open_ = λ w url. some url;
  name = λ c. lit "sqlite";
  inspect = λ w c. none;
  eval_postgres = λ hcl. none;
  eval_sqlite = λ hcl. some hcl;
  diff = λ c a b. compare_text a b;
  plan_changes = λ c changes. some changes;
  apply_changes = λ w c changes. replace w changes;
}
