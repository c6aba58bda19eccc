-- ===== src/Schema/Tests/Sessions.antt =====
-- A plan, another client's plan of another project, a change of the database, and an application.
use santokit.Base.{
  ℕ, ◌≡◌, refl, ap, false, List, [], ◌∷◌, arith, Text, lit, ◌==◌, lookup, insert, delete, ok,
}
use santokit.Base.Strings.{trim_space}
use santokit.Base.Encoding.{hex}
use santokit.Base.Decimal.{decimal}
use santokit.Schema.{PlanResult, Service, new_service}
use santokit.Schema.Atlas.{plan, apply, changes_to, url_of, plan_native}
use santokit.Schema.Atlas.Sessions.{Action, planned, changed, act, act_all, apply_after_plan}
use santokit.Schema.Tests.{toy, toy-Settles, sha256, stamp, schemas, db_url, desired}

abbrev others : List (Action toy)
others =
    planned stamp db_url (lit "blog") ((lit "main", lit "x") ∷ []) ∷ changed (lit "drop all") ∷ []

abbrev other : Service
other = record { state = []; last_planned = (lit "blog", (lit "main", lit "x") ∷ []) ∷ [] }

sessions : Unit {0}
unfolding plan plan_native apply changes_to url_of act act_all lookup insert delete ◌==◌ trim_space
    hex decimal
sessions = tt

abbrev proposed : PlanResult
proposed = record { migrations = []; has_changes = false; summary = lit "0 changes proposed" }

plan_test : (plan toy sha256 stamp new_service desired db_url (lit "shop") schemas).1 ≡ ok proposed
unfolding sessions
plan_test = refl

apply_test :
    apply toy
      (act_all toy sha256
        (planned stamp db_url (lit "shop") schemas ∷ others)
        (new_service, desired)).0
      (act_all toy sha256
        (planned stamp db_url (lit "shop") schemas ∷ others)
        (new_service, desired)).1
      db_url
      (lit "shop")
      []
    ≡ ((other, desired), ok tt)
unfolding sessions
apply_test = refl

apply_after_plan_example :
    (result : PlanResult) × ((plan toy sha256 stamp other desired db_url (lit "shop") schemas).1
      ≡ ok result)
    × (result.migrations ≡ [])
    × (result.has_changes ≡ false)
apply_after_plan_example =
    apply_after_plan toy toy-Settles sha256 stamp stamp new_service other desired desired db_url
      db_url (lit "sqlite://shop.db") (lit "shop") (lit "main") (lit "table users {}")
      ((lit "logs", lit "table lines {}") ∷ []) proposed others [] (lit "sqlite://shop.db") refl
      plan_test ((λ e. absurd (omega (arith, ap (λ s. first s) e))), (tt, tt))
      (unfold url_of in refl) refl apply_test
  where
    first : Text → ℕ
    first [] = 0
    first (c ∷ s) = c
