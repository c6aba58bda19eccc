-- ===== src/Sqlstore/Transaction.antt =====
-- A transaction of `database/sql`, as packages/hub/internal/projects/service.go uses it: `BeginTx`, the
-- statements on `tx`, `Commit`, and the deferred `Rollback`.
use santokit.Base.{◌≡◌, refl, ◌∙◌, ap, Option, none, some, Result, ok, err, Error, tx_done}
use santokit.Sqlstore.Table.{answered}

-- What the database holds, and what an open transaction has made of it, which nobody else sees.
pub record Session (T : Type 0) : Type 0 where
  pub stored : T
  pub pending : Option T

-- What a step leaves: the session, and whether it failed.
abbrev pub Step : Type 0 → Type 0
Step T = Session T × Result (Unit {0})

module _ {T : Type 0} where
  abbrev pub idle : T → Session T
  idle t = record { stored = t; pending = none }

  unfoldable pub begin_tx : Option Error → Session T → Step T
  begin_tx none s = (record s { pending = some s.stored }, ok tt)
  begin_tx (some e) s = (s, err e)

  changed : Session T → Result T → Step T
  changed s (ok t) = (record s { pending = some t }, ok tt)
  changed s (err e) = (s, err e)

  statement_on : Option T → Option Error → (T → Result T) → Session T → Step T
  unfolding changed
  statement_on none answer change s = (s, err tx_done)
  statement_on (some t) answer change s = changed s (answered answer (change t))

  -- `tx.ExecContext`
  unfoldable pub exec_tx : Option Error → (T → Result T) → Session T → Step T
  unfolding statement_on
  exec_tx answer change s = statement_on s.pending answer change s

  commit_of : Option T → Option Error → Session T → Step T
  commit_of none answer s = (s, err tx_done)
  commit_of (some t) none s = (idle t, ok tt)
  commit_of (some t) (some e) s = (idle s.stored, err e)

  -- `tx.Commit`; one that fails is taken to have stored nothing.
  unfoldable pub commit : Option Error → Session T → Step T
  unfolding commit_of
  commit answer s = commit_of s.pending answer s

  -- The deferred `tx.Rollback`, on every return; after `Commit` there is nothing left to do.
  unfoldable pub rollback : Step T → Step T
  rollback (s, result) = (record s { pending = none }, result)

  infixl 5 ◌>=>◌
  -- Go on, or return the error.
  unfoldable pub ◌>=>◌ : Step T → (Session T → Step T) → Step T
  (s, ok _) >=> next = next s
  (s, err e) >=> next = (s, err e)

  -- The database holds what it held before.
  abbrev pub Keeps : T → Step T → Type 0
  Keeps t step = step.0.stored ≡ t

  pub begin_tx-Keeps : (answer : Option Error) (t : T) → Keeps t (begin_tx answer (idle t))
  unfolding begin_tx
  begin_tx-Keeps none t = refl
  begin_tx-Keeps (some e) t = refl

  pub exec_tx-Keeps :
      (t : T) (answer : Option Error) (change : T → Result T) (step : Step T)
      → Keeps t step
      → Keeps t (step >=> exec_tx answer change)
  unfolding ◌>=>◌ exec_tx statement_on changed
  exec_tx-Keeps t answer change (s, err e) h = h
  exec_tx-Keeps t answer change (s, ok _) h = by_pending s.pending ∙ h
    where
      by_result : (r : Result T) → (changed s r).0.stored ≡ s.stored
      by_result (ok _) = refl
      by_result (err _) = refl

      by_pending : (p : Option T) → (statement_on p answer change s).0.stored ≡ s.stored
      by_pending none = refl
      by_pending (some p) = by_result (answered answer (change p))

  pub commit_refused :
      (t : T) (answer : Option Error) (e : Error) (step : Step T)
      → Keeps t step
      → (rollback (step >=> commit answer)).1 ≡ err e
      → (rollback (step >=> commit answer)).0 ≡ idle t
  unfolding ◌>=>◌ rollback commit commit_of
  commit_refused t answer e (s, err x) h failed = ap (λ u. idle u) h
  commit_refused t answer e (s, ok _) h failed = by_pending s.pending answer failed
    where
      by_pending :
          (p : Option T) (a : Option Error)
          → (commit_of p a s).1 ≡ err e
          → ◌≡◌ {A = Session T} (record (commit_of p a s).0 { pending = none }) (idle t)
      by_pending none a _ = ap (λ u. idle u) h
      by_pending (some p) none f =
          absurd (let clash : ◌≡◌ {A = Result (Unit {0})} (ok tt) (err e) = f in cc)
      by_pending (some p) (some x) _ = ap (λ u. idle u) h

  pub rollback-closed : (step : Step T) → (rollback step).0.pending ≡ none
  unfolding rollback
  rollback-closed (s, result) = refl
