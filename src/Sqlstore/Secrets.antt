-- ===== src/Sqlstore/Secrets.antt =====
-- The vault repository of packages/hub/internal/store/sqlstore/vault.go, over the table
-- vault_secrets. What the driver answers to each statement is an argument.
use santokit.Base.{
  ℕ, ◌≡◌, refl, Bool, ◌&&◌, Option, none, some, List, [], ◌∷◌, arith, if◌then◌else◌, is_ok, Text,
  ◌==◌, eq_iff, contains, Result, ok, err, Error, secret_not_found,
}
use santokit.Sqlstore.Table.{query_row, delete_where, select, upsert, answered, iterated}
use santokit.Vault.{Secret, Repository, IsKeyed}

-- The driver's answers: to the statements of the four operations, where that of `List` is also the one
-- of `Scan`, and the number of rows after which the iteration of `List` breaks off, if it does.
pub record Driver : Type 0 where
  pub set_answer : Option Error
  pub get_answer : Option Error
  pub delete_answer : Option Error
  pub list_answer : Option Error
  pub stops : Option ℕ

-- The columns are project_id, secret_key and encrypted_value.
abbrev at : Text → Text → Secret → Bool
at project_id key row = row.project_id == project_id && row.key == key

scanned : Text → Text → Option Secret → Result Secret
scanned project_id key none = err secret_not_found
scanned project_id key (some row) =
    ok (record { key = key; encrypted_val = row.encrypted_val; project_id = project_id })

got : Text → Text → Result (Option Secret) → Result Secret
unfolding scanned
got project_id key (ok row) = scanned project_id key row
got project_id key (err e) = err secret_not_found

keys_of : List Secret → List Text
keys_of [] = []
keys_of (row ∷ rows) = row.key ∷ keys_of rows

module _ (driver : Driver) where
  -- `Set`; both dialects write the same statement.
  pub set : List Secret → Secret → Result (List Secret)
  set rows secret = answered driver.set_answer (
      ok (
        upsert (at secret.project_id secret.key)
          (λ old. record old { encrypted_val = secret.encrypted_val }) secret rows))

  -- `Get`: every failure is `ErrSecretNotFound`.
  pub get : List Secret → Text → Text → Result Secret
  unfolding got
  get rows project_id key =
      got project_id key (answered driver.get_answer (ok (query_row (at project_id key) rows)))

  -- `Delete`
  pub delete : List Secret → Text → Text → Result (List Secret)
  delete rows project_id key =
      answered driver.delete_answer (ok (delete_where (at project_id key) rows))

  -- `List`, which does not ask `rows.Err()` why the iteration ended.
  pub list : List Secret → Text → Result (List Text)
  unfolding keys_of iterated
  list rows project_id =
      answered driver.list_answer
        (ok (keys_of (iterated driver.stops (select (λ row. row.project_id == project_id) rows))))

abbrev pub secrets_table : Driver → Repository
secrets_table driver = record {
  Store = List Secret;
  get = get driver;
  set = set driver;
  delete = delete driver;
  list = list driver;
}

get-upsert :
    (rows : List Secret) (x : Secret) (p k : Text)
    → scanned p k (
        query_row (at p k) (
          upsert
            (at x.project_id x.key)
            (λ old. record old { encrypted_val = x.encrypted_val })
            x
            rows))
      ≡ (if x.project_id == p && x.key == k then ok x else scanned p k (query_row (at p k) rows))
unfolding scanned query_row upsert
get-upsert [] x p k = ground (arith, eq_iff x.project_id p, eq_iff x.key k)
get-upsert (row ∷ rows) x p k = ground (
  arith,
  get-upsert rows x p k,
  eq_iff x.project_id p,
  eq_iff x.key k,
  eq_iff row.project_id p,
  eq_iff row.key k,
  eq_iff row.project_id x.project_id,
  eq_iff row.key x.key,
)

get-delete_where :
    (rows : List Secret) (q j p k : Text)
    → scanned p k (query_row (at p k) (delete_where (at q j) rows))
      ≡ (if q == p && j == k then err secret_not_found else scanned p k (query_row (at p k) rows))
unfolding scanned query_row delete_where
get-delete_where [] q j p k = ground arith
get-delete_where (row ∷ rows) q j p k = ground (
  arith,
  get-delete_where rows q j p k,
  eq_iff q p,
  eq_iff j k,
  eq_iff row.project_id p,
  eq_iff row.key k,
  eq_iff row.project_id q,
  eq_iff row.key j,
)

contains-select :
    (rows : List Secret) (p k : Text)
    → contains k (keys_of (select (λ row. row.project_id == p) rows))
      ≡ is_ok (scanned p k (query_row (at p k) rows))
unfolding scanned query_row select keys_of contains
contains-select [] p k = refl
contains-select (row ∷ rows) p k = ground (arith, contains-select rows p k)

answered_ok {ℓ} :
    {A : Type ℓ} (answer : Option Error) (value result : A)
    → answered answer (ok value) ≡ ok result
    → value ≡ result
answered_ok none value result h = cc
answered_ok (some e) value result h = absurd (let clash : err e ≡ ok result = h in cc)

-- Where the driver answers the query of `Get` and the iteration of `List` does not break off, the table
-- is a map from a project and a key to a secret, whichever of the other statements fail: what was set
-- is read, a deleted key is not found, nothing else changes, and a list holds just the keys that are
-- found.
pub secrets_table-IsKeyed :
    (driver : Driver)
    → driver.get_answer ≡ none
    → driver.stops ≡ none
    → IsKeyed (secrets_table driver)
unfolding set get delete list got iterated
secrets_table-IsKeyed driver reads whole = record {
  get-set = λ s x s' p k e. rw (reads, ← answered_ok driver.set_answer _ s' e) (get-upsert s x p k);
  get-delete = λ s q j s' p k e.
      rw (reads, ← answered_ok driver.delete_answer _ s' e) (get-delete_where s q j p k);
  listed = λ s p ks k e.
      rw (reads, ← answered_ok driver.list_answer _ ks e) (rw whole (contains-select s p k));
}
