-- ===== src/Sqlstore/Table.antt =====
-- What the statements of packages/hub/internal/store/sqlstore/store.go and of the projects service do
-- to the rows of a table.
use santokit.Base.{
  ℕ, take, ◌≡◌, refl, Bool, true, false, ◌||◌, Option, none, some, List, [], ◌∷◌, ◌++◌, arith,
  if◌then◌else◌, Result, ok, err, Error, constraint_failed,
}

module _ {ℓ} {Row : Type ℓ} where
  -- SELECT … WHERE, with no ORDER BY
  unfoldable pub select : (Row → Bool) → List Row → List Row
  select test [] = []
  select test (row ∷ rows) = let rest = select test rows in if test row then row ∷ rest else rest

  -- WHERE EXISTS, or whether a JOIN finds a partner
  unfoldable pub exists : (Row → Bool) → List Row → Bool
  exists test [] = false
  exists test (row ∷ rows) = test row || exists test rows

  -- A loop on `rows.Next()`, which is false at the end and where the iteration breaks off, here after
  -- the given number of rows; nothing of this code asks `rows.Err()` which of the two it was.
  unfoldable pub iterated : Option ℕ → List Row → List Row
  iterated none rows = rows
  iterated (some n) rows = take n rows

  -- `QueryRowContext` takes the first row, if there is one.
  unfoldable pub query_row : (Row → Bool) → List Row → Option Row
  query_row test [] = none
  query_row test (row ∷ rows) = if test row then some row else query_row test rows

  -- DELETE … WHERE
  unfoldable pub delete_where : (Row → Bool) → List Row → List Row
  delete_where test [] = []
  delete_where test (row ∷ rows) =
      let rest = delete_where test rows in if test row then rest else row ∷ rest

  -- INSERT, where `same` tells a row that the PRIMARY KEY allows once
  unfoldable pub insert_row : (Row → Bool) → Row → List Row → Result (List Row)
  insert_row same row rows =
      if exists same rows then err constraint_failed else ok (rows ++ row ∷ [])

  -- INSERT … ON CONFLICT … DO UPDATE
  unfoldable pub upsert : (Row → Bool) → (Row → Row) → Row → List Row → List Row
  upsert same update row [] = row ∷ []
  upsert same update row (old ∷ rows) =
      if same old then update old ∷ rows else old ∷ upsert same update row rows

  pub exists-append :
      (test : Row → Bool) (xs ys : List Row)
      → exists test (xs ++ ys) ≡ (exists test xs || exists test ys)
  unfolding exists
  exists-append test [] ys = refl
  exists-append test (x ∷ xs) ys = ground (arith, exists-append test xs ys)

  pub query_row-append :
      (test : Row → Bool) (xs ys : List Row)
      → query_row test (xs ++ ys)
        ≡ (if exists test xs then query_row test xs else query_row test ys)
  unfolding exists query_row
  query_row-append test [] ys = refl
  query_row-append test (x ∷ xs) ys = ground (arith, query_row-append test xs ys)

  pub exists-delete_where :
      (test other : Row → Bool) (rows : List Row)
      → ((row : Row) → other row ≡ true → test row ≡ false)
      → exists other (delete_where test rows) ≡ exists other rows
  unfolding exists delete_where
  exists-delete_where test other [] h = refl
  exists-delete_where test other (row ∷ rows) h =
      ground (arith, h row, exists-delete_where test other rows h)

  pub exists-delete_where_self :
      (test : Row → Bool) (rows : List Row) → exists test (delete_where test rows) ≡ false
  unfolding exists delete_where
  exists-delete_where_self test [] = refl
  exists-delete_where_self test (row ∷ rows) = ground (arith, exists-delete_where_self test rows)

-- The answer of the driver to a statement: `none`, or its error. A statement that fails changes
-- nothing.
abbrev pub answered {ℓ} : {A : Type ℓ} → Option Error → Result A → Result A
answered none result = result
answered (some e) result = err e
