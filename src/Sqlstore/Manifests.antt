-- ===== src/Sqlstore/Manifests.antt =====
-- The registry repository of packages/hub/internal/store/sqlstore/registry.go, over the table
-- registry_manifests.
pub mod Laws
use santokit.Base.{
  ℕ, ◌++◌, Bool, ◌&&◌, Option, none, some, List, [], ◌∷◌, if◌then◌else◌, ltb, leb, Text, lit, ◌==◌,
  or_error, Result, ok, err, ◌>>=◌, ◌>>◌, Error, no_rows, marshal_failed, unmarshal_failed,
  undecodable,
}
use santokit.Sqlstore.Table.{query_row, select, insert_row, answered, iterated}
use santokit.Registry.{Bundle, Manifest, Repository}

-- `encoding/json` at the bundles of a manifest
pub record BundleCodec : Type 0 where
  pub marshal : List Bundle → Option Text
  pub unmarshal : Text → Option (List Bundle)

-- The column created_at, a TIMESTAMP: what the driver and the database keep of a time, which may be of
-- less precision or without its zone, what is scanned of it, and the order of ORDER BY.
pub record Column : Type 1 where
  pub Stored : Type 0
  pub put : ℕ → Stored
  pub scan : Stored → Option ℕ
  pub before : Stored → Stored → Bool

abbrev pub row_id : Manifest → Text
row_id m = m.project_id ++ (lit ":" ++ m.version)

module _ (column : Column) where
  pub record ManifestRow : Type 0 where
    pub id : Text
    pub project_id : Text
    pub version : Text
    pub bundles : Text
    pub created_at : column.Stored
    pub created_by : Text

  unfoldable pub row_of : Manifest → Text → ManifestRow
  row_of m bundles = record {
    id = row_id m;
    project_id = m.project_id;
    version = m.version;
    bundles = bundles;
    created_at = column.put m.created_at;
    created_by = m.created_by;
  }

  -- ORDER BY created_at DESC LIMIT 1; the order of equal times is not specified, and here the row that
  -- was inserted last comes first.
  newer : ManifestRow → Option ManifestRow → Option ManifestRow
  newer row none = some row
  newer row (some later) =
      if column.before later.created_at row.created_at then some row else some later

  pub newest : List ManifestRow → Option ManifestRow
  unfolding newer
  newest [] = none
  newest (row ∷ rows) = newer row (newest rows)

  -- ORDER BY created_at ASC
  insert_by_time : ManifestRow → List ManifestRow → List ManifestRow
  insert_by_time row [] = row ∷ []
  insert_by_time row (next ∷ rows) =
      if column.before next.created_at row.created_at
      then next ∷ insert_by_time row rows
      else row ∷ next ∷ rows

  by_time : List ManifestRow → List ManifestRow
  unfolding insert_by_time
  by_time [] = []
  by_time (row ∷ rows) = insert_by_time row (by_time rows)

  versions : List ManifestRow → List Text
  versions [] = []
  versions (row ∷ rows) = row.version ∷ versions rows

  abbrev pub of : Text → ManifestRow → Bool
  of project_id row = row.project_id == project_id

  module _ (codec : BundleCodec) (outage : Option Error) where
    -- `Save`
    unfoldable pub save : List ManifestRow → Manifest → Result (List ManifestRow)
    unfolding row_of
    save rows m = do
      bundles ← or_error (codec.marshal m.bundles) marshal_failed
      answered outage (insert_row (λ row. row.id == row_id m) (row_of m bundles) rows)

    -- The manifest of a row, with its bundles decoded.
    scanned : Option ManifestRow → Result Manifest
    scanned none = err no_rows
    scanned (some row) = do
      created_at ← or_error (column.scan row.created_at) undecodable
      bundles ← or_error (codec.unmarshal row.bundles) unmarshal_failed
      ok (record {
        id = row.id;
        project_id = row.project_id;
        version = row.version;
        bundles = bundles;
        created_at = created_at;
        created_by = row.created_by;
      })

    -- `GetLatest`
    unfoldable pub get_latest : List ManifestRow → Text → Result Manifest
    unfolding scanned newest
    get_latest rows project_id = do
      row ← answered outage (ok (newest (select (of project_id) rows)))
      scanned row

    -- `GetByVersion`
    unfoldable pub get_by_version : List ManifestRow → Text → Text → Result Manifest
    unfolding scanned
    get_by_version rows project_id version = do
      row ←
          answered outage
            (ok (query_row (λ row. row.project_id == project_id && row.version == version) rows))
      scanned row

    -- `ListVersions`; `stops` is where the iteration breaks off, if it does.
    unfoldable pub list_versions : Option ℕ → List ManifestRow → Text → Result (List Text)
    unfolding versions by_time
    list_versions stops rows project_id =
        answered outage (ok (versions (iterated stops (by_time (select (of project_id) rows)))))
