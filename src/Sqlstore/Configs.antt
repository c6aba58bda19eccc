-- ===== src/Sqlstore/Configs.antt =====
-- The repository of packages/hub/internal/store/sqlstore/projectconfig.go, over the table
-- project_configs. `outage` is the driver's answer to every statement.
use santokit.Base.{
  ◌≡◌, Bool, Option, none, some, List, [], ◌∷◌, arith, if◌then◌else◌, Text, ◌==◌, eq_iff, Result,
  ok, err, Error, no_rows,
}
use santokit.Sqlstore.Table.{query_row, upsert, answered}
use santokit.ProjectConfig.{Config, Repository}
use santokit.ProjectConfig.Laws.{IsMap}

pub record ConfigRow : Type 0 where
  pub project_id : Text
  pub databases : Text
  pub auth : Text
  pub storage : Text

abbrev of : Text → ConfigRow → Bool
of project_id row = row.project_id == project_id

abbrev overwrite : Config → ConfigRow → ConfigRow
overwrite cfg old = record old { databases = cfg.databases; auth = cfg.auth; storage = cfg.storage }

abbrev row_of : Text → Config → ConfigRow
row_of project_id cfg = record {
  project_id = project_id;
  databases = cfg.databases;
  auth = cfg.auth;
  storage = cfg.storage;
}

-- `Set`; both dialects write the same statement.
pub set : Option Error → List ConfigRow → Text → Config → Result (List ConfigRow)
set outage rows project_id cfg =
    answered outage (ok (upsert (of project_id) (overwrite cfg) (row_of project_id cfg) rows))

scanned : Option ConfigRow → Result Config
scanned none = err no_rows
scanned (some row) =
    ok (record { databases = row.databases; auth = row.auth; storage = row.storage })

-- `Get`
pub get : Option Error → List ConfigRow → Text → Result Config
unfolding scanned
get outage rows project_id = answered outage (scanned (query_row (of project_id) rows))

abbrev pub configs_table : Option Error → Repository
configs_table outage = record { Store = List ConfigRow; set = set outage; get = get outage }

get-upsert :
    (rows : List ConfigRow) (p q : Text) (cfg : Config)
    → scanned (query_row (of q) (upsert (of p) (overwrite cfg) (row_of p cfg) rows))
      ≡ (if p == q then ok cfg else scanned (query_row (of q) rows))
unfolding scanned query_row upsert
get-upsert [] p q cfg = ground arith
get-upsert (row ∷ rows) p q cfg =
    ground
      (arith, get-upsert rows p q cfg, eq_iff p q, eq_iff row.project_id p, eq_iff row.project_id q)

-- Whatever the driver answers, the table is a map from projects to configurations: a set of a project
-- that succeeds is read by its `Get`, and changes no other.
pub configs_table-IsMap : (outage : Option Error) → IsMap (configs_table outage)
unfolding set get
configs_table-IsMap none = record {
  get-set = λ s p q c s' e. ground (arith, e, get-upsert s p q c);
}
configs_table-IsMap (some failure) = record { get-set = λ s p q c s' e. cc }
