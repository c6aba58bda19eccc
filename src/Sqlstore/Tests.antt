-- ===== src/Sqlstore/Tests.antt =====
-- The tables at small inputs.
use santokit.Base.{
  ℕ, ltb, ◌/◌, ◌*◌, ◌≡◌, refl, Option, none, some, List, [], ◌∷◌, arith, Text, lit, ◌==◌, ok, err,
  constraint_failed,
}
use santokit.Registry.{Bundle, Manifest}
use santokit.Vault.{IsKeyed}
use santokit.Base.Strings.{split, has_prefix, has_suffix}
use santokit.Base.Strings.Search.{cut}
use santokit.Base.Paths.{clean, join}
use santokit.Sqlstore.Dsn.{normalize_dsn, sqlite_path}
use santokit.Sqlstore.Table.{exists, insert_row}
use santokit.Sqlstore.Secrets.{Driver, secrets_table, secrets_table-IsKeyed}
use santokit.Sqlstore.Rebind.{rebind, postgres, sqlite}
use santokit.Sqlstore.Rebind.Laws.{marks, numbers, unambiguous, rebind_lem}
use santokit.Sqlstore.Manifests.{BundleCodec, Column, ManifestRow, row_of, save}
use santokit.Sqlstore.Manifests.Laws.{save_again}

-- The query of `Get` of the vault's repository.
abbrev get_query : Text
get_query =
    lit "SELECT encrypted_value FROM vault_secrets WHERE project_id = ? AND secret_key = ? LIMIT 1"

rebind_lem_example :
    (out : Text) × (rebind postgres get_query ≡ some out) × (numbers none out ≡ marks 1 get_query)
unfolding unambiguous
rebind_lem_example = rebind_lem get_query (omega arith) refl

-- A driver that refuses to delete.
abbrev no_deletes : Driver
no_deletes = record {
  set_answer = none;
  get_answer = none;
  delete_answer = some constraint_failed;
  list_answer = none;
  stops = none;
}

secrets_table-IsKeyed_example : IsKeyed (secrets_table no_deletes)
secrets_table-IsKeyed_example = secrets_table-IsKeyed no_deletes refl refl

-- A codec of manifests without bundles.
only_empty : List Bundle → Option Text
only_empty [] = some (lit "[]")
only_empty (_ ∷ _) = none

abbrev codec : BundleCodec
codec = record { marshal = only_empty; unmarshal = λ _. some [] }

abbrev at_time : ℕ → Text → Manifest
at_time now version = record {
  id = [];
  project_id = lit "shop";
  version = version;
  bundles = [];
  created_at = now;
  created_by = lit "ann";
}

-- A column that keeps seconds of times in tenths.
abbrev seconds : Column
seconds = record { Stored = ℕ; put = λ t. t / 10; scan = λ t. some (t * 10); before = ltb }

abbrev rows : List (ManifestRow seconds)
rows = row_of seconds (at_time 1 (lit "v1")) (lit "[]") ∷ []

abbrev rows' : List (ManifestRow seconds)
rows' =
    row_of seconds (at_time 1 (lit "v1")) (lit "[]")
    ∷ row_of seconds (at_time 25 (lit "v2")) (lit "[]")
    ∷ []

saved : save seconds codec none rows (at_time 25 (lit "v2")) ≡ ok rows'
unfolding save only_empty insert_row exists row_of ◌==◌
saved = refl

save_again_example : save seconds codec none rows' (at_time 9 (lit "v2")) ≡ err constraint_failed
save_again_example =
    save_again seconds codec none rows rows' (at_time 25 (lit "v2")) saved (at_time 9 (lit "v2"))
      (lit "[]") refl refl (unfold only_empty in refl)

dsn_test :
    normalize_dsn (lit "/home/ann") (lit "hub.db")
    ≡ ok (record {
      driver = lit "sqlite";
      normalized = lit "file:/home/ann/.santokit/hub.db?cache=shared&_pragma=foreign_keys(1)";
      dialect = sqlite;
    })
unfolding normalize_dsn sqlite_path join clean split has_prefix has_suffix cut ◌==◌
dsn_test = refl
