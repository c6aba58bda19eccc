-- ===== src/Sqlstore/Dsn/Laws.antt =====
-- What a database is opened as.
use santokit.Base.{
  ◌≡◌, refl, ◌⊎◌, inl, inr, Bool-cases, Bool, true, false, ◌||◌, ◌++◌, is_some, if◌then◌else◌,
  is_empty, Text, lit, ok, err, unsupported_url,
}
use santokit.Base.Strings.{has_prefix, has_suffix}
use santokit.Base.Strings.Laws.{has_prefix-append}
use santokit.Base.Strings.Search.{cut}
use santokit.Sqlstore.Rebind.{postgres, sqlite}
use santokit.Sqlstore.Dsn.{
  Dsn, options, to_sqlite, trim_prefix, in_home, sqlite_path, normalize_dsn,
}

-- PostgreSQL is opened by the URL itself, and SQLite by the URI of a file.
pub IsOpened : Text → Dsn → Type 0
IsOpened dsn x =
    ((x.dialect ≡ postgres) × (x.driver ≡ lit "pgx") × (x.normalized ≡ dsn))
    ⊎ ((x.dialect ≡ sqlite)
        × (x.driver ≡ lit "sqlite")
        × (has_prefix x.normalized (lit "file:") ≡ true))

sqlite_path_lem : (home path : Text) → has_prefix (sqlite_path home path) (lit "file:") ≡ true
unfolding sqlite_path
sqlite_path_lem home path = elim (Bool-cases (has_prefix path (lit "file:"))) [
  | inl uri ↦ rw uri uri
  | inr name ↦ rw name (has_prefix-append (lit "file:") _)
]

one : (dsn : Text) (x y : Dsn) → ok x ≡ ok y → IsOpened dsn x → IsOpened dsn y
one dsn x y e o = let same : x ≡ y = cc in rw (← same) o

-- A URL that is accepted is opened by the driver of its dialect: PostgreSQL's by the URL as it is, and
-- SQLite's by the URI of a file, whatever way the file was named.
pub normalize_dsn_lem : (home dsn : Text) (x : Dsn) → normalize_dsn home dsn ≡ ok x → IsOpened dsn x
unfolding normalize_dsn IsOpened
normalize_dsn_lem home dsn x e =
    elim (Bool-cases (has_prefix dsn (lit "postgres://") || has_prefix dsn (lit "postgresql://"))) [
      | inl pg ↦ one dsn _ x (rw pg at e) (inl (refl, refl, refl))
      | inr other ↦
          by_file (is_empty dsn) (has_prefix dsn (lit "sqlite://"))
            (has_prefix dsn (lit "file:") || has_suffix dsn (lit ".db"))
            (is_some (cut (lit "/") dsn)) (rw other at e)
    ]
  where
    by_file :
        (empty scheme file slash : Bool)
        → (if empty
            then ok (to_sqlite (lit "file:" ++ (in_home home (lit "hub.db") ++ options)))
            else if scheme
            then ok (to_sqlite (sqlite_path home (trim_prefix dsn (lit "sqlite://"))))
            else if file
            then ok (to_sqlite (sqlite_path home (trim_prefix dsn (lit "file:"))))
            else if slash
            then ok (to_sqlite (sqlite_path home dsn))
            else err unsupported_url)
          ≡ ok x
        → IsOpened dsn x
    by_file true _ _ _ e = one dsn _ x e (inr (refl, refl, has_prefix-append (lit "file:") _))
    by_file false true _ _ e = one dsn _ x e (inr (refl, refl, sqlite_path_lem home _))
    by_file false false true _ e = one dsn _ x e (inr (refl, refl, sqlite_path_lem home _))
    by_file false false false true e = one dsn _ x e (inr (refl, refl, sqlite_path_lem home _))
    by_file false false false false e = absurd (cc)
