-- ===== src/Sqlstore/Manifests/Laws.antt =====
-- Which manifest the table answers as the latest, and which it refuses.
use santokit.Base.{
  ◌≡◌, refl, sym, ◌++◌, inl, inr, Bool-cases, Bool, false, not, ◌&&◌, ◌||◌, ℕ, Option, none, some,
  List, [], ◌∷◌, arith, if◌then◌else◌, Text, ◌==◌, eq_iff, eq_refl, Result, ok, err, Error,
  constraint_failed, marshal_failed, Option-cases,
}
use santokit.Sqlstore.Table.{exists, exists-append, select, insert_row}
use santokit.Registry.{Manifest}
use santokit.Sqlstore.Manifests.{
  BundleCodec, Column, ManifestRow, row_id, row_of, newer, newest, of, save, scanned, get_latest,
}

module _ (column : Column) where
  -- A row of the manifest's project whose time, as the column keeps it, is not strictly before the one
  -- that is kept of the manifest.
  abbrev pub not_older : Manifest → ManifestRow column → Bool
  not_older m row =
      row.project_id == m.project_id
      && (not (column.before row.created_at (column.put m.created_at))
          || column.before (column.put m.created_at) row.created_at)

  newest-append :
      (m : Manifest) (b : Text) (rows : List (ManifestRow column))
      → exists (not_older m) rows ≡ false
      → newest column (select (of column m.project_id) (rows ++ row_of column m b ∷ []))
        ≡ some (row_of column m b)
  unfolding newest newer select exists row_of
  newest-append m b [] h = ground (arith, eq_refl m.project_id)
  newest-append m b (row ∷ rows) h = ground (arith, newest-append m b rows)

  select-append :
      (p : Text) (row : ManifestRow column) (rows : List (ManifestRow column))
      → (row.project_id == p) ≡ false
      → select (of column p) (rows ++ row ∷ []) ≡ select (of column p) rows
  unfolding select
  select-append p row [] h = ground (arith, h)
  select-append p row (x ∷ rows) h = rw (select-append p row rows h) refl

  module _ (codec : BundleCodec) (outage : Option Error) (rows rows' : List (ManifestRow column))
      (m : Manifest) where
    save_ok :
        save column codec outage rows m ≡ ok rows'
        → (b : Text) × (codec.marshal m.bundles ≡ some b)
          × (outage ≡ none)
          × (exists (λ row. row.id == row_id m) rows ≡ false)
          × (rows' ≡ rows ++ row_of column m b ∷ [])
    unfolding save insert_row
    save_ok e = elim (Option-cases (codec.marshal m.bundles)) [
      | inl failed ↦ absurd (never marshal_failed (rw failed at e))
      | inr (b, good) ↦ elim (Option-cases outage) [
        | inl up ↦ elim (Bool-cases (exists (λ row. row.id == row_id m) rows)) [
          | inl old ↦ absurd (never constraint_failed (rw (good, up, old) at e))
          | inr fresh ↦ (b, good, up, fresh, sym (same _ _ (rw (good, up, fresh) at e)))
        ]
        | inr (failure, down) ↦ absurd (never failure (rw (good, down) at e))
      ]
    ]
      where
        never : (x : Error) → ◌≡◌ {A = Result (List (ManifestRow column))} (err x) (ok rows') → ⊥
        never x h = cc

        same :
            (a b : List (ManifestRow column))
            → ◌≡◌ {A = Result (List (ManifestRow column))} (ok a) (ok b)
            → a ≡ b
        same a b h = cc

    module _ (saved : save column codec outage rows m ≡ ok rows') where
      -- After a `Save` that succeeded of a manifest whose time, as the column keeps it, is after those of
      -- its project's rows and can be scanned again, and whose bundles JSON carries, `GetLatest` of the
      -- project, where the driver answers it, is that manifest, with the row's identifier and the scanned time, and of any other
      -- project what it was.
      pub get_latest-save_newer :
          (p : Text) (t : ℕ)
          → exists (not_older m) rows ≡ false
          → ((b : Text) → codec.marshal m.bundles ≡ some b → codec.unmarshal b ≡ some m.bundles)
          → column.scan (column.put m.created_at) ≡ some t
          → get_latest column codec none rows' p ≡ (
              if m.project_id == p
              then ok (record m { id = row_id m; created_at = t })
              else get_latest column codec none rows p)
      unfolding get_latest
      get_latest-save_newer p t newest_one carried scans =
          let (b, good, up, fresh, same) = save_ok saved in
          elim (Bool-cases (m.project_id == p)) [
            | inl own ↦
                rw (same, own, ← (eq_iff m.project_id p).0 own, newest-append m b rows newest_one)
                  (unfold scanned row_of in rw (scans, carried b good) refl)
            | inr other ↦
                rw (same, other, select-append p (row_of column m b) rows (unfold row_of in other))
                  refl
          ]

      -- A project's version is saved once: after a `Save` that succeeded, a `Save` of a manifest of the
      -- same project and version, whose bundles can be encoded, is refused.
      pub save_again :
          (m' : Manifest) (b' : Text)
          → m'.project_id ≡ m.project_id
          → m'.version ≡ m.version
          → codec.marshal m'.bundles ≡ some b'
          → save column codec outage rows' m' ≡ err constraint_failed
      unfolding save insert_row
      save_again m' b' project version encoded =
          let (b, good, up, fresh, same) = save_ok saved in
          rw
            (
              encoded,
              up,
              project,
              version,
              same,
              exists-append (λ row. row.id == row_id m) rows (row_of column m b ∷ []),
              fresh,
            )
            (unfold exists row_of in rw (eq_refl (row_id m)) refl)
