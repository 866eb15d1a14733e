-- ===== src/Files/Sync/Laws.antt =====
-- `maybeRestoreReleasedStatus` of apps/upload/src/file-upload.service.ts: which release it restores.
use upload.Prelude.{
  String, String_eq, Bool, true, false, ◌&&◌, Option, none, some, List, [], ◌∷◌, ◌≡◌, refl, sym,
  ◌∙◌, ap, arith, ◌==◌, if◌then◌else◌, all, find?, head?-filter, map_where, map_where-eq, map-id,
  All, All-map, Distinct, only-find?, Bool-cases, Option-cases, inl, inr, eq_iff,
}
use upload.Storage.Orm.{Orm, IsSql, on_rows, by_rows}
use upload.Storage.Enums.{released}
use upload.Storage.Rows.{Release}
use upload.Storage.Db.{Db, same_catalog_id}
use upload.Files.Sync.{
  is_healthy, may_restore, set_status, file_of, file_artifacts_of, maybe_restore_released_status,
}

-- A list that a test does not find anything in.
find?-none :
    (p : Release → Bool) (rows : List Release) → find? p rows ≡ none → All (λ r. p r ≡ false) rows
find?-none p [] h = tt
find?-none p (r ∷ rows) h = elim (Bool-cases (p r)) [
  | inl hit ↦ absurd (ground arith)
  | inr miss ↦ (miss, find?-none p rows (rw miss at h))
]

module _ (id : String) (healthy : Bool) where
  abbrev is_of : Release → Bool
  is_of r = r.catalog_id == id

  abbrev is_restored : Release → Bool
  is_restored r = r.catalog_id == id && (may_restore r && healthy)

  -- Every row stays, or takes the status, as the one row that is found does.
  restore_rows : Option Release → List Release → List Release
  restore_rows none rows = rows
  restore_rows (some r) rows =
      if may_restore r && healthy then map_where is_of (set_status released) rows else rows

  restore_rows_lem :
      (rows : List Release)
      → Distinct same_catalog_id rows
      → restore_rows (find? is_of rows) rows ≡ map_where is_restored (set_status released) rows
  unfolding restore_rows
  restore_rows_lem rows unique = elim (Option-cases (find? is_of rows)) [
    | inl missing ↦ rw missing (
        sym (map-id rows)
        ∙ map_where-eq is_restored (set_status released) (λ r. r) rows
            (All-map _ _ rows (λ r miss. rw miss refl) (find?-none is_of rows missing)))
    | inr (r, found) ↦
        let only = only-find? is_of same_catalog_id rows r same unique found in
        elim (Bool-cases (may_restore r && healthy)) [
          | inl good ↦
              rw (found, good)
                (map_where-eq is_restored (set_status released) _ rows
                  (All-map _ _ rows (λ x e. restored_row r x good e) only))
          | inr bad ↦
              rw (found, bad)
                (sym (map-id rows)
                  ∙ map_where-eq is_restored (set_status released) (λ x. x) rows
                      (All-map _ _ rows (λ x e. kept_row r x bad e) only))
        ]
  ]
    where
      same : (x y : Release) → is_of x ≡ true → is_of y ≡ true → same_catalog_id x y ≡ true
      same x y hx hy =
          ground (
            arith,
            eq_iff x.catalog_id id,
            eq_iff y.catalog_id id,
            eq_iff x.catalog_id y.catalog_id,
          )

      restored_row :
          (r x : Release)
          → (may_restore r && healthy) ≡ true
          → (is_of x ≡ true → x ≡ r)
          → (if is_of x then set_status released x else x)
            ≡ (if is_restored x then set_status released x else x)
      restored_row r x good e = elim (Bool-cases (is_of x)) [
        | inl hit ↦
            let here_too : (may_restore x && healthy) ≡ true = rw (e hit) good in
            rw (hit, here_too) refl
        | inr miss ↦ rw miss refl
      ]

      kept_row :
          (r x : Release)
          → (may_restore r && healthy) ≡ false
          → (is_of x ≡ true → x ≡ r)
          → x ≡ (if is_restored x then set_status released x else x)
      kept_row r x bad e = elim (Bool-cases (is_of x)) [
        | inl hit ↦
            let here_too : (may_restore x && healthy) ≡ false = rw (e hit) bad in
            rw (hit, here_too) refl
        | inr miss ↦ rw miss refl
      ]

module _ (orm : Orm) where
  -- Whether each file of a release is in the state that a release needs.
  abbrev pub files_are_healthy : String → Db → Bool
  files_are_healthy id db = all (file_artifacts_of orm id db) (λ a. is_healthy (file_of orm db a))

restored_db :
    (orm : Orm) (id : String) (db : Db)
    → Distinct same_catalog_id db.releases
    → maybe_restore_released_status (on_rows orm) id db ≡ record db {
      releases =
          map_where
            (is_restored id (files_are_healthy (on_rows orm) id db))
            (set_status released)
            db.releases;
    }
unfolding maybe_restore_released_status restore_rows
restored_db orm id db unique =
    let rows = restore_rows_lem id (files_are_healthy (on_rows orm) id db) db.releases unique in
    let healthy = files_are_healthy (on_rows orm) id db in
    let first = head?-filter (λ r. r.catalog_id == id) db.releases in
    elim (Option-cases (find? (λ r. r.catalog_id == id) db.releases)) [
      | inl missing ↦
          let table : db.releases
              ≡ map_where (is_restored id healthy) (set_status released) db.releases =
            rw missing at rows in
          rw (first ∙ missing, maybe_restore_released_status)
            (ap (λ rs. record db { releases = rs }) table)
      | inr (r, found) ↦ elim (Bool-cases (may_restore r && healthy)) [
        | inl good ↦
            let table : map_where (λ r. r.catalog_id == id) (set_status released) db.releases
                ≡ map_where (is_restored id healthy) (set_status released) db.releases =
              rw (found, good) at rows in
            rw (first ∙ found, maybe_restore_released_status)
              (rw good (ap (λ rs. record db { releases = rs }) table))
        | inr bad ↦
            let table : db.releases
                ≡ map_where (is_restored id healthy) (set_status released) db.releases =
              rw (found, bad) at rows in
            rw (first ∙ found, maybe_restore_released_status)
              (rw bad (ap (λ rs. record db { releases = rs }) table))
      ]
    ]

-- The release with the id becomes released where it is in error or in review, has been released
-- before and all its files are healthy; nothing else changes in the database. Catalog ids are unique.
pub maybe_restore_released_status_lem :
    (orm : Orm) (id : String) (db : Db)
    → IsSql orm
    → Distinct same_catalog_id db.releases
    → maybe_restore_released_status orm id db ≡ record db {
      releases =
          map_where
            (λ r. r.catalog_id == id && (may_restore r && files_are_healthy orm id db))
            (set_status released)
            db.releases;
    }
maybe_restore_released_status_lem orm id db sql unique =
    by_rows
      (λ o. maybe_restore_released_status o id db ≡ record db {
        releases =
            map_where (λ r. r.catalog_id == id && (may_restore r && files_are_healthy o id db))
              (set_status released) db.releases;
      })
      orm sql (restored_db orm id db unique)
