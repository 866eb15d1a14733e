-- ===== src/Releases/Refresh/Table.antt =====
-- What `refreshReleaseState` of apps/upload/src/releases.service.ts leaves in the table of releases,
-- against a description of one row.
use upload.Prelude.{
  ℕ, ℕ_eq, String, String_eq, Bool, true, false, not, ◌&&◌, ◌||◌, none, some, List, [], ◌≡◌, refl,
  sym, ◌∙◌, ap, arith, ◌==◌, if◌then◌else◌, length, find?, head?-filter, map, map_where,
  map_where-eq, map-map, map-id, All, All-map, Bool-cases, inl, inr,
}
use upload.Storage.Orm.{Orm, IsSql, on_rows, by_rows}
use upload.Storage.Enums.{ReleaseStatus, in_review, released, ReleaseStatus_eq}
use upload.Storage.Rows.{Release}
use upload.Storage.Db.{Db, of_version, HasUniqueVersions, only-version}
use upload.Storage.Minio.{Minio}
use upload.Files.Sync.{set_status}
use upload.Regulations.{get_version_regulations_statuses}
use upload.Releases.{ReleaseView, get_release_entity}
use upload.Releases.Refresh.{
  Findings, is_ready, is_terminal, promote, back_to_review, check_regulations, write_status,
  write_where, examine, refresh_release_state,
}

-- The two counts that a refresh writes: the regulations of the project, and those complied with.
pub regulation_counts : Orm → ℕ → String → Db → ℕ × ℕ
regulation_counts orm project version db =
    let regulations = orm.find (λ r. r.project == project) db.regulations in
    (
      length regulations,
      (check_regulations (get_version_regulations_statuses orm db project version) regulations
          (true, 0)).1,
    )

abbrev pub with_counts : ℕ × ℕ → Release → Release
with_counts (required, compliant) r = record r {
  required_regulations_count = required;
  compliant_regulations_count = compliant;
}

-- One row after a refresh. A released release keeps its counts; it goes back to review, or to
-- error where a file is missing, if it is not justified any more. A release in review becomes
-- released if it is justified.
unfoldable pub settle : ℕ → Findings → ℕ × ℕ → Release → Release
settle now found counts r =
    let justified = found.regulations_compliant && is_ready found in
    if r.status == released
    then if justified
      then r
      else if found.storage_missing
      then set_status ReleaseStatus.error r
      else back_to_review r
    else if r.status == in_review && justified
    then promote now (with_counts counts r)
    else with_counts counts r

pub view-release :
    (orm : Orm) (db : Db) (project : ℕ) (version : String) (view : ReleaseView)
    → get_release_entity (on_rows orm) db project version ≡ some view
    → find? (of_version project version) db.releases ≡ some view.release
unfolding get_release_entity
view-release orm db project version view h =
    ground (arith, head?-filter (of_version project version) db.releases)

-- A refresh of a version that is not there, or that is in error or archived, does nothing.
module _ (orm : Orm) (minio : Minio) (bucket_name : String) (now project : ℕ) (version : String)
    (db : Db) where
  pub refresh_missing :
      get_release_entity orm db project version ≡ none
      → refresh_release_state orm minio bucket_name now project version db ≡ (db, [])
  unfolding refresh_release_state
  refresh_missing h = rw (h, refresh_release_state)

  pub refresh_terminal :
      (view : ReleaseView)
      → get_release_entity orm db project version ≡ some view
      → is_terminal view.release ≡ true
      → refresh_release_state orm minio bucket_name now project version db ≡ (db, [])
  unfolding refresh_release_state
  refresh_terminal view h t = rw (h, t, refresh_release_state)

module _ (now project : ℕ) (version : String) (view : ReleaseView) (found : Findings)
    (counts : ℕ × ℕ) (orm : Orm) where
  -- The two updates of a refresh in a row, as the code writes them.
  write_row : Release → Release
  write_row r =
      if of_version project version r && not (r.status == released) then with_counts counts r else r

  -- The update that the decision chooses, on one row: whether the release fails, whether a file is
  -- missing, and whether it passes.
  chosen_row : (fails missing passes : Bool) → Release → Release
  chosen_row fails missing passes r =
      let key = of_version project version r in
      let was_released = key && r.status == released in
      if fails
      then if missing
        then if was_released then set_status ReleaseStatus.error r else r
        else if was_released
        then back_to_review r
        else r
      else if passes
      then if key then promote now r else r
      else r

  fails : Bool
  fails =
      (not found.regulations_compliant || not (is_ready found)) && view.release.status == released

  passes : Bool
  passes = found.regulations_compliant && view.release.status == in_review && is_ready found

  chosen-releases :
      (fails missing passes : Bool) (db : Db)
      → (let key = of_version project version in
          let was_released = λ (r : Release). key r && r.status == released in
          if fails
          then if missing
            then write_where
                (on_rows orm)
                was_released
                (set_status ReleaseStatus.error)
                ReleaseStatus.error
                project
                view
                db
            else write_where (on_rows orm) was_released back_to_review in_review project view db
          else if passes
          then write_where (on_rows orm) key (promote now) released project view db
          else (db, [], none)).0.releases
        ≡ map (chosen_row fails missing passes) db.releases
  unfolding write_where chosen_row
  chosen-releases true true _ db = refl
  chosen-releases true false _ db = refl
  chosen-releases false _ true db = refl
  chosen-releases false _ false db = sym (map-id db.releases)

  chosen-settle :
      (x : Release)
      → is_terminal view.release ≡ false
      → (of_version project version x ≡ true → x ≡ view.release)
      → chosen_row fails found.storage_missing passes (write_row x)
        ≡ (if of_version project version x then settle now found counts x else x)
  unfolding write_row chosen_row settle fails passes
  chosen-settle x alive only = elim (Bool-cases (of_version project version x)) [
    | inl mine ↦
        let same : view.release.status ≡ x.status = ap (λ r. r.status) (sym (only mine)) in
        ground arith
    | inr other ↦ ground arith
  ]

  write_status-settle :
      (db : Db) (rows : List Release)
      → All (λ x. of_version project version x ≡ true → x ≡ view.release) rows
      → is_terminal view.release ≡ false
      → (write_status
          (on_rows orm)
          now
          project
          version
          view
          found
          (record db { releases = map write_row rows })).0.releases
        ≡ map_where (of_version project version) (settle now found counts) rows
  unfolding write_status fails passes
  write_status-settle db rows only alive =
      chosen-releases fails found.storage_missing passes _
      ∙ map-map _ write_row rows
      ∙ map_where-eq (of_version project version) (settle now found counts) _ rows
          (All-map _ _ rows (λ x only. chosen-settle x alive only) only)

refresh_table_rows :
    (orm : Orm) (minio : Minio) (bucket_name : String) (now project : ℕ) (version : String)
    (db : Db) (view : ReleaseView)
    → HasUniqueVersions db
    → get_release_entity (on_rows orm) db project version ≡ some view
    → is_terminal view.release ≡ false
    → (refresh_release_state (on_rows orm) minio bucket_name now project version db).0.releases
      ≡ map_where
          (of_version project version)
          (settle now
            (examine (on_rows orm) minio bucket_name project version view db).0
            (regulation_counts (on_rows orm) project version db))
          db.releases
unfolding refresh_release_state examine regulation_counts write_row
refresh_table_rows orm minio bucket_name now project version db view unique read alive =
    rw (read, alive, refresh_release_state)
      (write_status-settle now project version view
        (examine (on_rows orm) minio bucket_name project version view db).0
        (regulation_counts (on_rows orm) project version db) orm
        (examine (on_rows orm) minio bucket_name project version view db).1 db.releases
        (only-version project version db view.release unique
          (view-release orm db project version view read))
        alive)

-- A refresh of a release that is neither in error nor archived turns each row of its project and
-- version into the settled one, with what the refresh found and the counts of the regulations, and
-- leaves each other row of the table as it is. Versions are unique in the table.
pub refresh_table :
    (orm : Orm) (minio : Minio) (bucket_name : String) (now project : ℕ) (version : String)
    (db : Db) (view : ReleaseView)
    → IsSql orm
    → HasUniqueVersions db
    → get_release_entity orm db project version ≡ some view
    → is_terminal view.release ≡ false
    → (refresh_release_state orm minio bucket_name now project version db).0.releases
      ≡ map_where
          (of_version project version)
          (settle now
            (examine orm minio bucket_name project version view db).0
            (regulation_counts orm project version db))
          db.releases
refresh_table orm minio bucket_name now project version db view sql unique =
    by_rows
      (λ o.
        get_release_entity o db project version ≡ some view
        → is_terminal view.release ≡ false
        → (refresh_release_state o minio bucket_name now project version db).0.releases
          ≡ map_where (of_version project version)
              (settle now (examine o minio bucket_name project version view db).0
                (regulation_counts o project version db))
              db.releases)
      orm sql (refresh_table_rows orm minio bucket_name now project version db view unique)
