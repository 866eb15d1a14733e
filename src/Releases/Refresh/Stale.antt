-- ===== src/Releases/Refresh/Stale.antt =====
-- `refreshReleaseState` of apps/upload/src/releases.service.ts where another call has changed the
-- table between the reading of the release and the final update.
use upload.Prelude.{
  ℕ, ℕ_eq, String, String_eq, true, ◌≡◌, refl, sym, ap, subst, some, List, [], ◌∷◌, arith,
  map_where, All, All-In, find?-eq-some, Bool-cases, Option-cases, inl, inr,
}
use upload.Storage.Orm.{Orm, IsSql, on_rows, by_rows}
use upload.Storage.Enums.{ReleaseStatus, in_review, released, archived, ReleaseStatus_eq}
use upload.Storage.Rows.{Release}
use upload.Storage.Db.{Db, of_version}
use upload.Storage.Minio.{Minio}
use upload.Releases.{ReleaseView, get_release_entity}
use upload.Releases.Project.{is_active_of, archive, archive_project_releases}
use upload.Releases.Project.Laws.{archive_rows}
use upload.Releases.Refresh.{
  Findings, is_ready, promote, write_status, write_where, examine, refresh_release_state,
}
use upload.Releases.Refresh.Table.{view-release, refresh_missing, refresh_terminal}

-- Each row of a version has a status.
abbrev pub HasStatus : ReleaseStatus → ℕ → String → List Release → Type 0
HasStatus s project version rows =
    All (λ r. of_version project version r ≡ true → r.status ≡ s) rows

-- The database after the project has been archived.
abbrev pub archived_project : Orm → ℕ → Db → Db
archived_project orm project db = record db {
  releases = (archive_project_releases orm project db.releases).0;
}

promoted-HasStatus :
    (now project : ℕ) (version : String) (rows : List Release)
    → HasStatus released project version (map_where (of_version project version) (promote now) rows)
promoted-HasStatus now project version [] = tt
promoted-HasStatus now project version (r ∷ rows) = (
  elim (Bool-cases (of_version project version r)) [
    | inl mine ↦ rw mine (λ _. refl)
    | inr other ↦ rw other (λ h. cc)
  ],
  promoted-HasStatus now project version rows,
)

archived-HasStatus :
    (project : ℕ) (version : String) (rows : List Release)
    → HasStatus archived project version (map_where (is_active_of project) archive rows)
archived-HasStatus project version [] = tt
archived-HasStatus project version (r ∷ rows) = (
  elim (Bool-cases (is_active_of project r)) [
    | inl active ↦ rw active (λ _. refl)
    | inr idle ↦ rw idle (λ h. ground (arith, ReleaseStatus_eq.same_iff r.status archived))
  ],
  archived-HasStatus project version rows,
)

archive-HasStatus :
    (orm : Orm) (project : ℕ) (version : String) (rows : List Release)
    → HasStatus archived project version (archive_project_releases (on_rows orm) project rows).0
archive-HasStatus orm project version rows =
    subst (HasStatus archived project version) (sym (ap (λ t. t.0) (archive_rows orm project rows)))
      (archived-HasStatus project version rows)

-- A refresh leaves archived rows alone.
refresh-HasStatus :
    (orm : Orm) (minio : Minio) (bucket_name : String) (now project : ℕ) (version : String)
    (db : Db)
    → HasStatus archived project version db.releases
    → HasStatus archived project version
        (refresh_release_state (on_rows orm) minio bucket_name now project version db).0.releases
refresh-HasStatus orm minio bucket_name now project version db h =
    elim (Option-cases (get_release_entity (on_rows orm) db project version)) [
      | inl missing ↦
          subst (λ s. HasStatus archived project version s.0.releases)
            (sym (refresh_missing (on_rows orm) minio bucket_name now project version db missing)) h
      | inr (view, read) ↦
          let found =
            find?-eq-some (of_version project version) db.releases view.release
              (view-release orm db project version view read) in
          let status : view.release.status ≡ archived =
            All-In (λ r. of_version project version r ≡ true → r.status ≡ archived) db.releases
              view.release h found.1 found.0 in
          subst (λ s. HasStatus archived project version s.0.releases)
            (sym (
              refresh_terminal (on_rows orm) minio bucket_name now project version db view read
                (rw status refl)))
            h
    ]

late_update :
    (orm : Orm) (now project : ℕ) (version : String) (view : ReleaseView) (found : Findings)
    (db : Db)
    → view.release.status ≡ in_review
    → found.regulations_compliant ≡ true
    → is_ready found ≡ true
    → HasStatus released project version
        (write_status (on_rows orm) now project version view found db).0.releases
unfolding write_status write_where
late_update orm now project version view found db s c r =
    rw (s, c, r) (promoted-HasStatus now project version db.releases)

-- A refresh reads a release in review and finds it justified, while the project is archived. If one
-- of the two calls ends before the other starts, the version is archived, whichever comes first; if
-- the archiving falls between the reading and the last update of the refresh, the version is
-- released.
pub write_status_stale :
    (orm : Orm) (minio : Minio) (bucket_name : String) (now project : ℕ) (version : String)
    (view : ReleaseView) (db : Db)
    → IsSql orm
    → get_release_entity orm db project version ≡ some view
    → view.release.status ≡ in_review
    → (examine orm minio bucket_name project version view db).0.regulations_compliant ≡ true
    → is_ready (examine orm minio bucket_name project version view db).0 ≡ true
    → HasStatus archived project version
        (refresh_release_state orm minio bucket_name now project version
          (archived_project orm project db)).0.releases
      × HasStatus archived project version
          (archived_project orm project
            (refresh_release_state orm minio bucket_name now project version db).0).releases
      × HasStatus released project version
          (write_status orm now project version view
            (examine orm minio bucket_name project version view db).0
            (archived_project orm project
              (examine orm minio bucket_name project version view db).1)).0.releases
write_status_stale orm minio bucket_name now project version view db sql =
    by_rows
      (λ o.
        get_release_entity o db project version ≡ some view
        → view.release.status ≡ in_review
        → (examine o minio bucket_name project version view db).0.regulations_compliant ≡ true
        → is_ready (examine o minio bucket_name project version view db).0 ≡ true
        → HasStatus archived project version
            (refresh_release_state o minio bucket_name now project version
              (archived_project o project db)).0.releases
          × HasStatus archived project version
              (archived_project o project
                (refresh_release_state o minio bucket_name now project version db).0).releases
          × HasStatus released project version
              (write_status o now project version view
                (examine o minio bucket_name project version view db).0
                (archived_project o project
                  (examine o minio bucket_name project version view db).1)).0.releases)
      orm sql
      (λ read s c r. (
        refresh-HasStatus orm minio bucket_name now project version
            (archived_project (on_rows orm) project db)
            (archive-HasStatus orm project version db.releases),
        archive-HasStatus orm project version _,
        late_update orm now project version view _ _ s c r,
      ))
