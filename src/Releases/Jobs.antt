-- ===== src/Releases/Jobs.antt =====
-- The calls that apps/upload/src/releases.service.ts starts and does not await and that can change
-- a release: updateLatestForProject, refreshReleaseState and, after an upload of a failed release
-- has come or gone, maybeRestoreReleasedStatus; and its message of a change. One call runs to its end before the next: what happens where the awaits of
-- two calls interleave is in `Refresh.Stale`.
pub mod Invariant
use upload.Prelude.{ℕ, String, List, [], ◌∷◌, ◌++◌, ◌≡◌}
use upload.Storage.Orm.{Orm}
use upload.Storage.Db.{Db}
use upload.Storage.Minio.{Minio}
use upload.Releases.{
  Job, update_latest, refresh, send_changed, maybe_restore, update_latest_for_project,
}
use upload.Files.Sync.{maybe_restore_released_status}
use upload.Releases.Refresh.{refresh_release_state}

module _ (orm : Orm) (bucket_name : String) where
  -- The storage and the clock are those of the moment at which the call runs.
  pub run_job : Minio → ℕ → Job → Db → Db × List Job
  run_job minio now (update_latest project) db =
      (record db { releases = update_latest_for_project project db.releases }, [])
  run_job minio now (refresh project version) db =
      refresh_release_state orm minio bucket_name now project version db
  run_job minio now (send_changed project catalog_id event) db = (db, [])
  run_job minio now (maybe_restore catalog_id) db =
      (maybe_restore_released_status orm catalog_id db, [])

  -- Any waiting call may be the next; the calls that it starts wait too.
  pub data Step : Db × List Job → Db × List Job → Type 0 where
    run :
        {db : Db} (minio : Minio) (now : ℕ) (before : List Job) (job : Job) (after : List Job)
        {waiting : List Job}
        → waiting ≡ before ++ job ∷ after
        → Step
            (db, waiting)
            ((run_job minio now job db).0, before ++ after ++ (run_job minio now job db).1)

  pub data Schedule (s : Db × List Job) : Db × List Job → Type 0 where
    start : Schedule s s
    then_run : {t u : Db × List Job} → Schedule s t → Step t u → Schedule s u
