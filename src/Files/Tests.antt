-- ===== src/Files/Tests.antt =====
-- Tests of the model of apps/upload/src/file-upload.service.ts.
use upload.Prelude.{true, some, ◌≡◌, refl, [], ◌∷◌}
use upload.Storage.Orm.{list_orm, list_orm-IsSql}
use upload.Storage.Enums.{in_review, released}
use upload.Storage.Db.{Db}
use upload.Storage.Samples.{db, files, minio, a_file, a_release}
use upload.Files.{sync_and_check_missing_files, mark_removed, exists_in_bucket}
use upload.Files.Sync.{maybe_restore_released_status, file_artifacts_of, file_of}
use upload.Files.Sync.Laws.{maybe_restore_released_status_lem}
use upload.Files.Missing.{sync_and_check_missing_files_lem}

sync_and_check_missing_files_example :
    sync_and_check_missing_files list_orm minio "bucket" (1 ∷ 2 ∷ []) files
    ≡ (true, a_file 1 "kept" ∷ mark_removed (a_file 2 "gone") ∷ [])
unfolding exists_in_bucket
sync_and_check_missing_files_example =
    sync_and_check_missing_files_lem list_orm minio "bucket" (1 ∷ 2 ∷ []) files list_orm-IsSql
      ((refl, tt), (tt, tt))

-- The release 1.0.0 has been released before.
abbrev restorable : Db
restorable = record db {
  releases = record (a_release "1.0.0" in_review 1) { released_at = some 5 } ∷ [];
}

maybe_restore_released_status_example :
    maybe_restore_released_status list_orm "1.0.0" restorable ≡ record restorable {
      releases = record (a_release "1.0.0" released 1) { released_at = some 5 } ∷ [];
    }
unfolding file_artifacts_of file_of
maybe_restore_released_status_example =
    maybe_restore_released_status_lem list_orm "1.0.0" restorable list_orm-IsSql (tt, tt)
