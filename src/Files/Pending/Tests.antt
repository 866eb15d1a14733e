-- ===== src/Files/Pending/Tests.antt =====
-- Tests of the model of `syncUploadedFiles` and of the updates of
-- apps/upload/src/file-upload.service.ts.
use upload.Prelude.{
  ℕ, String, true, false, none, some, ◌≡◌, refl, arith, List, [], ◌∷◌, map, filter, length,
}
use upload.Storage.Orm.{list_orm, list_orm-IsSql}
use upload.Storage.Enums.{pending, uploaded, removed, error}
use upload.Storage.Rows.{FileUpload}
use upload.Storage.Samples.{minio, a_file}
use upload.Files.Update.{
  process_file, file_created, delete_objects, update_upload_file, remove_file,
  update_of_notification,
}
use upload.Files.Pending.{sync_uploaded_files, sync_pages, is_pending, stale_threshold}
use upload.Files.Pending.Pages.{IsOrdering, sync_uploaded_files-fuel}
use upload.Files.Pending.Laws.{IsMarked, sync_uploaded_files_lem}

abbrev a_pending : String → FileUpload
a_pending object_key = record (a_file 1 object_key) { status = pending }

abbrev as_they_come : List FileUpload → List FileUpload
as_they_come rows = rows

as_they_come-IsOrdering : IsOrdering as_they_come
as_they_come-IsOrdering = record { sizes = λ rows. refl; members = λ p rows. refl }

abbrev two_pending : List FileUpload
two_pending = a_pending "kept" ∷ a_pending "gone" ∷ []

-- A second after the default lifetime of a presigned URL.
abbrev expired : ℕ
expired = 3601000

sync_uploaded_files-fuel_example :
    sync_pages list_orm minio "bucket"
      (stale_threshold expired none)
      as_they_come
      expired
      1
      0
      (two_pending, [])
    ≡ sync_uploaded_files list_orm minio "bucket" as_they_come expired none two_pending
sync_uploaded_files-fuel_example =
    sync_uploaded_files-fuel list_orm minio "bucket" as_they_come expired none 1 two_pending
      list_orm-IsSql as_they_come-IsOrdering (omega arith)

sync_uploaded_files_example :
    IsMarked minio "bucket"
      (stale_threshold expired none)
      expired
      two_pending
      (sync_uploaded_files list_orm minio "bucket" as_they_come expired none two_pending).0
sync_uploaded_files_example =
    sync_uploaded_files_lem list_orm minio "bucket" as_they_come expired none two_pending
      list_orm-IsSql as_they_come-IsOrdering ((refl, tt), (tt, tt))

-- The upload that is gone is flagged, and the one that is kept is to be updated.
marks_the_one_that_is_gone :
    map
      (λ f. f.status)
      (sync_uploaded_files list_orm minio "bucket" as_they_come expired none two_pending).0
    ≡ pending ∷ error ∷ []
unfolding sync_uploaded_files
marks_the_one_that_is_gone = refl

-- The flagged uploads leave the query, so that the second page skips ten of those that are left.
abbrev eleven : List FileUpload
eleven = map a_pending ("a" ∷ "b" ∷ "c" ∷ "d" ∷ "e" ∷ "f" ∷ "g" ∷ "h" ∷ "i" ∷ "j" ∷ "k" ∷ [])

misses_the_eleventh :
    length (
      filter
        (is_pending expired)
        (sync_uploaded_files list_orm minio "bucket" as_they_come expired none eleven).0)
    ≡ 1
unfolding sync_uploaded_files
misses_the_eleventh = refl

an_arrival :
    update_upload_file list_orm false
      (record {
        object_key = "gone";
        status = some uploaded;
        size = some 7;
        content_type = none;
        upload_at = some 3;
      })
      (record { files = a_pending "gone" ∷ []; sbom_scan_flags = ("gone", false) ∷ [] })
    ≡ some (
      record {
        files =
            record (a_pending "gone") { status = uploaded; size = some 7; upload_at = some 3 } ∷ [];
        sbom_scan_flags = [];
      },
      1,
      process_file "gone" true false ∷ file_created "gone" ∷ [],
    )
unfolding update_upload_file
an_arrival = refl

a_removal :
    remove_file list_orm 1 (a_file 1 "kept" ∷ [])
    ≡ (record (a_file 1 "kept") { status = removed } ∷ [], delete_objects "kept" ∷ [])
unfolding remove_file
a_removal = refl

an_unknown_event :
    update_of_notification (record {
      event_name = "s3:ObjectAccessed:Get";
      key = "kept";
      size = none;
      content_type = none;
      event_time = none;
    })
    ≡ none
unfolding update_of_notification
an_unknown_event = refl
