-- ===== src/Files.antt =====
-- apps/upload/src/file-upload.service.ts: the rows of uploads and their objects in the storage.
pub mod Missing
pub mod Uploaded
pub mod Sync
pub mod Update
pub mod Pending
mod Tests
use Prim.Native.String
use text.Mathlib.Text.{starts_with}
use upload.Prelude.{
  ℕ, ℕ_eq, String, String_eq, Bool, true, false, not, ◌&&◌, ◌||◌, Option, none, some, List, [], ◌∷◌,
  ◌==◌, if◌then◌else◌, length, all, head?, includes,
}
use upload.Storage.Orm.{Orm}
use upload.Storage.Enums.{
  ReleaseStatus, in_review, released, ReleaseStatus_eq, FileUploadStatus, uploaded, removed,
  FileUploadStatus_eq, file, ArtifactType_eq,
}
use upload.Storage.Rows.{Release, FileUpload, Artifact}
use upload.Storage.Db.{Db}
use upload.Storage.Minio.{Minio}

-- `a || b` on texts: the empty text counts as absent.
abbrev pub or_else : String → String → String
or_else a b = if a == "" then b else a

abbrev pub is_some {ℓ} : {A : Type ℓ} → Option A → Bool
is_some none = false
is_some (some a) = true

abbrev pub storage_missing_error_prefix : String
storage_missing_error_prefix = "[storage-sync] "

abbrev pub storage_missing_error : String
storage_missing_error =
    String.◌++◌ storage_missing_error_prefix "File not found in object storage during sync check."

-- The patch that both sync routines write for an object that has gone.
abbrev pub mark_removed : FileUpload → FileUpload
mark_removed f = record f { status = removed; progress = 0; error = some storage_missing_error }

module _ (minio : Minio) (bucket_name : String) where
  unfoldable pub exists_in_bucket : FileUpload → Bool
  exists_in_bucket f = is_some (minio.stat (or_else f.bucket_name bucket_name) f.object_key)

module _ (orm : Orm) where
  unfoldable pub are_files_uploaded : List ℕ → List FileUpload → Bool
  are_files_uploaded ids files =
      length (orm.find (λ f. includes ids f.id && f.status == uploaded) files) == length ids

  module _ (minio : Minio) (bucket_name : String) where
    -- The body of `files.map` in `syncAndCheckMissingFiles`: the flag `anyMissing` and the table.
    unfoldable pub check_missing : FileUpload → Bool × List FileUpload → Bool × List FileUpload
    check_missing f (any_missing, files) =
        if exists_in_bucket minio bucket_name f then (any_missing, files) else (
          true,
          if f.status == removed
              then files
              else (orm.update (λ g. g.id == f.id) mark_removed files).0,
        )

    unfoldable pub check_each : List FileUpload → Bool × List FileUpload → Bool × List FileUpload
    check_each [] s = s
    check_each (f ∷ fs) s = check_each fs (check_missing f s)

    unfoldable pub sync_and_check_missing_files : List ℕ → List FileUpload → Bool × List FileUpload
    sync_and_check_missing_files [] files = (false, files)
    sync_and_check_missing_files (id ∷ ids) files =
        check_each (orm.find (λ f. includes (id ∷ ids) f.id) files) (false, files)
