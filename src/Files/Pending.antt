-- ===== src/Files/Pending.antt =====
-- `syncUploadedFiles` of apps/upload/src/file-upload.service.ts: the pending uploads, page by page,
-- against the object storage. A page is a query of its own, after what the page before has written.
pub mod Pages
pub mod Laws
mod Tests
use upload.Prelude.{
  ℕ, zero, suc, ℕ_eq, ◌+◌, ◌-◌, ◌*◌, String, String_eq, Bool, not, ◌&&◌, Option, none, some, List,
  [], ◌∷◌, ◌++◌, ◌==◌, if◌then◌else◌, length, filter, filter_map, take, drop, ltb, leb,
}
use upload.Storage.Orm.{Orm}
use upload.Storage.Enums.{FileUploadStatus, pending, uploaded, FileUploadStatus_eq}
use upload.Storage.Rows.{FileUpload}
use upload.Storage.Minio.{Minio, ObjectStat}
use upload.Files.{is_some}
use upload.Files.Update.{UpdateFileUpload}

-- `Number(UPLOAD_URL_EXPIRE) || 3600`, where what is no number counts as absent.
abbrev pub url_expire_seconds : Option ℕ → ℕ
url_expire_seconds none = 3600
url_expire_seconds (some n) = if n == 0 then 3600 else n

-- Before the year 1970 there is no upload.
abbrev pub stale_threshold : ℕ → Option ℕ → ℕ
stale_threshold now configured = now - url_expire_seconds configured * 1000

abbrev pub mark_abandoned : FileUpload → FileUpload
mark_abandoned f = record f {
  status = FileUploadStatus.error;
  error =
      some
        "Upload never completed — the browser upload was abandoned and the presigned URL has expired.";
}

abbrev pub is_pending : ℕ → FileUpload → Bool
is_pending now f = f.status == pending && leb f.created_date now

abbrev pub found_object : String → ObjectStat → UpdateFileUpload
found_object object_key stats = record {
  object_key = object_key;
  status = some uploaded;
  size = some stats.size;
  content_type = stats.content_type;
  upload_at = some stats.last_modified;
}

module _ (minio : Minio) (bucket_name : String) where
  abbrev pub has_object : FileUpload → Bool
  has_object f = is_some (minio.stat bucket_name f.object_key)

  -- `filesToUpdate`
  abbrev pub to_update : FileUpload → Option UpdateFileUpload
  to_update f = elim (minio.stat bucket_name f.object_key) [
    | none ↦ none
    | some stats ↦ some (found_object f.object_key stats)
  ]

  -- `staleFiles`
  abbrev pub is_stale : ℕ → FileUpload → Bool
  is_stale threshold f = not (has_object f) && ltb f.created_date threshold

module _ (orm : Orm) (minio : Minio) (bucket_name : String) (threshold : ℕ) where
  unfoldable pub mark_each : List FileUpload → List FileUpload → List FileUpload
  mark_each [] files = files
  mark_each (f ∷ stale) files =
      mark_each stale (orm.update (λ g. g.object_key == f.object_key) mark_abandoned files).0

  -- A batch: the table, and the updates that are started and not awaited.
  unfoldable pub process_batch :
      List FileUpload
      → List FileUpload × List UpdateFileUpload
      → List FileUpload × List UpdateFileUpload
  unfolding mark_each
  process_batch batch (files, updates) = (
    mark_each (filter (is_stale minio bucket_name threshold) batch) files,
    updates ++ filter_map (to_update minio bucket_name) batch,
  )

  -- The `for` loop over batches of five; the fuel is the number of files.
  unfoldable pub process_batches :
      ℕ
      → List FileUpload
      → List FileUpload × List UpdateFileUpload
      → List FileUpload × List UpdateFileUpload
  unfolding process_batch
  process_batches zero page s = s
  process_batches (suc fuel) [] s = s
  process_batches (suc fuel) (f ∷ page) s =
      process_batches fuel (drop 5 (f ∷ page)) (process_batch (take 5 (f ∷ page)) s)

  module _ (newest_first : List FileUpload → List FileUpload) (now : ℕ) where
    -- `ORDER BY`, `OFFSET` and `LIMIT`.
    abbrev pub page_at : ℕ → List FileUpload → List FileUpload
    page_at skip files = take 10 (drop skip (newest_first (orm.find (is_pending now) files)))

    -- The `do` loop.
    unfoldable pub sync_pages :
        ℕ → ℕ → List FileUpload × List UpdateFileUpload → List FileUpload × List UpdateFileUpload
    unfolding process_batches
    sync_pages zero skip s = s
    sync_pages (suc fuel) skip s =
        let page = page_at skip s.0 in
        let done = process_batches (length page) page s in
        let rest = sync_pages fuel (skip + 10) done in if length page == 10 then rest else done

-- There are no more pages than uploads and one.
unfoldable pub sync_uploaded_files :
    Orm
    → Minio
    → String
    → (List FileUpload → List FileUpload)
    → ℕ
    → Option ℕ
    → List FileUpload
    → List FileUpload × List UpdateFileUpload
unfolding sync_pages
sync_uploaded_files orm minio bucket_name newest_first now configured files =
    sync_pages orm minio bucket_name (stale_threshold now configured) newest_first now
      (suc (length files)) 0 (files, [])
