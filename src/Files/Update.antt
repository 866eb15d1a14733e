-- ===== src/Files/Update.antt =====
-- `updateUploadFile`, `removeFile` and `deleteItemRow` of apps/upload/src/file-upload.service.ts, and
-- its handler of the storage's notifications.
use text.Mathlib.Text.{starts_with}
use upload.Prelude.{
  ℕ, ℕ_eq, String, String_eq, Bool, true, not, ◌||◌, Option, none, some, List, [], ◌∷◌, ◌++◌, ◌==◌,
  if◌then◌else◌, filter, find?, head?, truthy, option_beq,
}
use upload.Storage.Orm.{Orm}
use upload.Storage.Enums.{FileUploadStatus, uploaded, removed, FileUploadStatus_eq}
use upload.Storage.Rows.{FileUpload}

-- UpdateFileUploadDto; a column that is not given stays as it is.
pub record UpdateFileUpload : Type 0 where
  pub object_key : String
  pub status : Option FileUploadStatus
  pub size : Option ℕ
  pub content_type : Option String
  pub upload_at : Option ℕ

-- The table, and `sbomScanFlags`.
pub record Uploads : Type 0 where
  pub files : List FileUpload
  pub sbom_scan_flags : List (String × Bool)

-- What is started and not awaited, or emitted.
pub data UploadJob : Type 0 where
  process_file : String → Bool → Bool → UploadJob
  file_created : String → UploadJob
  file_deleted : String → UploadJob
  sbom_scan : String → UploadJob
  delete_objects : String → UploadJob

abbrev pub or_old {ℓ} : {A : Type ℓ} → Option A → Option A → Option A
or_old none old = old
or_old (some a) old = some a

abbrev pub patch : UpdateFileUpload → FileUpload → FileUpload
patch dto f = record f {
  status = elim dto.status [ none ↦ f.status | some s ↦ s ];
  size = or_old dto.size f.size;
  content_type = or_old dto.content_type f.content_type;
  upload_at = or_old dto.upload_at f.upload_at;
}

abbrev pub of_key : String → FileUpload → Bool
of_key object_key f = f.object_key == object_key

abbrev pub is_status : FileUploadStatus → UpdateFileUpload → Bool
is_status s dto = option_beq dto.status (some s)

-- `sbomScanFlags.get(objectKey) ?? true`
abbrev pub scan_flag : String → List (String × Bool) → Bool
scan_flag object_key flags = elim (find? (λ entry. entry.0 == object_key) flags) [
  | none ↦ true
  | some entry ↦ entry.1
]

-- What follows an update that affected a row.
unfoldable pub announce :
    UpdateFileUpload → List (String × Bool) → List (String × Bool) × List UploadJob
announce dto flags =
    if is_status uploaded dto
    then (
      filter (λ entry. not (entry.0 == dto.object_key)) flags,
      file_created dto.object_key
          ∷ (if scan_flag dto.object_key flags then sbom_scan dto.object_key ∷ [] else []),
    )
    else if is_status removed dto
    then (flags, file_deleted dto.object_key ∷ [])
    else (flags, [])

module _ (orm : Orm) (do_sign : Bool) where
  -- The checksum and the signature of an upload that has arrived; none is the exception of an
  -- upload that is not there.
  unfoldable pub to_process : UpdateFileUpload → List FileUpload → Option (List UploadJob)
  to_process dto files =
      if not (is_status uploaded dto)
      then some []
      else elim (head? (orm.find (of_key dto.object_key) files)) [
        | none ↦ none
        | some existing ↦
            let needs_sha256 = not (truthy existing.sha256) in
            some (
              if needs_sha256 || do_sign
              then process_file dto.object_key needs_sha256 do_sign ∷ []
              else [])
      ]

  -- The state, the number of rows affected, and the jobs; none is an exception.
  unfoldable pub update_upload_file :
      UpdateFileUpload → Uploads → Option (Uploads × ℕ × List UploadJob)
  unfolding to_process announce
  update_upload_file dto s =
      if dto.object_key == "" then some (s, 0, []) else elim (to_process dto s.files) [
        | none ↦ none
        | some jobs ↦
            let (files, affected) = orm.update (of_key dto.object_key) (patch dto) s.files in
            let (flags, more) = announce dto s.sbom_scan_flags in
            some (
              if affected == 0
              then (record s { files = files }, 0, jobs)
              else (record { files = files; sbom_scan_flags = flags }, affected, jobs ++ more))
      ]

module _ (orm : Orm) where
  -- The row of an upload stays, as removed.
  unfoldable pub remove_file : ℕ → List FileUpload → List FileUpload × List UploadJob
  remove_file id files = elim (head? (orm.find (λ f. f.id == id) files)) [
    | none ↦ (files, [])
    | some file ↦ (
      (orm.update (λ f. f.id == id) (λ f. record f { status = removed }) files).0,
      if file.status == uploaded then delete_objects file.object_key ∷ [] else [],
    )
  ]

  unfoldable pub delete_item_row : ℕ → List FileUpload → List FileUpload
  delete_item_row id files = orm.delete (λ f. f.id == id) files

-- A record of a notification: the name of the event and what it says of the object.
pub record Notification : Type 0 where
  pub event_name : String
  pub key : String
  pub size : Option ℕ
  pub content_type : Option String
  pub event_time : Option ℕ

-- The update that a notification asks for, if any.
unfoldable pub update_of_notification : Notification → Option UpdateFileUpload
update_of_notification n =
    if starts_with n.event_name "s3:ObjectCreated:"
    then some (record {
      object_key = n.key;
      status = some uploaded;
      size = n.size;
      content_type = n.content_type;
      upload_at = n.event_time;
    })
    else if starts_with n.event_name "s3:ObjectRemoved:"
    then some (record {
      object_key = n.key;
      status = some removed;
      size = none;
      content_type = none;
      upload_at = none;
    })
    else none
