-- ===== src/Files/Sync.antt =====
-- apps/upload/src/file-upload.service.ts: the periodic comparison of release artifacts with the
-- object storage, which demotes and restores releases.
pub mod Laws
pub mod Batches
use text.Mathlib.Text.{starts_with}
use upload.Prelude.{
  truthy, ℕ, zero, suc, ℕ_eq, String, String_eq, Bool, true, false, not, ◌&&◌, ◌||◌, Option, none,
  some, List, [], ◌∷◌, ◌==◌, option_beq, if◌then◌else◌, length, all, head?, filter_map, take, drop,
}
use upload.Prelude.Sets.{add}
use upload.Storage.Orm.{Orm}
use upload.Storage.Enums.{
  ReleaseStatus, in_review, released, ReleaseStatus_eq, uploaded, removed, FileUploadStatus_eq,
  file, ArtifactType_eq,
}
use upload.Storage.Rows.{Release, FileUpload, Artifact}
use upload.Storage.Db.{Db}
use upload.Storage.Minio.{Minio}
use upload.Files.{or_else, is_some, storage_missing_error_prefix, mark_removed, exists_in_bucket}

-- The test that `every` makes of an artifact's upload in `maybeRestoreReleasedStatus`.
abbrev pub is_healthy : Option FileUpload → Bool
is_healthy none = true
is_healthy (some f) =
    f.status == uploaded
    && not (elim f.error [
      | none ↦ false
      | some message ↦ starts_with message storage_missing_error_prefix
    ])

-- `status !== ERROR && status !== IN_REVIEW || !releasedAt`, denied.
abbrev pub may_restore : Release → Bool
may_restore r = (r.status == ReleaseStatus.error || r.status == in_review) && is_some r.released_at

abbrev pub set_status : ReleaseStatus → Release → Release
set_status s r = record r { status = s }

abbrev pub mark_restored : FileUpload → FileUpload
mark_restored f = record f { status = uploaded; progress = 100; error = none }

-- An artifact with the two rows that the query joins to it.
pub record Linked : Type 0 where
  pub artifact : Artifact
  pub file_upload : FileUpload
  pub release : Release

module _ (minio : Minio) (bucket_name : String) where
  -- The restored object is refused where its checksum is known and is not the stored one.
  pub sha_matches : FileUpload → Bool
  sha_matches f =
      if truthy f.sha256
      then option_beq (minio.sha256 (or_else f.bucket_name bucket_name) f.object_key) f.sha256
      else true

module _ (orm : Orm) where
  unfoldable pub file_of : Db → Artifact → Option FileUpload
  file_of db a = elim a.file_upload [
    | none ↦ none
    | some id ↦ head? (orm.find (λ f. f.id == id) db.files)
  ]

  unfoldable pub file_artifacts_of : String → Db → List Artifact
  file_artifacts_of catalog_id db =
      orm.find (λ a. a.release == catalog_id && a.type == file) db.artifacts

  pub maybe_restore_released_status : String → Db → Db
  maybe_restore_released_status catalog_id db =
      elim (head? (orm.find (λ r. r.catalog_id == catalog_id) db.releases)) [
        | none ↦ db
        | some release ↦
            if may_restore release
              && all (file_artifacts_of catalog_id db) (λ a. is_healthy (file_of db a))
            then record db {
              releases =
                  (orm.update (λ r. r.catalog_id == catalog_id) (set_status released)
                    db.releases).0;
            }
            else db
      ]

  -- The joins and the filter of `syncArtifactsStorageStatus`. The foreign key to the release is
  -- not null, so no artifact is without one.
  pub relevant : Db → Artifact → Option Linked
  relevant db a = elim (file_of db a) [
    | none ↦ none
    | some f ↦ elim (head? (orm.find (λ r. r.catalog_id == a.release) db.releases)) [
      | none ↦ none
      | some r ↦
          if f.status == uploaded || f.status == removed
          then some (record { artifact = a; file_upload = f; release = r })
          else none
    ]
  ]

  module _ (minio : Minio) (bucket_name : String) where
    -- The body of `batch.map`: the database and the releases to look at again.
    pub sync_artifact : Linked → Db × List String → Db × List String
    sync_artifact l (db, recheck) =
        let f = l.file_upload in
        let present = exists_in_bucket minio bucket_name f in
        if not present && f.status == uploaded
        then (
          record db {
            files = (orm.update (λ g. g.id == f.id) mark_removed db.files).0;
            releases =
                if l.release.status == released
                then (orm.update (λ r. r.catalog_id == l.release.catalog_id)
                    (set_status ReleaseStatus.error) db.releases).0
                else db.releases;
          },
          recheck,
        )
        else if present && f.status == removed && sha_matches minio bucket_name f
        then (
          record db { files = (orm.update (λ g. g.id == f.id) mark_restored db.files).0 },
          if is_some l.release.released_at && l.release.status == ReleaseStatus.error
              then add l.release.catalog_id recheck
              else recheck,
        )
        else (db, recheck)

    pub sync_each : List Linked → Db × List String → Db × List String
    sync_each [] s = s
    sync_each (l ∷ ls) s = sync_each ls (sync_artifact l s)

    pub recheck_each : List String → Db → Db
    recheck_each [] db = db
    recheck_each (id ∷ ids) db = recheck_each ids (maybe_restore_released_status id db)

    pub sync_batch : List Linked → Db → Db
    sync_batch batch db = let (db', recheck) = sync_each batch (db, []) in recheck_each recheck db'

    -- The `for` loop over batches of ten; the fuel is the number of artifacts.
    pub sync_batches : ℕ → List Linked → Db → Db
    sync_batches zero ls db = db
    sync_batches (suc fuel) [] db = db
    sync_batches (suc fuel) (l ∷ ls) db =
        sync_batches fuel (drop 10 (l ∷ ls)) (sync_batch (take 10 (l ∷ ls)) db)

    pub sync_artifacts_storage_status : Db → Db
    sync_artifacts_storage_status db =
        let linked = filter_map (relevant db) (orm.find (λ a. a.type == file) db.artifacts) in
        sync_batches (length linked) linked db
