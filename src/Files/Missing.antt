-- ===== src/Files/Missing.antt =====
-- `syncAndCheckMissingFiles` of apps/upload/src/file-upload.service.ts: which uploads it marks.
use upload.Prelude.{
  ℕ, ℕ_eq, Bool, true, false, not, String, ◌&&◌, ◌||◌, List, [], ◌∷◌, ◌≡◌, refl, sym, ap, ap₂, ◌∙◌,
  arith, ◌==◌, ==-refl, if◌then◌else◌, filter, map_where, any, includes, map, map-map, map-id,
  map_where-eq, All-of, All-map, any-filter, any-filter-same, filter-none,
}
use mathlib.Core.Bool.{or_assoc}
use upload.Storage.Orm.{Orm, IsSql, on_rows, by_rows}
use upload.Storage.Enums.{removed, FileUploadStatus_eq}
use upload.Storage.Rows.{FileUpload}
use upload.Storage.Db.{same_file, HasUniqueFiles}
use upload.Storage.Minio.{Minio}
use upload.Files.{
  exists_in_bucket, mark_removed, check_missing, check_each, sync_and_check_missing_files,
}

same_file_symm : (f g : FileUpload) → same_file f g ≡ false → same_file g f ≡ false
same_file_symm f g h = ground arith

module _ (minio : Minio) (bucket_name : String) where
  -- An upload that is not marked yet and whose object is not in the storage.
  abbrev pub must_mark : FileUpload → Bool
  must_mark f = not (exists_in_bucket minio bucket_name f) && not (f.status == removed)

  abbrev is_missing : FileUpload → Bool
  is_missing f = not (exists_in_bucket minio bucket_name f)

  mark_if : FileUpload → FileUpload → FileUpload
  mark_if f g = if must_mark f && same_file f g then mark_removed g else g

  mark_if-none :
      (f : FileUpload) (files : List FileUpload)
      → must_mark f ≡ false
      → files ≡ map (mark_if f) files
  unfolding mark_if
  mark_if-none f [] h = refl
  mark_if-none f (g ∷ files) h = ap₂ ◌∷◌ (rw h) (mark_if-none f files h)

  mark_if-some :
      (f : FileUpload) (files : List FileUpload)
      → must_mark f ≡ true
      → map_where (λ g. g.id == f.id) mark_removed files ≡ map (mark_if f) files
  unfolding mark_if
  mark_if-some f [] h = refl
  mark_if-some f (g ∷ files) h = ap₂ ◌∷◌ (ground arith) (mark_if-some f files h)

  -- Whether one of the uploads that are to be marked has the id.
  is_marked : List FileUpload → ℕ → Bool
  is_marked fs id = any fs (λ f. must_mark f && f.id == id)

  mark_if-id : (f g : FileUpload) → (mark_if f g).id ≡ g.id
  unfolding mark_if
  mark_if-id f g = ground arith

  mark_if_twice :
      (f : FileUpload) (fs : List FileUpload) (g : FileUpload)
      → (if is_marked fs (mark_if f g).id then mark_removed (mark_if f g) else mark_if f g)
        ≡ (if is_marked (f ∷ fs) g.id then mark_removed g else g)
  mark_if_twice f fs g = rw (mark_if-id f g) (unfold mark_if in unfold is_marked in ground arith)

  module _ (orm : Orm) where
    check_missing_lem :
        (f : FileUpload) (b : Bool) (files : List FileUpload)
        → check_missing (on_rows orm) minio bucket_name f (b, files)
          ≡ (b || is_missing f, map (mark_if f) files)
    unfolding check_missing
    check_missing_lem f b files = ground (arith, mark_if-none f files, mark_if-some f files)

    check_each_lem :
        (fs : List FileUpload) (b : Bool) (files : List FileUpload)
        → check_each (on_rows orm) minio bucket_name fs (b, files)
          ≡ (b || any fs is_missing, map_where (λ g. is_marked fs g.id) mark_removed files)
    unfolding check_each is_marked
    check_each_lem [] true files = ap (λ y. (true, y)) (sym (map-id files))
    check_each_lem [] false files = ap (λ y. (false, y)) (sym (map-id files))
    check_each_lem (f ∷ fs) b files =
        rw
          (
            check_missing_lem f b files,
            check_each_lem fs (b || is_missing f) (map (mark_if f) files),
          )
          (ap₂ (λ x y. (x, y)) (or_assoc b (is_missing f) (any fs is_missing))
            (map-map _ (mark_if f) files
              ∙ map_where-eq _ mark_removed _ files (All-of _ files (mark_if_twice f fs))))

    sync-check_each :
        (ids : List ℕ) (files : List FileUpload)
        → sync_and_check_missing_files (on_rows orm) minio bucket_name ids files
          ≡ check_each
              (on_rows orm)
              minio
              bucket_name
              (filter (λ f. includes ids f.id) files)
              (false, files)
    unfolding sync_and_check_missing_files check_each
    sync-check_each [] files = rw (filter-none files)
    sync-check_each (id ∷ ids) files = refl

    sync_rows :
        (ids : List ℕ) (files : List FileUpload)
        → HasUniqueFiles files
        → sync_and_check_missing_files (on_rows orm) minio bucket_name ids files ≡ (
          any files (λ f. includes ids f.id && is_missing f),
          map_where (λ f. includes ids f.id && must_mark f) mark_removed files,
        )
    unfolding is_marked
    sync_rows ids files unique =
        sync-check_each ids files
        ∙ check_each_lem (filter (λ f. includes ids f.id) files) false files
        ∙ ap₂ (λ x y. (x, y)) (any-filter (λ f. includes ids f.id) is_missing files)
            (map_where-eq _ mark_removed _ files (
              All-map _ _ files (λ g e. rw e)
                (any-filter-same same_file (λ f. ==-refl f.id) same_file_symm
                  (λ f. includes ids f.id) must_mark files unique)))

-- The flag says whether an object is missing from the storage among the uploads with the given ids,
-- and exactly those of them whose object is missing and that were not removed yet, whatever other
-- status they have, become removed, with the error that the storage sync sets; each other upload is as
-- it was. Ids are unique in the table.
pub sync_and_check_missing_files_lem :
    (orm : Orm) (minio : Minio) (bucket_name : String) (ids : List ℕ) (files : List FileUpload)
    → IsSql orm
    → HasUniqueFiles files
    → sync_and_check_missing_files orm minio bucket_name ids files ≡ (
      any files (λ f. includes ids f.id && is_missing minio bucket_name f),
      map_where (λ f. includes ids f.id && must_mark minio bucket_name f) mark_removed files,
    )
sync_and_check_missing_files_lem orm minio bucket_name ids files sql unique =
    by_rows
      (λ o. sync_and_check_missing_files o minio bucket_name ids files ≡ (
        any files (λ f. includes ids f.id && is_missing minio bucket_name f),
        map_where (λ f. includes ids f.id && must_mark minio bucket_name f) mark_removed files,
      ))
      orm sql (sync_rows minio bucket_name orm ids files unique)
