-- ===== src/Files/Pending/Pages.antt =====
-- The loop over the pages in `syncUploadedFiles` of apps/upload/src/file-upload.service.ts ends.
use upload.Prelude.{
  ℕ, zero, suc, ℕ_eq, nat_eq_iff, ◌+◌, ◌*◌, ◌≤◌, ◌<◌, Option, String, String_eq, Bool, List, [],
  ◌∷◌, ◌==◌, ◌≡◌, refl, sym, ◌∙◌, arith, length, length-filter-le, length-map_where, filter, take,
  drop, any, Bool-cases, inl, inr,
}
use upload.Storage.Orm.{Orm, IsSql, on_rows, by_rows}
use upload.Storage.Rows.{FileUpload}
use upload.Storage.Minio.{Minio}
use upload.Files.Update.{UpdateFileUpload}
use upload.Files.Pending.{
  is_stale, is_pending, mark_each, process_batches, page_at, sync_pages, sync_uploaded_files,
  mark_abandoned, stale_threshold,
}

-- What `ORDER BY` does to the rows of a query: it gives all of them back.
pub record IsOrdering (newest_first : List FileUpload → List FileUpload) : Type 0 where
  pub sizes : (rows : List FileUpload) → length (newest_first rows) ≡ length rows
  pub members :
      (p : FileUpload → Bool) (rows : List FileUpload) → any (newest_first rows) p ≡ any rows p

drop-beyond : (skip : ℕ) (rows : List FileUpload) → length rows ≤ skip → drop skip rows ≡ []
drop-beyond zero [] h = refl
drop-beyond zero (f ∷ rows) h = absurd (omega arith)
drop-beyond (suc skip) [] h = refl
drop-beyond (suc skip) (f ∷ rows) h = drop-beyond skip rows (omega arith)

length-take-le : (n : ℕ) (rows : List FileUpload) → length (take n rows) ≤ length rows
length-take-le zero rows = omega arith
length-take-le (suc n) [] = omega arith
length-take-le (suc n) (f ∷ rows) = omega (arith, length-take-le n rows)

-- A page that is full lies within the rows.
full_page :
    (n skip : ℕ) (rows : List FileUpload)
    → 0 < n
    → length (take n (drop skip rows)) ≡ n
    → skip + n ≤ length rows
full_page n zero rows pos h = let le = length-take-le n rows in omega arith
full_page n (suc skip) [] pos h = let le = length-take-le n [] in omega arith
full_page n (suc skip) (f ∷ rows) pos h = let rest = full_page n skip rows pos h in omega arith

module _ (orm : Orm) (minio : Minio) (bucket_name : String) (threshold : ℕ) where
  length-mark_each :
      (stale files : List FileUpload)
      → length (mark_each (on_rows orm) minio bucket_name threshold stale files) ≡ length files
  unfolding mark_each
  length-mark_each [] files = refl
  length-mark_each (f ∷ stale) files =
      length-mark_each stale _
      ∙ length-map_where (λ g. g.object_key == f.object_key) mark_abandoned files

  length-process_batches :
      (fuel : ℕ) (page : List FileUpload) (s : List FileUpload × List UpdateFileUpload)
      → length (process_batches (on_rows orm) minio bucket_name threshold fuel page s).0
        ≡ length s.0
  unfolding process_batches
  length-process_batches zero page s = refl
  length-process_batches (suc fuel) [] s = refl
  length-process_batches (suc fuel) (f ∷ page) s =
      length-process_batches fuel (drop 5 (f ∷ page)) _
      ∙ length-mark_each (filter (is_stale minio bucket_name threshold) (take 5 (f ∷ page))) s.0

  module _ (newest_first : List FileUpload → List FileUpload) (order : IsOrdering newest_first)
      (now : ℕ) where
    rows-le :
        (files : List FileUpload)
        → length (newest_first (filter (is_pending now) files)) ≤ length files
    rows-le files =
        let le = length-filter-le (is_pending now) files in
        omega (arith, order.sizes (filter (is_pending now) files))

    sync_pages-end :
        (m skip : ℕ) (s : List FileUpload × List UpdateFileUpload)
        → length s.0 < skip
        → sync_pages (on_rows orm) minio bucket_name threshold newest_first now m skip s ≡ s
    unfolding sync_pages
    sync_pages-end zero skip s h = refl
    sync_pages-end (suc m) skip s h =
        let le = rows-le s.0 in
        rw (drop-beyond skip (newest_first (filter (is_pending now) s.0)) (omega arith)) refl

    sync_pages-fuel_rows :
        (n m skip : ℕ) (s : List FileUpload × List UpdateFileUpload)
        → length s.0 < skip + 10 * n
        → length s.0 < skip + 10 * m
        → sync_pages (on_rows orm) minio bucket_name threshold newest_first now n skip s
          ≡ sync_pages (on_rows orm) minio bucket_name threshold newest_first now m skip s
    unfolding sync_pages
    sync_pages-fuel_rows zero m skip s hn hm = sym (sync_pages-end m skip s (omega arith))
    sync_pages-fuel_rows (suc n) zero skip s hn hm = sync_pages-end (suc n) skip s (omega arith)
    sync_pages-fuel_rows (suc n) (suc m) skip s hn hm =
        let page = page_at (on_rows orm) minio bucket_name threshold newest_first now skip s.0 in
        elim (Bool-cases (length page == 10)) [
          | inr last ↦ rw last refl
          | inl full ↦
              let within =
                full_page 10 skip (newest_first (filter (is_pending now) s.0)) (omega arith)
                  ((nat_eq_iff (length page) 10).0 full) in
              let le = rows-le s.0 in
              let same = length-process_batches (length page) page s in
              rw full (
                sync_pages-fuel_rows n m (skip + 10)
                  (process_batches (on_rows orm) minio bucket_name threshold (length page) page s)
                  (omega arith) (omega arith))
        ]

-- The loop over the pages ends before its fuel does, though each page is queried again after the
-- page before has been written: with any two amounts of fuel of which ten times each is more than
-- the number of uploads, it leaves the same table and the same updates, the amount that
-- `syncUploadedFiles` is given among them.
pub sync_uploaded_files-fuel :
    (orm : Orm) (minio : Minio) (bucket_name : String)
    (newest_first : List FileUpload → List FileUpload) (now : ℕ) (configured : Option ℕ) (n : ℕ)
    (files : List FileUpload)
    → IsSql orm
    → IsOrdering newest_first
    → length files < 10 * n
    → sync_pages orm minio bucket_name
        (stale_threshold now configured)
        newest_first
        now
        n
        0
        (files, [])
      ≡ sync_uploaded_files orm minio bucket_name newest_first now configured files
unfolding sync_uploaded_files
sync_uploaded_files-fuel orm minio bucket_name newest_first now configured n files sql order h =
    by_rows
      (λ o.
        sync_pages o minio bucket_name (stale_threshold now configured) newest_first now n 0
          (files, [])
        ≡ sync_uploaded_files o minio bucket_name newest_first now configured files)
      orm sql
      (sync_pages-fuel_rows orm minio bucket_name (stale_threshold now configured) newest_first
        order now n (suc (length files)) 0 (files, []) (omega arith) (omega arith))
