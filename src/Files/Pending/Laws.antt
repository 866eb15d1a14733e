-- ===== src/Files/Pending/Laws.antt =====
-- Which uploads `syncUploadedFiles` of apps/upload/src/file-upload.service.ts flags as abandoned.
use upload.Prelude.{
  leb, ltb, ℕ, zero, suc, ℕ_eq, ◌+◌, String, String_eq, Bool, true, not, ◌&&◌, ◌||◌, Option, List,
  [], ◌∷◌, ◌==◌, ==-refl, eq_iff, ◌≡◌, refl, sym, ap, ap₂, ◌∙◌, arith, if◌then◌else◌, length,
  filter, all, map-id, map_where, includes, take, drop, All-In, In, here, there, Distinct, only-In,
  Bool-cases, inl, inr, all-imp, all-of-In, all-filter, all-take, all-drop, subst,
}
use upload.Prelude.Sets.{all-not-any}
use upload.Storage.Orm.{Orm, IsSql, on_rows, by_rows}
use upload.Storage.Enums.{pending, FileUploadStatus_eq}
use upload.Storage.Rows.{FileUpload}
use upload.Storage.Minio.{Minio}
use upload.Files.{is_some}
use upload.Files.Update.{UpdateFileUpload}
use upload.Files.Pending.{
  is_stale, is_pending, mark_abandoned, mark_each, process_batches, page_at, sync_pages,
  stale_threshold, sync_uploaded_files,
}
use upload.Files.Pending.Pages.{IsOrdering}

-- The unique index on the object key.
abbrev pub same_key : FileUpload → FileUpload → Bool
same_key f g = f.object_key == g.object_key

abbrev pub marks : List String → FileUpload → Bool
marks keys f = includes keys f.object_key

marked_again :
    (k : String) (keys : List String) (files : List FileUpload)
    → map_where
        (λ g. g.object_key == k)
        mark_abandoned
        (map_where (marks keys) mark_abandoned files)
      ≡ map_where (marks (k ∷ keys)) mark_abandoned files
marked_again k keys [] = refl
marked_again k keys (f ∷ files) =
    ap₂ ◌∷◌ (ground (arith, eq_iff k f.object_key, eq_iff f.object_key k))
      (marked_again k keys files)

all-marked :
    (p q : FileUpload → Bool) (files : List FileUpload)
    → ((f : FileUpload) → In f files → q (if p f then mark_abandoned f else f) ≡ true)
    → all (map_where p mark_abandoned files) q ≡ true
all-marked p q [] h = refl
all-marked p q (f ∷ files) h = ground (arith, h f here, all-marked p q files (λ g m. h g (there m)))

all-marks :
    (k : String) (keys : List String) (q : FileUpload → Bool) (files : List FileUpload)
    → all files (λ f. not (f.object_key == k) || q f) ≡ true
    → all files (λ f. not (marks keys f) || q f) ≡ true
    → all files (λ f. not (marks (k ∷ keys) f) || q f) ≡ true
all-marks k keys q [] h m = refl
all-marks k keys q (f ∷ files) h m =
    ground (arith, eq_iff k f.object_key, eq_iff f.object_key k, all-marks k keys q files)

module _ (minio : Minio) (bucket_name : String) (threshold now : ℕ) where
  -- A pending upload whose object is not in the storage and whose presigned URL has expired.
  abbrev pub is_abandoned : FileUpload → Bool
  is_abandoned f =
      f.status == pending
      && leb f.created_date now
      && not (is_some (minio.stat bucket_name f.object_key))
      && ltb f.created_date threshold

  -- Some abandoned uploads are flagged, and nothing else is changed.
  pub record IsMarked (before after : List FileUpload) : Type 0 where
    pub keys : List String
    pub rows : after ≡ map_where (marks keys) mark_abandoned before
    pub abandoned : all before (λ f. not (marks keys f) || is_abandoned f) ≡ true

  module _ (before : List FileUpload) (unique : Distinct same_key before) where
    -- Whatever has the key of the upload is abandoned.
    abbrev is_safe : FileUpload → Bool
    is_safe g = all before (λ f. not (f.object_key == g.object_key) || is_abandoned f)

    abandoned-is_safe : (g : FileUpload) → In g before → is_abandoned g ≡ true → is_safe g ≡ true
    abandoned-is_safe g m h =
        let only =
          only-In same_key (λ f. ==-refl f.object_key)
            (λ f h differs.
              ground (arith, eq_iff f.object_key h.object_key, eq_iff h.object_key f.object_key))
            g before unique m in
        all-of-In (λ f. not (f.object_key == g.object_key) || is_abandoned f) before
          λ f member. elim (Bool-cases (f.object_key == g.object_key)) [
            | inr other ↦ rw other refl
            | inl same ↦
                let e : f ≡ g =
                  All-In (λ x. same_key x g ≡ true → x ≡ g) before f only member same in
                let own : is_abandoned f ≡ true = ap is_abandoned e ∙ h in rw (same, own) refl
          ]

    -- An upload is not abandoned, or can be flagged.
    abbrev is_candidate : FileUpload → Bool
    is_candidate g = not (is_abandoned g) || is_safe g

    all-candidates :
        (files : List FileUpload) → IsMarked before files → all files is_candidate ≡ true
    all-candidates files m =
        subst (λ fs. all fs is_candidate ≡ true) (sym m.rows)
          (all-marked (marks m.keys) is_candidate before (λ f member.
            elim (Bool-cases (marks m.keys f)) [
              | inl marked ↦ rw marked refl
              | inr kept ↦ rw kept (elim (Bool-cases (is_abandoned f)) [
                | inl h ↦ rw (abandoned-is_safe f member h, h) refl
                | inr h ↦ rw h refl
              ])
            ]))

    -- What a page has.
    abbrev is_listed : FileUpload → Bool
    is_listed g = is_pending now g && is_candidate g

    module _ (orm : Orm) where
      mark_each-IsMarked :
          (stale files : List FileUpload)
          → all stale is_safe ≡ true
          → IsMarked before files
          → IsMarked before (mark_each (on_rows orm) minio bucket_name threshold stale files)
      unfolding mark_each
      mark_each-IsMarked [] files safe m = m
      mark_each-IsMarked (f ∷ stale) files safe m =
          mark_each-IsMarked stale _ (ground arith) (record {
            keys = f.object_key ∷ m.keys;
            rows =
                ap (map_where (λ g. g.object_key == f.object_key) mark_abandoned) m.rows
                ∙ marked_again f.object_key m.keys before;
            abandoned =
                all-marks f.object_key m.keys is_abandoned before (ground arith) m.abandoned;
          })

      process_batches-IsMarked :
          (fuel : ℕ) (page : List FileUpload) (s : List FileUpload × List UpdateFileUpload)
          → all page is_listed ≡ true
          → IsMarked before s.0
          → IsMarked before
              (process_batches (on_rows orm) minio bucket_name threshold fuel page s).0
      unfolding process_batches
      process_batches-IsMarked zero page s h m = m
      process_batches-IsMarked (suc fuel) [] s h m = m
      process_batches-IsMarked (suc fuel) (f ∷ page) s h m =
          let stale = is_stale minio bucket_name threshold in
          let batch = take 5 (f ∷ page) in
          process_batches-IsMarked fuel (drop 5 (f ∷ page)) _ (all-drop is_listed 5 (f ∷ page) h) (
            mark_each-IsMarked (filter stale batch) s.0
              (all-imp (λ g. stale g && is_listed g) is_safe (λ g k. ground arith)
                (filter stale batch)
                (all-filter stale is_listed batch (all-take is_listed 5 (f ∷ page) h)))
              m)

      module _ (newest_first : List FileUpload → List FileUpload)
          (order : IsOrdering newest_first) where
        all-listed :
            (skip : ℕ) (files : List FileUpload)
            → IsMarked before files
            → all
                (page_at (on_rows orm) minio bucket_name threshold newest_first now skip files)
                is_listed
              ≡ true
        all-listed skip files m =
            let rows = filter (is_pending now) files in
            all-take is_listed 10 (drop skip (newest_first rows)) (
              all-drop is_listed skip (newest_first rows) (
                all-not-any (newest_first rows) is_listed
                ∙ ap not (order.members (λ g. not (is_listed g)) rows)
                ∙ sym (all-not-any rows is_listed)
                ∙ all-filter (is_pending now) is_candidate files (all-candidates files m)))

        sync_pages-IsMarked :
            (fuel skip : ℕ) (s : List FileUpload × List UpdateFileUpload)
            → IsMarked before s.0
            → IsMarked before
                (sync_pages
                  (on_rows orm)
                  minio
                  bucket_name
                  threshold
                  newest_first
                  now
                  fuel
                  skip
                  s).0
        unfolding sync_pages
        sync_pages-IsMarked zero skip s m = m
        sync_pages-IsMarked (suc fuel) skip s m =
            let page =
              page_at (on_rows orm) minio bucket_name threshold newest_first now skip s.0 in
            let done = process_batches-IsMarked (length page) page s (all-listed skip s.0 m) m in
            elim (Bool-cases (length page == 10)) [
              | inl full ↦ rw full (sync_pages-IsMarked fuel (skip + 10) _ done)
              | inr last ↦ rw last done
            ]

-- Where no two uploads have the same object key, `syncUploadedFiles` flags as failed only uploads
-- that were pending, were not found in the storage and are older than the lifetime of a presigned
-- URL, and it writes to no other row and no other column, however many pages there are. The updates
-- of the uploads that it finds, which it starts and does not await, run after it.
pub sync_uploaded_files_lem :
    (orm : Orm) (minio : Minio) (bucket_name : String)
    (newest_first : List FileUpload → List FileUpload) (now : ℕ) (configured : Option ℕ)
    (files : List FileUpload)
    → IsSql orm
    → IsOrdering newest_first
    → Distinct same_key files
    → IsMarked minio bucket_name
        (stale_threshold now configured)
        now
        files
        (sync_uploaded_files orm minio bucket_name newest_first now configured files).0
unfolding sync_uploaded_files
sync_uploaded_files_lem orm minio bucket_name newest_first now configured files sql order unique =
    by_rows
      (λ o.
        IsMarked minio bucket_name (stale_threshold now configured) now files
          (sync_uploaded_files o minio bucket_name newest_first now configured files).0)
      orm sql
      (sync_pages-IsMarked minio bucket_name (stale_threshold now configured) now files unique orm
        newest_first order (suc (length files)) 0 (files, [])
        (record {
          keys = [];
          rows = sym (map-id files);
          abandoned = all-of-In (λ f. true) files (λ f m. refl);
        }))
