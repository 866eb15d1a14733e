-- ===== src/Files/Sync/Batches.antt =====
-- The loop over batches in `syncArtifactsStorageStatus` of apps/upload/src/file-upload.service.ts.
use upload.Prelude.{ℕ, zero, suc, ◌≤◌, String, List, [], ◌∷◌, ◌≡◌, refl, arith, length, take, drop}
use upload.Storage.Orm.{Orm}
use upload.Storage.Db.{Db}
use upload.Storage.Minio.{Minio}
use upload.Files.Sync.{Linked, sync_batch, sync_batches}

length-drop-le : (n : ℕ) (ls : List Linked) → length (drop n ls) ≤ length ls
length-drop-le zero ls = omega arith
length-drop-le (suc n) [] = omega arith
length-drop-le (suc n) (l ∷ ls) = omega (arith, length-drop-le n ls)

-- The loop ends before the fuel does: with any two amounts of fuel that are at least the number of
-- the artifacts it leaves the same database.
sync_batches-fuel :
    (orm : Orm) (minio : Minio) (bucket_name : String) (n m : ℕ) (ls : List Linked) (db : Db)
    → length ls ≤ n
    → length ls ≤ m
    → sync_batches orm minio bucket_name n ls db ≡ sync_batches orm minio bucket_name m ls db
unfolding sync_batches
sync_batches-fuel orm minio bucket_name zero zero ls db hn hm = refl
sync_batches-fuel orm minio bucket_name zero (suc m) [] db hn hm = refl
sync_batches-fuel orm minio bucket_name (suc n) zero [] db hn hm = refl
sync_batches-fuel orm minio bucket_name (suc n) (suc m) [] db hn hm = refl
sync_batches-fuel orm minio bucket_name zero (suc m) (l ∷ ls) db hn hm = absurd (omega arith)
sync_batches-fuel orm minio bucket_name (suc n) zero (l ∷ ls) db hn hm = absurd (omega arith)
sync_batches-fuel orm minio bucket_name (suc n) (suc m) (l ∷ ls) db hn hm =
    sync_batches-fuel orm minio bucket_name n m (drop 10 (l ∷ ls))
      (sync_batch orm minio bucket_name (take 10 (l ∷ ls)) db) (omega (arith, length-drop-le 9 ls))
      (omega (arith, length-drop-le 9 ls))
