-- ===== src/Files/Uploaded.antt =====
-- `areFilesUploaded` of apps/upload/src/file-upload.service.ts, which compares two counts.
use upload.Prelude.{
  ℕ, ℕ_eq, ◌+◌, Bool, true, false, ◌&&◌, List, [], ◌∷◌, ◌≡◌, refl, ◌∙◌, ap, arith, ◌==◌, length,
  filter, length-filter-le, nat_eq, subst, any, all, includes, All, Distinct,
}
use native.Mathlib.Decide.{ℕ_discrete}
use upload.Storage.Orm.{Orm, IsSql, by_rows}
use upload.Storage.Enums.{uploaded, FileUploadStatus_eq}
use upload.Storage.Rows.{FileUpload}
use upload.Storage.Db.{same_file, HasUniqueFiles}
use upload.Files.{are_files_uploaded}

abbrev is_uploaded : FileUpload → Bool
is_uploaded f = f.status == uploaded

-- Some upload with the id is in the state `uploaded`.
abbrev pub id_is_uploaded : List FileUpload → ℕ → Bool
id_is_uploaded files id = any files (λ f. f.id == id && f.status == uploaded)

abbrev pub same_id : ℕ → ℕ → Bool
same_id a b = a == b

abbrev count_of : List ℕ → List FileUpload → ℕ
count_of ids files = length (filter (λ f. includes ids f.id && is_uploaded f) files)

bit : Bool → ℕ
bit true = 1
bit false = 0

-- No upload in the table has the id of a given one.
absent :
    (f : FileUpload) (files : List FileUpload)
    → All (λ g. same_file f g ≡ false) files
    → id_is_uploaded files f.id ≡ false
absent f [] h = refl
absent f (g ∷ files) h = ground (arith, absent f files h.1)

-- A further id counts once more if its upload is there.
abbrev CountsCons : List ℕ → List FileUpload → ℕ → Type 0
CountsCons ids files id =
    count_of (id ∷ ids) files ≡ bit (id_is_uploaded files id) + count_of ids files

count_of-head :
    (f : FileUpload) (ids : List ℕ) (files : List FileUpload)
    → All (λ g. same_file f g ≡ false) files
    → includes ids f.id ≡ false
    → CountsCons ids files f.id
    → CountsCons ids (f ∷ files) f.id
unfolding bit
count_of-head f ids files others fresh ih = ground (arith, absent f files others)

count_of-cons :
    (id : ℕ) (ids : List ℕ) (files : List FileUpload)
    → includes ids id ≡ false
    → HasUniqueFiles files
    → CountsCons ids files id
unfolding bit
count_of-cons id ids [] fresh unique = refl
count_of-cons id ids (f ∷ files) fresh unique =
    let ih = count_of-cons id ids files fresh unique.1 in
    elim (ℕ_discrete f.id id) [
      | yes e ↦
          subst
            (λ i. includes ids i ≡ false → CountsCons ids files i → CountsCons ids (f ∷ files) i) e
            (count_of-head f ids files unique.0) fresh ih
      | no ne ↦ ground (arith, ih)
    ]

includes-eq-false :
    (id : ℕ) (ids : List ℕ) → All (λ i. same_id id i ≡ false) ids → includes ids id ≡ false
includes-eq-false id [] h = refl
includes-eq-false id (i ∷ ids) h = ground (arith, includes-eq-false id ids h.1)

filter-empty : (files : List FileUpload) → count_of [] files ≡ 0
filter-empty [] = refl
filter-empty (f ∷ files) = filter-empty files

count_of-length :
    (ids : List ℕ) (files : List FileUpload)
    → Distinct same_id ids
    → HasUniqueFiles files
    → count_of ids files ≡ length (filter (id_is_uploaded files) ids)
unfolding bit
count_of-length [] files d unique = filter-empty files
count_of-length (id ∷ ids) files d unique = ground (
  arith,
  count_of-cons id ids files (includes-eq-false id ids d.0) unique,
  count_of-length ids files d.1 unique,
)

length-filter-eq :
    {A : Type 0} (p : A → Bool) (xs : List A)
    → (nat_eq (length (filter p xs)) (length xs)) ≡ all xs p
length-filter-eq p [] = refl
length-filter-eq p (x ∷ xs) = ground (arith, length-filter-eq p xs, length-filter-le p xs)

-- For distinct ids, and unique ids in the table, the comparison of the counts says whether each of
-- the ids is that of an upload in the state `uploaded`.
are_files_uploaded_lem :
    (orm : Orm) (ids : List ℕ) (files : List FileUpload)
    → IsSql orm
    → Distinct same_id ids
    → HasUniqueFiles files
    → are_files_uploaded orm ids files ≡ all ids (id_is_uploaded files)
unfolding are_files_uploaded
are_files_uploaded_lem orm ids files sql d unique =
    by_rows (λ o. are_files_uploaded o ids files ≡ all ids (id_is_uploaded files)) orm sql
      (ap (λ n. nat_eq n (length ids)) (count_of-length ids files d unique)
        ∙ length-filter-eq (id_is_uploaded files) ids)
