-- ===== src/Storage/Db.antt =====
-- The database: its tables, and the joins that the services ask for.
use upload.Prelude.{
  ℕ, ◌==◌, ℕ_eq, String, String_eq, Bool, true, List, ◌&&◌, ◌≡◌, some, eq_iff, arith, find?, All,
  Distinct, only-find?,
}
use upload.Storage.Rows.{
  Project, Release, FileUpload, Artifact, Regulation, RegulationStatus, Dependency,
}

pub record Db : Type 0 where
  pub projects : List Project
  pub releases : List Release
  pub dependencies : List Dependency
  pub artifacts : List Artifact
  pub files : List FileUpload
  pub regulations : List Regulation
  pub statuses : List RegulationStatus

-- `{ project: { id }, version }` as a where-condition.
abbrev pub of_version : ℕ → String → Release → Bool
of_version project version r = (r.project == project) && (r.version == version)

-- The unique index on the project and the version of `release.entity.ts`.
abbrev pub same_version : Release → Release → Bool
same_version r s = of_version r.project r.version s

abbrev pub HasUniqueVersions : Db → Type 0
HasUniqueVersions db = Distinct same_version db.releases

-- So a version leads to one release.
pub only-version :
    (project : ℕ) (version : String) (db : Db) (r : Release)
    → HasUniqueVersions db
    → find? (of_version project version) db.releases ≡ some r
    → All (λ x. of_version project version x ≡ true → x ≡ r) db.releases
only-version project version db r =
    only-find? (of_version project version) same_version db.releases r λ x y hx hy.
      ground (arith, eq_iff x.version version, eq_iff y.version version, eq_iff y.version x.version)

-- The primary key of the releases.
abbrev pub same_catalog_id : Release → Release → Bool
same_catalog_id r s = r.catalog_id == s.catalog_id

-- The primary key of the uploads.
abbrev pub same_file : FileUpload → FileUpload → Bool
same_file f g = f.id == g.id

abbrev pub HasUniqueFiles : List FileUpload → Type 0
HasUniqueFiles files = Distinct same_file files
