-- ===== src/Releases/Set/Status.antt =====
-- The status that `setRelease` of apps/upload/src/releases.service.ts leaves, with the refresh that it
-- ends with.
use upload.Releases.Set.Saved.{MovesFrom}
use upload.Prelude.{
  ℕ, ℕ_eq, String, String_eq, Bool, true, false, Option, some, List, ◌≡◌, ◌⊎◌, find?,
}
use upload.Storage.Orm.{Orm, IsSql, on_rows}
use upload.Storage.Enums.{ReleaseStatus, released, ReleaseStatus_eq}
use upload.Storage.Rows.{Release}
use upload.Storage.Db.{Db, of_version}
use upload.Storage.Minio.{Minio}
use upload.Releases.{Job, forbidden}
use upload.Releases.Order.{Semver}
use upload.Releases.Jobs.Invariant.{HasUniqueKeys}
use upload.Releases.Set.{SetReleaseDto, Rules, Checked, ok, err}
use upload.Releases.Set.Call.{save_existing, finish_set}
use upload.Releases.Set.Laws.{IsAllowed}

-- What a call that does not throw does with a release: without the role it may not be released or in
-- error; the saved status is the one before or one that is asked for, and allowed; and moves lead from
-- it to the status at the end.
pub record IsSaved (dto : SetReleaseDto) (r : Release) (has_role : Bool)
    (result : Db × Rules × List Job) : Type 0 where
  pub may : (r.status ≡ released) ⊎ (r.status ≡ ReleaseStatus.error) → has_role ≡ true
  pub saved : ReleaseStatus
  pub is_allowed :
      (saved ≡ r.status) ⊎ IsAllowed has_role dto.status dto.is_draft (some r.status) saved
  pub then_moves : MovesFrom r.catalog_id saved result.0.releases

module _ (orm : Orm) (sql : IsSql orm) (minio : Minio) (bucket_name : String) (semver : Semver)
    (to_string : ℕ → String) (now : ℕ) (dto : SetReleaseDto) where
  module _ (user_email : Option String) (db : Db) (r : Release) (unique : HasUniqueKeys db)
      (read : find? (of_version dto.project_id dto.version) db.releases ≡ some r) where
    -- The call by what its checks find.
    answer :
        Rules
        → Bool
        → Checked (Option ReleaseStatus)
        → Checked (Option (List Release))
        → Checked (Db × Rules × List Job)
    answer rules false d v = err forbidden
    answer rules true (err e) v = err e
    answer rules true (ok decided) (err e) = err e
    answer rules true (ok decided) (ok entities) = ok (
        finish_set (on_rows orm) minio bucket_name semver to_string now dto r.catalog_id (
          save_existing (on_rows orm) minio bucket_name semver to_string dto user_email decided
              entities r db,
          rules,
        ))
