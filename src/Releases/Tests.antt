-- ===== src/Releases/Tests.antt =====
-- Tests of the model of apps/upload/src/releases.service.ts.
use upload.Prelude.{true, false, some, ◌≡◌, refl, map_where, All, any, List, [], ◌∷◌}
use upload.Storage.Orm.{list_orm, list_orm-IsSql}
use upload.Storage.Enums.{in_review, released, archived}
use upload.Storage.Db.{Db, of_version, HasUniqueVersions}
use upload.Storage.Samples.{db, releases, minio, a_release, a_file, an_artifact}
use upload.Files.{
  sync_and_check_missing_files, check_each, check_missing, are_files_uploaded, exists_in_bucket,
}
use upload.Files.Sync.{file_of}
use upload.Releases.{
  ReleaseView, get_release_entity, update_latest_for_project, is_released_of, dependencies_of,
  dependent_releases_of, Job, refresh, maybe_restore,
}
use upload.Releases.Refresh.{
  is_ready, refresh_release_state, check_regulations, examine, dependencies_are_released,
  file_is_uploaded, write_status, installation_artifacts, of_type, file_ids,
}
use upload.Releases.Refresh.Table.{refresh_table, settle, regulation_counts}
use upload.Releases.Refresh.Gate.{refresh_gate, IsJustified}
use upload.Releases.Refresh.Progress.{refresh_releases, is_released_version}
use upload.Releases.Refresh.Stale.{HasStatus, archived_project, write_status_stale}
use upload.Releases.Latest.{update_latest_for_project_lem, IsMarkedRight}
use upload.Releases.Jobs.{run_job, Schedule, start, then_run, run}
use upload.Releases.Jobs.Invariant.{Schedule-moves, LaterRows, HasUniqueKeys}

abbrev view : ReleaseView
view = record {
  release = a_release "1.0.0" in_review 1;
  artifacts = (an_artifact 1 "1.0.0" 1, some (a_file 1 "kept")) ∷ [];
  dependencies = [];
  dependent_releases = [];
}

reads : get_release_entity list_orm db 1 "1.0.0" ≡ some view
unfolding get_release_entity file_of dependencies_of dependent_releases_of
reads = refl

unique_versions : HasUniqueVersions db
unique_versions = ((refl, (refl, tt)), ((refl, tt), (tt, tt)))

refresh_table_example :
    (refresh_release_state list_orm minio "bucket" 7 1 "1.0.0" db).0.releases
    ≡ map_where
        (of_version 1 "1.0.0")
        (settle 7
          (examine list_orm minio "bucket" 1 "1.0.0" view db).0
          (regulation_counts list_orm 1 "1.0.0" db))
        releases
refresh_table_example =
    refresh_table list_orm minio "bucket" 7 1 "1.0.0" db view list_orm-IsSql unique_versions reads
      refl

refresh_gate_example :
    All
      (λ r.
        of_version 1 "1.0.0" r ≡ true
        → r.status ≡ released
        → IsJustified list_orm minio "bucket" 1 "1.0.0" view db)
      (refresh_release_state list_orm minio "bucket" 7 1 "1.0.0" db).0.releases
refresh_gate_example =
    refresh_gate list_orm minio "bucket" 7 1 "1.0.0" db view list_orm-IsSql unique_versions reads
      refl

justified : IsJustified list_orm minio "bucket" 1 "1.0.0" view db
unfolding examine dependencies_are_released file_is_uploaded sync_and_check_missing_files check_each
    installation_artifacts of_type are_files_uploaded file_ids exists_in_bucket check_missing
justified = record { compliant = refl; ready = refl }

refresh_releases_example :
    any
      (refresh_release_state list_orm minio "bucket" 7 1 "1.0.0" db).0.releases
      (is_released_version 1 "1.0.0")
    ≡ true
refresh_releases_example =
    refresh_releases list_orm minio "bucket" 7 1 "1.0.0" db view list_orm-IsSql unique_versions
      reads refl justified

complies : (examine list_orm minio "bucket" 1 "1.0.0" view db).0.regulations_compliant ≡ true
unfolding examine check_regulations
complies = refl

ready : is_ready (examine list_orm minio "bucket" 1 "1.0.0" view db).0 ≡ true
unfolding examine dependencies_are_released file_is_uploaded sync_and_check_missing_files check_each
    installation_artifacts of_type are_files_uploaded file_ids exists_in_bucket check_missing
ready = refl

write_status_stale_example :
    HasStatus archived 1 "1.0.0"
      (refresh_release_state list_orm minio "bucket" 7 1 "1.0.0"
        (archived_project list_orm 1 db)).0.releases
    × HasStatus archived 1 "1.0.0"
        (archived_project list_orm 1
          (refresh_release_state list_orm minio "bucket" 7 1 "1.0.0" db).0).releases
    × HasStatus released 1 "1.0.0"
        (write_status list_orm 7 1 "1.0.0" view
          (examine list_orm minio "bucket" 1 "1.0.0" view db).0
          (archived_project list_orm 1
            (examine list_orm minio "bucket" 1 "1.0.0" view db).1)).0.releases
write_status_stale_example =
    write_status_stale list_orm minio "bucket" 7 1 "1.0.0" view db list_orm-IsSql reads refl
      complies ready

update_latest_for_project_example :
    All (IsMarkedRight 1 releases) (update_latest_for_project 1 releases)
    × (All (λ r. r.project ≡ 1 → r.latest ≡ false) (update_latest_for_project 1 releases)
        → All (λ s. is_released_of 1 s ≡ false) releases)
update_latest_for_project_example = update_latest_for_project_lem 1 releases unique_versions

abbrev two_calls : List Job
two_calls = refresh 1 "1.0.0" ∷ maybe_restore "2.0.0" ∷ []

abbrev after_first : Db × List Job
after_first = (
  (run_job list_orm "bucket" minio 7 (maybe_restore "2.0.0") db).0,
  refresh 1 "1.0.0" ∷ (run_job list_orm "bucket" minio 7 (maybe_restore "2.0.0") db).1,
)

restore_first : Schedule list_orm "bucket" (db, two_calls) after_first
restore_first =
    then_run start (run minio 7 (refresh 1 "1.0.0" ∷ []) (maybe_restore "2.0.0") [] refl)

unique_keys : HasUniqueKeys db
unique_keys = (unique_versions, ((refl, (refl, tt)), ((refl, tt), (tt, tt))))

Schedule-moves_example : LaterRows releases after_first.0.releases × HasUniqueKeys after_first.0
Schedule-moves_example =
    Schedule-moves list_orm "bucket" (db, two_calls) after_first list_orm-IsSql unique_keys
      restore_first
