-- ===== src/Releases/Refresh.antt =====
-- apps/upload/src/releases.service.ts, `refreshReleaseState`: the status of a release follows its
-- regulations, its dependencies and its installation artifacts.
pub mod Compliance
pub mod Table
pub mod Gate
pub mod Stale
pub mod Progress
use upload.Prelude.{
  ℕ, zero, suc, ℕ_eq, ◌+◌, String, String_eq, Bool, true, false, not, ◌&&◌, ◌||◌, Option, none,
  some, List, [], ◌∷◌, ◌++◌, map, ◌==◌, option_beq, if◌then◌else◌, length, filter, filter_map,
  find?, all, ltb,
}
use upload.Storage.Orm.{Orm}
use upload.Storage.Enums.{
  ReleaseStatus, in_review, released, archived, ReleaseStatus_eq, file, docker_image, rpm, deb,
  ArtifactType_eq,
}
use upload.Storage.Rows.{Release, FileUpload, Artifact, Regulation}
use upload.Storage.Db.{Db, of_version}
use upload.Storage.Minio.{Minio}
use upload.Files.{are_files_uploaded, sync_and_check_missing_files}
use upload.Files.Sync.{set_status}
use upload.Regulations.{RegulationStatusDto, get_version_regulations_statuses}
use upload.Releases.{
  Job, update_latest, refresh, send_changed, status, ReleaseView, get_release_entity,
}

abbrev pub is_compliant : List RegulationStatusDto → Regulation → Bool
is_compliant statuses r = elim (find? (λ s. option_beq s.regulation (some r.name)) statuses) [
  | none ↦ false
  | some s ↦ s.is_compliant
]

-- The loop over the regulations, with `regulationsCompliant` and `numCompliant`.
unfoldable pub check_regulations : List RegulationStatusDto → List Regulation → Bool × ℕ → Bool × ℕ
check_regulations statuses [] s = s
check_regulations statuses (r ∷ rs) (compliant, num) =
    check_regulations statuses rs
      (if is_compliant statuses r then (compliant, num + 1) else (false, num))

-- `dependencies?.length > 0 && dependencies?.every(...)`
unfoldable pub dependencies_are_released : List Release → Bool
dependencies_are_released deps = ltb 0 (length deps) && all deps (λ d. d.status == released)

abbrev pub file_id : Artifact × Option FileUpload → Option ℕ
file_id (a, none) = none
file_id (a, some f) = some f.id

unfoldable pub installation_artifacts : ReleaseView → List (Artifact × Option FileUpload)
installation_artifacts view = filter (λ (a, f). a.is_installation_file) view.artifacts

unfoldable pub of_type : (Artifact → Bool) → ReleaseView → List (Artifact × Option FileUpload)
unfolding installation_artifacts
of_type test view = filter (λ (a, f). test a) (installation_artifacts view)

abbrev pub is_file : Artifact → Bool
is_file a = a.type == file

abbrev pub is_docker : Artifact → Bool
is_docker a = a.type == docker_image

abbrev pub is_package : Artifact → Bool
is_package a = a.type == rpm || a.type == deb

unfoldable pub file_ids : ReleaseView → List ℕ
unfolding of_type
file_ids view = filter_map file_id (of_type is_file view)

-- What the calls before the decision have found.
pub record Findings : Type 0 where
  pub regulations_compliant : Bool
  pub dependencies_released : Bool
  pub file_uploaded : Bool
  pub storage_missing : Bool

abbrev pub is_ready : Findings → Bool
is_ready f = f.dependencies_released || f.file_uploaded

-- `CASE WHEN released_at IS NULL THEN NOW() ELSE released_at END`
abbrev pub promote : ℕ → Release → Release
promote now r = record r {
  status = released;
  released_at = elim r.released_at [ none ↦ some now | some t ↦ some t ];
}

abbrev pub back_to_review : Release → Release
back_to_review r = record r { status = in_review; released_at = none }

abbrev pub is_terminal : Release → Bool
is_terminal r = r.status == ReleaseStatus.error || r.status == archived

-- The calls that follow an update which affected a row: the latest pointer and the dependents.
pub follow_up : ℕ → List Release → List Job
follow_up project dependents =
    update_latest project ∷ map (λ d. refresh d.project d.version) dependents

module _ (orm : Orm) where
  unfoldable pub file_is_uploaded : ReleaseView → List FileUpload → Bool
  file_is_uploaded view files =
      ltb 0 (length (installation_artifacts view))
      && (if ltb 0 (length (of_type is_file view))
          then are_files_uploaded orm (file_ids view) files
          else ltb 0 (length (of_type is_docker view)) || ltb 0 (length (of_type is_package view)))

  -- An update of one of the branches: the table, and the status to announce if a row was affected.
  pub write_where :
      (Release → Bool)
      → (Release → Release)
      → ReleaseStatus
      → ℕ
      → ReleaseView
      → Db
      → Db × List Job × Option ReleaseStatus
  write_where test change to project view db =
      let (releases, affected) = orm.update test change db.releases in
      (
        record db { releases = releases },
        if ltb 0 affected then follow_up project view.dependent_releases else [],
        if ltb 0 affected then some to else none,
      )

  -- The decision and its update. `view` is the release as it was read at the start.
  pub write_status :
      ℕ → ℕ → String → ReleaseView → Findings → Db → Db × List Job × Option ReleaseStatus
  write_status now project version view found db =
      let key = of_version project version in
      let was_released = λ (r : Release). key r && r.status == released in
      if (not found.regulations_compliant || not (is_ready found))
        && view.release.status == released
      then if found.storage_missing
        then write_where was_released (set_status ReleaseStatus.error) ReleaseStatus.error project
            view db
        else write_where was_released back_to_review in_review project view db
      else if found.regulations_compliant && view.release.status == in_review && is_ready found
      then write_where key (promote now) released project view db
      else (db, [], none)

  module _ (minio : Minio) (bucket_name : String) where
    -- Everything between the reading of the release and the decision: the regulation counts, and
    -- the uploads that are missing from the storage.
    unfoldable pub examine : ℕ → String → ReleaseView → Db → Findings × Db
    examine project version view db =
        let regulations = orm.find (λ r. r.project == project) db.regulations in
        let statuses = get_version_regulations_statuses orm db project version in
        let (compliant, num_compliant) = check_regulations statuses regulations (true, 0) in
        let releases =
          (orm.update (λ r. of_version project version r && not (r.status == released))
            (λ r. record r {
              required_regulations_count = length regulations;
              compliant_regulations_count = num_compliant;
            })
            db.releases).0 in
        let (storage_missing, files) =
          sync_and_check_missing_files orm minio bucket_name (file_ids view) db.files in
        (
          record {
            regulations_compliant = compliant;
            dependencies_released = dependencies_are_released view.dependencies;
            file_uploaded = file_is_uploaded view files;
            storage_missing = storage_missing;
          },
          record db { releases = releases; files = files },
        )

    -- The whole call with nothing else running: the database and the calls it leaves behind.
    pub refresh_release_state : ℕ → ℕ → String → Db → Db × List Job
    refresh_release_state now project version db =
        elim (get_release_entity orm db project version) [
          | none ↦ (db, [])
          | some view ↦
              if is_terminal view.release
              then (db, [])
              else let (found, examined) = examine project version view db in
                let (written, jobs, change) =
                  write_status now project version view found examined in
                (
                  written,
                  jobs
                      ++ send_changed project view.release.catalog_id
                          (elim change [ none ↦ none | some s ↦ some (status s) ])
                        ∷ [],
                )
        ]
