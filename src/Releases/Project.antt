-- ===== src/Releases/Project.antt =====
-- apps/upload/src/releases.service.ts: archiving and restoring all releases of a project.
pub mod Laws
use upload.Prelude.{
  ℕ, ℕ_eq, Bool, true, false, not, ◌&&◌, some, List, [], ◌∷◌, map, ◌==◌, if◌then◌else◌, length, ltb,
}
use upload.Storage.Orm.{Orm}
use upload.Storage.Enums.{ReleaseStatus, draft, archived, ReleaseStatus_eq}
use upload.Storage.Rows.{Release}
use upload.Releases.{Job, send_changed, status, update_latest_for_project}

abbrev pub is_active_of : ℕ → Release → Bool
is_active_of project r = (r.project == project) && not (r.status == archived)

abbrev pub is_archived_of : ℕ → Release → Bool
is_archived_of project r = (r.project == project) && r.status == archived

abbrev pub archive : Release → Release
archive r = record r { status = archived; latest = false }

abbrev pub to_draft : Release → Release
to_draft r = record r { status = draft }

module _ (orm : Orm) where
  -- The table, and the events for the offering service.
  pub archive_project_releases : ℕ → List Release → List Release × List Job
  archive_project_releases project releases =
      let active = orm.find (is_active_of project) releases in
      if ltb 0 (length active)
      then (
        (orm.update (is_active_of project) archive releases).0,
        map (λ r. send_changed project r.catalog_id (some (status archived))) active,
      )
      else (releases, [])

  pub restore_project_releases : ℕ → List Release → List Release
  restore_project_releases project releases =
      update_latest_for_project project ((orm.update (is_archived_of project) to_draft releases).0)
