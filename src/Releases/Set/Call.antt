-- ===== src/Releases/Set/Call.antt =====
-- The call of `setRelease` of apps/upload/src/releases.service.ts: the save of an existing or of a
-- new release, and what follows it.
use upload.Prelude.{
  ℕ, ℕ_eq, String, String_eq, Bool, true, false, not, Option, none, some, List, [], ◌∷◌, ◌==◌,
  option_beq, if◌then◌else◌, head?,
}
use upload.Storage.Orm.{Orm}
use upload.Storage.Enums.{ReleaseStatus, archived, ReleaseStatus_eq}
use upload.Storage.Rows.{Release}
use upload.Storage.Db.{Db, of_version}
use upload.Storage.Minio.{Minio}
use upload.Releases.{
  Job, send_changed, status, forbidden, may_edit, update_latest_for_project, update_total_size,
}
use upload.Releases.Order.{Semver, catalog_id_of, after_insert}
use upload.Releases.Refresh.{refresh_release_state}
use upload.Releases.Set.{
  SetReleaseDto, Rules, Checked, ok, err, decide_status, or_default, project_name,
  link_default_rule_to_release, save_dependencies, fill, new_release, count_regulations,
  validate_dependencies,
}

module _ (orm : Orm) where
  module _ (minio : Minio) (bucket_name : String) (semver : Semver) (to_string : ℕ → String) where
    -- What follows the save.
    unfoldable pub finish_set : ℕ → SetReleaseDto → String → Db × Rules → Db × Rules × List Job
    finish_set now dto catalog_id (saved, rules) =
        let db = update_total_size orm dto.project_id dto.version saved in
        if option_beq dto.status (some archived)
        then (
          record db { releases = update_latest_for_project dto.project_id db.releases },
          rules,
          send_changed dto.project_id catalog_id (some (status archived)) ∷ [],
        )
        else let (refreshed, jobs) =
            refresh_release_state orm minio bucket_name now dto.project_id dto.version db in
          (refreshed, rules, jobs)

    unfoldable pub save_existing :
        SetReleaseDto
        → Option String
        → Option ReleaseStatus
        → Option (List Release)
        → Release
        → Db
        → Db
    save_existing dto user_email decided entities r db =
        let name = or_default (project_name orm db r.project) dto.project_identifier in
        let row =
          fill dto name decided (count_regulations orm db dto.project_id) user_email false r in
        save_dependencies orm r.catalog_id entities (record db {
          releases = (orm.update (λ x. x.catalog_id == r.catalog_id) (λ x. row) db.releases).0;
        })

    pub new_catalog_id : SetReleaseDto → Db → String
    new_catalog_id dto db =
        catalog_id_of to_string dto.project_id (project_name orm db dto.project_id) dto.version

    pub save_new :
        SetReleaseDto → Option String → Option ReleaseStatus → Option (List Release) → Db → Db
    save_new dto user_email decided entities db =
        let catalog_id = new_catalog_id dto db in
        let row =
          fill dto dto.project_identifier decided (count_regulations orm db dto.project_id)
            user_email true (new_release catalog_id dto) in
        save_dependencies orm catalog_id entities
          (record db { releases = after_insert orm semver row (orm.insert row db.releases) })

    -- The database, the tables of the rules, and the calls that are left behind; the release that
    -- the method reads again for its answer is left out.
    unfoldable pub set_release :
        Bool → ℕ → SetReleaseDto → Option String → Db × Rules → Checked (Db × Rules × List Job)
    set_release has_role now dto user_email (db, rules) =
        elim (head? (orm.find (of_version dto.project_id dto.version) db.releases)) [
          | some r ↦
              if not (may_edit has_role r)
              then err forbidden
              else elim (decide_status has_role dto.status dto.is_draft (some r.status)) [
                | err e ↦ err e
                | ok decided ↦ elim (validate_dependencies orm dto db) [
                  | err e ↦ err e
                  | ok entities ↦ ok (
                      finish_set now dto r.catalog_id
                        (save_existing dto user_email decided entities r db, rules))
                ]
              ]
          | none ↦ elim (decide_status has_role dto.status dto.is_draft none) [
            | err e ↦ err e
            | ok decided ↦ elim (validate_dependencies orm dto db) [
              | err e ↦ err e
              | ok entities ↦
                  let catalog_id = new_catalog_id dto db in
                  ok (
                    finish_set now dto catalog_id (
                      save_new dto user_email decided entities db,
                      link_default_rule_to_release orm catalog_id rules,
                    ))
            ]
          ]
        ]
