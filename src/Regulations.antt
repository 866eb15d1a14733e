-- ===== src/Regulations.antt =====
-- apps/upload/src/regulation-status.service.ts: the compliance of a version with the regulations of
-- its project.
pub mod Laws
mod Tests
use mathlib.Core.Option.{get_or}
use upload.Prelude.{
  ℕ, ℕ_eq, String, String_eq, Bool, true, false, ◌&&◌, ◌||◌, Option, none, some, List, map, ◌==◌,
  option_beq, if◌then◌else◌, any, head?, includes,
}
use upload.Storage.Orm.{Orm}
use upload.Storage.Rows.{Regulation, RegulationStatus, Snapshot, Release}
use upload.Storage.Db.{Db, of_version}

-- `NotFoundException` of a release, of a regulation and of a status, and an error of `enforce`.
pub data RegulationError : Type 0 where
  release_not_found regulation_not_found status_not_found not_enforced : RegulationError

pub data Result (A : Type 0) : Type 0 where
  ok : A → Result A
  err : RegulationError → Result A

-- RegulationStatusDto, with the two names that its `regulation` is chosen from.
pub record RegulationStatusDto : Type 0 where
  pub regulation : Option String
  pub is_compliant : Bool
  pub value : Option String
  pub report_details : Option String

-- `a ?? b`
abbrev pub or_null {ℓ} : {A : Type ℓ} → Option A → Option A → Option A
or_null none b = b
or_null (some a) b = some a

module _ (orm : Orm) where
  pub regulation_of : Db → RegulationStatus → Option Regulation
  regulation_of db s = elim s.regulation [
    | none ↦ none
    | some id ↦ head? (orm.find (λ r. r.id == id) db.regulations)
  ]

  pub from_entity : Db → RegulationStatus → RegulationStatusDto
  from_entity db s = record {
    regulation =
        or_null (elim (regulation_of db s) [ none ↦ none | some r ↦ some r.name ])
          (elim s.regulation_snapshot [ none ↦ none | some snap ↦ some snap.name ]);
    is_compliant = s.is_compliant;
    value = s.value;
    report_details = s.report_details;
  }

  -- `version: { version, project: { id } }` of a status row.
  pub is_of_version : Db → ℕ → String → RegulationStatus → Bool
  is_of_version db project version s =
      any (orm.find (of_version project version) db.releases) (λ r. r.catalog_id == s.version)

  pub get_version_regulations_statuses : Db → ℕ → String → List RegulationStatusDto
  get_version_regulations_statuses db project version = map (from_entity db) (
      orm.order_by (λ s. elim (regulation_of db s) [ none ↦ none | some r ↦ some r.order ])
        (orm.find (is_of_version db project version) db.statuses))

  -- Either its snapshot or its regulation has the name.
  pub is_named : Db → String → RegulationStatus → Bool
  is_named db name s =
      elim s.regulation_snapshot [ none ↦ false | some snap ↦ snap.name == name ]
      || elim (regulation_of db s) [ none ↦ false | some r ↦ r.name == name ]

  pub find_status : Db → ℕ → String → String → Option RegulationStatus
  find_status db project version regulation =
      head?
        (orm.find (λ s. is_of_version db project version s && is_named db regulation s) db.statuses)

  pub get_version_regulation_status : Db → ℕ → String → String → Result RegulationStatusDto
  get_version_regulation_status db project version regulation =
      elim (find_status db project version regulation) [
        | none ↦ err status_not_found
        | some s ↦ ok (from_entity db s)
      ]

  -- `res?.affected == 0` cannot hold: the row has just been read.
  pub delete_version_regulation_status : ℕ → String → String → Db → Result Db
  delete_version_regulation_status project version regulation db =
      elim (find_status db project version regulation) [
        | none ↦ err status_not_found
        | some s ↦ ok (record db { statuses = orm.delete (λ t. t.id == s.id) db.statuses })
      ]

  -- The statuses whose regulation is gone and that have no snapshot of it.
  abbrev is_orphan : RegulationStatus → Bool
  is_orphan s =
      option_beq s.regulation none && elim s.regulation_snapshot [ none ↦ true | some _ ↦ false ]

  pub delete_orphan_regulation_statuses : ℕ → String → Db → Db
  delete_orphan_regulation_statuses project version db =
      let statues = orm.find (λ s. is_of_version db project version s && is_orphan s) db.statuses in
      record db { statuses = orm.delete (λ t. includes (map (λ s. s.id) statues) t.id) db.statuses }

  pub get_regulation_and_release : Db → ℕ → String → String → Result (Regulation × Release)
  get_regulation_and_release db project version regulation =
      elim (head? (orm.find (of_version project version) db.releases)) [
        | none ↦ err release_not_found
        | some release ↦
            elim (head?
              (orm.find (λ r. r.name == regulation && r.project == project) db.regulations)) [
                | none ↦ err regulation_not_found
                | some r ↦ ok (r, release)
              ]
      ]

pub create_regulation_snapshot : Regulation → Snapshot
create_regulation_snapshot r = record {
  name = get_or r.display_name r.name;
  description = r.description;
  config = r.config;
  type_id = r.type.id;
}

-- The unique constraint on the regulation and the version.
pub conflicts : Regulation → Release → RegulationStatus → Bool
conflicts r release s = option_beq s.regulation (some r.id) && s.version == release.catalog_id

pub snapshot_if : Bool → Regulation → Option Snapshot
snapshot_if compliant r = if compliant then some (create_regulation_snapshot r) else none

module _ (orm : Orm) where
  -- The insert of `setRegulationStatus`; `id` is what the database gives a new row.
  pub put_status : ℕ → Regulation → Release → Bool → Option String → Option String → Db → Db
  put_status id r release compliant value details db = record db {
    statuses =
        orm.upsert (conflicts r release)
          (λ s. record s {
            value = value;
            report_details = details;
            is_compliant = compliant;
            regulation_snapshot = snapshot_if compliant r;
          })
          (record {
            id = id;
            version = release.catalog_id;
            regulation = some r.id;
            regulation_snapshot = snapshot_if compliant r;
            is_compliant = compliant;
            value = value;
            report_details = details;
          })
          db.statuses;
  }

  -- The insert of `setComplianceStatus`, which leaves the value and the report as they are.
  pub put_compliance : ℕ → Regulation → Release → Bool → Db → Db
  put_compliance id r release compliant db = record db {
    statuses =
        orm.upsert (conflicts r release)
          (λ s. record s {
            is_compliant = compliant;
            regulation_snapshot = snapshot_if compliant r;
          })
          (record {
            id = id;
            version = release.catalog_id;
            regulation = some r.id;
            regulation_snapshot = snapshot_if compliant r;
            is_compliant = compliant;
            value = none;
            report_details = none;
          })
          db.statuses;
  }
