-- ===== src/Releases/Set.antt =====
-- `setRelease` of apps/upload/src/releases.service.ts, with the validation of dependencies and the
-- link of the default rule.
pub mod Call
pub mod Laws
pub mod Saved
pub mod Status
mod Tests
use Prim.Native.String
use upload.Prelude.{
  ℕ, ℕ_eq, String, String_eq, Bool, true, false, not, ◌&&◌, ◌||◌, Option, none, some, List, [], ◌∷◌,
  ◌++◌, map, ◌==◌, option_beq, if◌then◌else◌, length, any, head?, includes, ltb, truthy,
}
use upload.Storage.Orm.{Orm}
use upload.Storage.Enums.{
  ReleaseStatus, draft, in_review, approved, released, archived, ReleaseStatus_eq,
}
use upload.Storage.Rows.{JsonNumber, finite, not_finite, Metadata, Release, Dependency}
use upload.Storage.Db.{Db, of_version}
use upload.Storage.Minio.{Minio}
use upload.Releases.{
  Job, send_changed, status, ReleaseError, forbidden, not_found, depends_on_itself, may_edit,
  update_latest_for_project, update_total_size,
}
use upload.Rules.Store.{RuleRow, RuleRelease}
use upload.Releases.Order.{Semver, catalog_id_of, after_insert}
use upload.Releases.Refresh.{refresh_release_state}

-- SetReleaseDto; `project_identifier` as it is printed.
pub record SetReleaseDto : Type 0 where
  pub project_identifier : String
  pub project_id : ℕ
  pub version : String
  pub name : Option String
  pub release_notes : Option String
  pub metadata : Option Metadata
  pub is_draft : Option Bool
  pub status : Option ReleaseStatus
  pub dependencies : Option (List String)

-- The tables of the rules.
pub record Rules : Type 0 where
  pub rules : List RuleRow
  pub rule_releases : List RuleRelease

pub data Checked (A : Type 0) : Type 0 where
  ok : A → Checked A
  err : ReleaseError → Checked A

abbrev pub default_rule_id : String
default_rule_id = "00000000-0000-0000-0000-000000000001"

-- The status of the entity, which a new one does not have.
abbrev pub is_in : Option ReleaseStatus → ReleaseStatus → Bool
is_in current s = option_beq current (some s)

abbrev pub is_readonly_status : Option ReleaseStatus → Bool
is_readonly_status current = is_in current released || is_in current ReleaseStatus.error

-- The chain on `dto.status` and `dto.isDraft`.
pub decide_status :
    Bool
    → Option ReleaseStatus
    → Option Bool
    → Option ReleaseStatus
    → Checked (Option ReleaseStatus)
decide_status has_role (some archived) is_draft current = ok (some archived)
decide_status has_role (some draft) is_draft current = ok (some draft)
decide_status has_role (some in_review) is_draft current =
    ok (if is_readonly_status current then current else some in_review)
decide_status has_role (some released) is_draft current =
    if is_readonly_status current && not has_role then err forbidden else ok (some released)
decide_status has_role other (some true) current = ok (some draft)
decide_status has_role other (some false) current =
    ok (if is_readonly_status current then current else some in_review)
decide_status has_role other none current = ok current

-- `normalizedMetadata`
pub normalize : Metadata → Metadata
normalize m = elim m.installation_size [
  | none ↦ m
  | some n ↦ record m {
    installation_size = some (elim n [ finite k ↦ finite k | not_finite ↦ finite 0 ]);
  }
]

abbrev pub or_keep {ℓ} : {A : Type ℓ} → Option A → Option A → Option A
or_keep none old = old
or_keep (some a) old = some a

abbrev pub or_default {ℓ} : {A : Type ℓ} → Option A → A → A
or_default none a = a
or_default (some a) _ = a

abbrev pub empty_metadata : Metadata
empty_metadata = record { installation_size = none; total_size = none }

-- The fields that the method sets before the save. An undefined value leaves a column as it is.
pub fill :
    SetReleaseDto → String → Option ReleaseStatus → ℕ → Option String → Bool → Release → Release
fill dto printed_name decided required user_email is_new r = record r {
  version = dto.version;
  project = dto.project_id;
  name = some (or_default dto.name (String.◌++◌ printed_name (String.◌++◌ "-v" dto.version)));
  release_notes = or_keep dto.release_notes r.release_notes;
  metadata = elim dto.metadata [ none ↦ r.metadata | some m ↦ normalize m ];
  status = or_default decided r.status;
  required_regulations_count = required;
  created_by = if truthy user_email && is_new then user_email else r.created_by;
  updated_by = if truthy user_email then user_email else r.updated_by;
}

-- What the columns of a new row have by default.
pub new_release : String → SetReleaseDto → Release
new_release catalog_id dto = record {
  catalog_id = catalog_id;
  version = dto.version;
  name = none;
  status = draft;
  release_notes = none;
  metadata = empty_metadata;
  project = dto.project_id;
  required_regulations_count = 0;
  compliant_regulations_count = 0;
  created_by = none;
  updated_by = none;
  released_at = none;
  is_imported = false;
  sort_order = 0;
  latest = false;
}

module _ (orm : Orm) where
  pub project_name : Db → ℕ → Option String
  project_name db id = elim (head? (orm.find (λ p. p.id == id) db.projects)) [
    | none ↦ none
    | some p ↦ some p.name
  ]

  pub get_and_validate_dependencies_for_release :
      Db → ℕ → String → List String → Checked (List Release)
  get_and_validate_dependencies_for_release db project version dependencies =
      let dependency_entities = orm.find (λ r. includes dependencies r.catalog_id) db.releases in
      if ltb (length dependency_entities) (length dependencies)
      then err not_found
      else if any dependency_entities (of_version project version)
      then err depends_on_itself
      else ok dependency_entities

  -- Its errors are caught and logged.
  pub link_default_rule_to_release : String → Rules → Rules
  link_default_rule_to_release catalog_id rules =
      elim (head? (orm.find (λ r. r.id == default_rule_id && r.is_active) rules.rules)) [
        | none ↦ rules
        | some rule ↦
            elim (head? (
              orm.find (λ l. l.rule == default_rule_id && l.release == catalog_id)
                rules.rule_releases)) [
                  | some link ↦ rules
                  | none ↦ record rules {
                    rule_releases =
                        orm.insert (record { rule = default_rule_id; release = catalog_id })
                          rules.rule_releases;
                  }
                ]
      ]

  -- `save` of a list of dependencies: the rows of the release become these.
  pub save_dependencies : String → Option (List Release) → Db → Db
  save_dependencies catalog_id none db = db
  save_dependencies catalog_id (some entities) db = record db {
    dependencies =
        orm.delete (λ d. d.release == catalog_id) db.dependencies
        ++ map (λ r. record { release = catalog_id; dependency = r.catalog_id }) entities;
  }

  pub count_regulations : Db → ℕ → ℕ
  count_regulations db project = length (orm.find (λ r. r.project == project) db.regulations)

  pub validate_dependencies : SetReleaseDto → Db → Checked (Option (List Release))
  validate_dependencies dto db = elim dto.dependencies [
    | none ↦ ok none
    | some ids ↦
        elim (get_and_validate_dependencies_for_release db dto.project_id dto.version ids) [
          | err e ↦ err e
          | ok entities ↦ ok (some entities)
        ]
  ]
