-- ===== src/Config/Rows.antt =====
-- The tables of the configurations: config-revision.entity.ts, config-group.entity.ts and
-- config-map-association.entity.ts of libs/common/src/database/entities/. A relation is the key of
-- the row that it leads to; the columns that the mapper stamps itself are left out. A semantic
-- version is the triple of its parts, and a sensitive key is split at its dots.
use upload.Prelude.{ℕ, String, Bool, true, nat_eq, Option, List, Eq, ◌≡◌, ◌↔◌, arith}

pub data RevisionStatus : Type 0 where
  draft active archived : RevisionStatus

abbrev pub status_code : RevisionStatus → ℕ
status_code draft = 0
status_code active = 1
status_code archived = 2

pub revision_status_iff :
    (a b : RevisionStatus) → (nat_eq (status_code a) (status_code b) ≡ true) ↔ (a ≡ b)
revision_status_iff a b = ground arith

instance abbrev pub RevisionStatus_eq : Eq RevisionStatus
RevisionStatus_eq = record {
  is_same = λ a b. nat_eq (status_code a) (status_code b);
  same_iff = revision_status_iff;
}

pub record Version : Type 0 where
  pub major : ℕ
  pub minor : ℕ
  pub patch : ℕ

pub record Revision : Type 0 where
  pub id : ℕ
  pub project_id : ℕ
  pub revision_number : ℕ
  pub status : RevisionStatus
  pub applied_by : Option String
  pub applied_at : Option ℕ
  pub sem_ver : Option Version

pub record Group : Type 0 where
  pub id : ℕ
  pub revision_id : ℕ
  pub name : String
  pub display_name : Option String
  pub is_global : Bool
  pub git_file_path : Option String
  pub yaml_content : Option String
  pub sensitive_keys : List (List String)
  pub position : ℕ

pub record Association : Type 0 where
  pub id : ℕ
  pub config_map_project_id : ℕ
  pub device_type_id : Option ℕ
  pub device_id : Option String
  pub config_project_id : Option ℕ
