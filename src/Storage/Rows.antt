-- ===== src/Storage/Rows.antt =====
-- The rows of the tables, libs/common/src/database/entities/. A relation is the key of the row it
-- leads to. Times are milliseconds; the columns that the mapper stamps itself (updated_at) and the
-- metadata keys that the services never read are left out.
use upload.Prelude.{ℕ, String, Bool, Option}
use upload.Storage.Enums.{ReleaseStatus, FileUploadStatus, ArtifactType}

pub record Project : Type 0 where
  pub id : ℕ
  pub name : String

-- A JSON value under a numeric metadata key, by what `Number` makes of it: a finite number, or
-- none (`NaN`, an infinity). Negative and fractional numbers are left out.
pub data JsonNumber : Type 0 where
  finite : ℕ → JsonNumber
  not_finite : JsonNumber

pub record Metadata : Type 0 where
  pub installation_size : Option JsonNumber
  pub total_size : Option ℕ

pub record Release : Type 0 where
  pub catalog_id : String
  pub version : String
  pub name : Option String
  pub status : ReleaseStatus
  pub release_notes : Option String
  pub metadata : Metadata
  pub project : ℕ
  pub required_regulations_count : ℕ
  pub compliant_regulations_count : ℕ
  pub created_by : Option String
  pub updated_by : Option String
  pub released_at : Option ℕ
  pub is_imported : Bool
  pub sort_order : ℕ
  pub latest : Bool

pub record FileUpload : Type 0 where
  pub id : ℕ
  pub created_date : ℕ
  pub file_name : String
  pub user_id : String
  pub object_key : String
  pub status : FileUploadStatus
  pub bucket_name : String
  pub size : Option ℕ
  pub content_type : Option String
  pub upload_at : Option ℕ
  pub signature : Option String
  pub sha256 : Option String
  pub progress : ℕ
  pub error : Option String

pub record Artifact : Type 0 where
  pub id : ℕ
  pub artifact_name : Option String
  pub type : ArtifactType
  pub docker_image_url : Option String
  pub is_installation_file : Bool
  pub release : String
  pub file_upload : Option ℕ
  pub is_executable : Bool
  pub arguments : Option String
  pub sbom_scan_id : Option String
  pub enable_sbom_scan : Bool
  pub sbom_report_path : Option String
  pub package_version : Option String

pub record RegulationType : Type 0 where
  pub id : ℕ
  pub name : String

pub record Regulation : Type 0 where
  pub id : ℕ
  pub name : String
  pub display_name : Option String
  pub description : Option String
  pub type : RegulationType
  pub project : ℕ
  pub config : Option String
  pub order : ℕ

pub record Snapshot : Type 0 where
  pub name : String
  pub description : Option String
  pub config : Option String
  pub type_id : ℕ

pub record RegulationStatus : Type 0 where
  pub id : ℕ
  pub version : String
  pub regulation : Option ℕ
  pub regulation_snapshot : Option Snapshot
  pub is_compliant : Bool
  pub value : Option String
  pub report_details : Option String

-- A row of `release_dependencies`.
pub record Dependency : Type 0 where
  pub release : String
  pub dependency : String
