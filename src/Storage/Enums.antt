-- ===== src/Storage/Enums.antt =====
-- libs/common/src/database/entities/enums.entity.ts: the states of releases, uploads and artifacts.
use upload.Prelude.{ℕ, ◌≡◌, ◌↔◌, true, arith, nat_eq, Eq}

pub data ReleaseStatus : Type 0 where
  draft in_review approved released archived error : ReleaseStatus

pub data FileUploadStatus : Type 0 where
  uploaded pending uploading removed error : FileUploadStatus

pub data ArtifactType : Type 0 where
  file docker_image rpm deb : ArtifactType

abbrev pub status_code : ReleaseStatus → ℕ
status_code draft = 0
status_code in_review = 1
status_code approved = 2
status_code released = 3
status_code archived = 4
status_code ReleaseStatus.error = 5

abbrev pub upload_code : FileUploadStatus → ℕ
upload_code uploaded = 0
upload_code pending = 1
upload_code uploading = 2
upload_code removed = 3
upload_code FileUploadStatus.error = 4

abbrev pub type_code : ArtifactType → ℕ
type_code file = 0
type_code docker_image = 1
type_code rpm = 2
type_code deb = 3

pub status_iff : (a b : ReleaseStatus) → (nat_eq (status_code a) (status_code b) ≡ true) ↔ (a ≡ b)
status_iff a b = ground arith

pub upload_status_iff :
    (a b : FileUploadStatus) → (nat_eq (upload_code a) (upload_code b) ≡ true) ↔ (a ≡ b)
upload_status_iff a b = ground arith

pub type_iff : (a b : ArtifactType) → (nat_eq (type_code a) (type_code b) ≡ true) ↔ (a ≡ b)
type_iff a b = ground arith

instance abbrev pub ReleaseStatus_eq : Eq ReleaseStatus
ReleaseStatus_eq = record {
  is_same = λ a b. nat_eq (status_code a) (status_code b);
  same_iff = status_iff;
}

instance abbrev pub FileUploadStatus_eq : Eq FileUploadStatus
FileUploadStatus_eq = record {
  is_same = λ a b. nat_eq (upload_code a) (upload_code b);
  same_iff = upload_status_iff;
}

instance abbrev pub ArtifactType_eq : Eq ArtifactType
ArtifactType_eq = record {
  is_same = λ a b. nat_eq (type_code a) (type_code b);
  same_iff = type_iff;
}
