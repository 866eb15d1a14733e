-- ===== src/Storage/Minio.antt =====
-- The object storage, behind libs/common/src/AWS/minio-client.service.ts: what the services ask of
-- it while they run, as a parameter.
use upload.Prelude.{ℕ, String, Option}

pub record ObjectStat : Type 0 where
  pub size : ℕ
  pub content_type : Option String
  pub last_modified : ℕ

-- `getObjectStat` of a bucket and a key, `none` where it fails, and the checksum of the object's
-- content, `none` where it cannot be read.
pub record Minio : Type 0 where
  pub stat : String → String → Option ObjectStat
  pub sha256 : String → String → Option String
