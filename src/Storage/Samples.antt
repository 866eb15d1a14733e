-- ===== src/Storage/Samples.antt =====
-- A small database, on which tests and witnesses run.
use upload.Prelude.{
  ℕ, ◌==◌, String_eq, if◌then◌else◌, String, true, false, none, some, List, [], ◌∷◌,
}
use upload.Storage.Enums.{ReleaseStatus, draft, in_review, released, uploaded, file}
use upload.Storage.Rows.{Metadata, Release, FileUpload, Artifact, Regulation}
use upload.Storage.Db.{Db}
use upload.Storage.Minio.{Minio}

abbrev pub no_metadata : Metadata
no_metadata = record { installation_size = none; total_size = none }

abbrev pub a_release : String → ReleaseStatus → ℕ → Release
a_release version status order = record {
  catalog_id = version;
  version = version;
  name = none;
  status = status;
  release_notes = none;
  metadata = no_metadata;
  project = 1;
  required_regulations_count = 0;
  compliant_regulations_count = 0;
  created_by = none;
  updated_by = none;
  released_at = none;
  is_imported = false;
  sort_order = order;
  latest = false;
}

abbrev pub a_file : ℕ → String → FileUpload
a_file id object_key = record {
  id = id;
  created_date = 0;
  file_name = "app.zip";
  user_id = "user";
  object_key = object_key;
  status = uploaded;
  bucket_name = "";
  size = some 10;
  content_type = none;
  upload_at = none;
  signature = none;
  sha256 = none;
  progress = 100;
  error = none;
}

abbrev pub an_artifact : ℕ → String → ℕ → Artifact
an_artifact id release upload = record {
  id = id;
  artifact_name = none;
  type = file;
  docker_image_url = none;
  is_installation_file = true;
  release = release;
  file_upload = some upload;
  is_executable = false;
  arguments = none;
  sbom_scan_id = none;
  enable_sbom_scan = false;
  sbom_report_path = none;
  package_version = none;
}

abbrev pub a_regulation : ℕ → String → Regulation
a_regulation id name = record {
  id = id;
  name = name;
  display_name = none;
  description = none;
  type = record { id = 1; name = "boolean" };
  project = 1;
  config = none;
  order = id;
}

-- The version 1.0.0 is in review with one uploaded file, 2.0.0 is released and its file is gone.
abbrev pub releases : List Release
releases =
    a_release "1.0.0" in_review 1 ∷ a_release "2.0.0" released 2 ∷ a_release "3.0.0" draft 3 ∷ []

abbrev pub files : List FileUpload
files = a_file 1 "kept" ∷ a_file 2 "gone" ∷ []

abbrev pub db : Db
db = record {
  projects = record { id = 1; name = "maps" } ∷ [];
  releases = releases;
  dependencies = [];
  artifacts = an_artifact 1 "1.0.0" 1 ∷ an_artifact 2 "2.0.0" 2 ∷ [];
  files = files;
  regulations = [];
  statuses = [];
}

-- A storage that keeps the object of one key.
abbrev pub minio : Minio
minio = record {
  stat = λ bucket key.
      if key == "kept"
      then some (record { size = 10; content_type = none; last_modified = 0 })
      else none;
  sha256 = λ bucket key. none;
}
