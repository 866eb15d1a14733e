-- ===== src/Config/Samples.antt =====
-- Inputs on which the theorems about the configurations are run.
use upload.Prelude.{ℕ, String, String_eq, false, none, some, [], ◌∷◌, ◌==◌, if◌then◌else◌}
use upload.Storage.Orm.{list_orm}
use upload.Vault.{missing, Server}
use upload.Config.Json.{number, text, object, Fields, empty, field}
use upload.Config.Rows.{draft, active, Version, Revision, Group}
use upload.Config.Yaml.{Yaml}
use upload.Config.Store.{Store, Env, config, ConfigProject}

-- A server that is not there.
abbrev pub no_server : Server (Unit {0})
no_server = record { get = λ s at. missing; post = λ s at secret. none; delete = λ s at. s }

-- `database: {host, password}` and `level: 1`, or `level: 2`.
abbrev pub database : Fields
database = field "host" (text "db") (field "password" (text "hunter2") empty)

abbrev pub content_1 : Fields
content_1 = field "database" (object database) (field "level" (number "1") empty)

abbrev pub content_2 : Fields
content_2 = field "database" (object database) (field "level" (number "2") empty)

-- Two files, "one" and "two"; a number prints as itself, any other value as a text of its own.
abbrev pub yaml : Yaml
yaml = record {
  load = λ s. some (object (if s == "one" then content_1 else content_2));
  dump = λ fields. "two";
  stringify = λ v. elim v [ number n ↦ n | _ ↦ "other" ];
  to_text = λ v. elim v [ text s ↦ s | _ ↦ "other" ];
}

abbrev pub env : Env (Unit {0})
env = record {
  orm = list_orm;
  yaml = yaml;
  server = no_server;
  vault = record { enabled = false; mount_path = "getapp-secrets" };
  print = λ n. "7";
}

abbrev pub a_group : ℕ → ℕ → String → Group
a_group id revision content = record {
  id = id;
  revision_id = revision;
  name = "app";
  display_name = none;
  is_global = false;
  git_file_path = none;
  yaml_content = some content;
  sensitive_keys = ("database" ∷ "password" ∷ []) ∷ [];
  position = 0;
}

abbrev pub v1 : Version
v1 = record { major = 1; minor = 0; patch = 0 }

-- An active revision 1 and a draft 2 of project 5.
abbrev pub active_1 : Revision
active_1 = record {
  id = 1;
  project_id = 5;
  revision_number = 1;
  status = active;
  applied_by = none;
  applied_at = some 10;
  sem_ver = some v1;
}

abbrev pub draft_2 : Revision
draft_2 = record {
  id = 2;
  project_id = 5;
  revision_number = 2;
  status = draft;
  applied_by = none;
  applied_at = none;
  sem_ver = none;
}

abbrev pub store : Store (Unit {0})
store = record {
  revisions = active_1 ∷ draft_2 ∷ [];
  groups = a_group 1 1 "one" ∷ a_group 2 2 "two" ∷ [];
  associations = [];
  next_revision = 3;
  next_group = 3;
  next_association = 1;
  secrets = tt;
}

abbrev pub device_project : ConfigProject
device_project = record { id = 5; name = "config:tablet"; project_type = config }
