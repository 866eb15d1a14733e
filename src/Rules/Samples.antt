-- ===== src/Rules/Samples.antt =====
-- A table with a release and a policy for it, on which the rules are tried.
use upload.Prelude.{String, Bool, true, false, none, some, List, [], ◌∷◌}
use upload.Config.Json.{object, empty}
use upload.Storage.Enums.{released}
use upload.Storage.Orm.{list_orm}
use upload.Storage.Rows.{Release}
use upload.Storage.Samples.{a_release}
use upload.Rules.Links.{ReleaseIdentifierDto}
use upload.Rules.Service.{CreateRuleDto}
use upload.Rules.Store.{policy, RuleRow, Tables, Env}

abbrev pub env : Env
env = record {
  orm = list_orm;
  newest_first = λ rows. rows;
  parse_json = λ s. none;
  parse_int = λ s. none;
  is_valid = λ v. true;
}

abbrev pub a_policy : String → Bool → Bool → RuleRow
a_policy id is_active is_push = record {
  id = id;
  name = "a policy";
  description = none;
  type = policy;
  version = 1;
  is_active = is_active;
  is_push = is_push;
  rule = object empty;
  created_at = 1;
}

abbrev pub one : Release
one = a_release "1.0.0" released 1

-- A pushed policy for the release, and one that is not shown.
abbrev pub tables : Tables
tables = record {
  rules = a_policy "p" true true ∷ a_policy "q" false true ∷ [];
  rule_releases =
      record { rule = "p"; release = one.catalog_id }
      ∷ record { rule = "q"; release = one.catalog_id }
      ∷ [];
  rule_device_types = [];
  rule_devices = [];
  rule_os = [];
  releases = one ∷ [];
  projects = record { id = one.project; name = "app" } ∷ [];
  device_types = [];
  devices = "tablet" ∷ [];
  fields = record { rows = []; next_id = 1 };
}

abbrev pub by_project : String → String → ReleaseIdentifierDto
by_project name version = record {
  project_id = none;
  project_name = some name;
  version = some version;
}

abbrev pub new_policy : List ReleaseIdentifierDto → CreateRuleDto
new_policy releases = record {
  name = "new";
  description = none;
  type = policy;
  association = record {
    releases = releases;
    device_type_names = [];
    device_ids = [];
    os_types = [];
  };
  is_active = none;
  is_push = none;
  rule = object empty;
}
