-- ===== src/Config/Associations/Queries/Tests.antt =====
-- The lists about associations, on two associations of one map.
use upload.Prelude.{
  ℕ, ℕ_eq, String, String_eq, Bool, Option, some, none, List, [], ◌∷◌, ◌++◌, ◌≡◌, ◌==◌, refl, arith,
  any, if◌then◌else◌,
}
use upload.Vault.Text.{drop_chars}
use upload.Config.Rows.{Association}
use upload.Config.Samples.{env, store, device_project}
use upload.Config.Store.{Store, ok, config_map, ConfigProject}
use upload.Config.Associations.{
  associations_of, refresh_devices, cascade_config_map_revision_to_devices,
}
use upload.Config.Associations.Queries.{
  affected_devices, get_config_map_affected_devices, get_config_maps_for_project,
}
use upload.Config.Associations.Queries.Laws.{affected_devices-cascade}

abbrev a_map : ConfigProject
a_map = record { id = 7; name = "base"; project_type = config_map }

abbrev association : ℕ → Option ℕ → Option String → Association
association id type device = record {
  id = id;
  config_map_project_id = 7;
  device_type_id = type;
  device_id = device;
  config_project_id = none;
}

abbrev tables : Store (Unit {0})
tables = record store {
  associations = association 1 (some 3) none ∷ association 2 none (some "tablet") ∷ [];
  next_association = 3;
}

-- Type 3 has two devices, and no other type has any.
abbrev devices_of : List ℕ → List String
devices_of [] = []
devices_of (type ∷ types) =
    let rest = devices_of types in (if type == 3 then "tablet" ∷ "phone" ∷ [] else []) ++ rest

abbrev types_of : String → List ℕ
types_of device = 3 ∷ []

abbrev project_by_id : ℕ → Option ConfigProject
project_by_id id = if id == 7 then some a_map else none

abbrev project_of : String → Option ConfigProject
project_of device = some device_project

affected_devices-cascade_example :
    (get_config_map_affected_devices env devices_of (some a_map) tables
      ≡ (tables, ok (affected_devices env devices_of (associations_of env 7 tables))))
    × ((devices : List String) × (cascade_config_map_revision_to_devices env devices_of project_of
            types_of 1000 7 tables
          ≡ refresh_devices env devices_of project_of types_of 1000 devices tables)
        × ((p : String → Bool)
            → any
                (affected_devices env devices_of (associations_of env 7 tables))
                (λ r. p r.device_id)
              ≡ any devices p))
unfolding associations_of
affected_devices-cascade_example =
    affected_devices-cascade env devices_of project_of types_of 1000 a_map tables refl (omega arith)

get_config_maps_run :
    (get_config_maps_for_project env types_of project_by_id (some device_project) tables).1
    ≡ ok (
        record {
          association_id = 1;
          config_map_project_id = 7;
          config_map_project_name = "base";
          device_type_id = some 3;
        }
        ∷ [])
unfolding get_config_maps_for_project drop_chars
get_config_maps_run = refl
