-- ===== src/Config/Associations/Queries.antt =====
-- The lists of apps/upload/src/config/config.service.ts about associations: the devices that a
-- configuration map affects, and the maps of a device's project.
pub mod Laws
mod Tests
use text.Mathlib.Text.{starts_with}
use upload.Prelude.{
  ℕ, ℕ_eq, String, Bool, true, false, ◌&&◌, ◌||◌, Option, none, some, List, [], ◌∷◌, ◌++◌, ◌==◌,
  if◌then◌else◌, filter_map, map, truthy, includes,
}
use upload.Prelude.Sets.{unique}
use upload.Vault.Text.{drop_chars}
use upload.Config.Rows.{Association}
use upload.Config.Maps.{is_none, is_one_of, is_device}
use upload.Config.Associations.{named_devices, named_types, associations_of, require_map_project}
use upload.Config.Store.{
  Store, Env, ok, M, require_config_project, continue, ◌>>=◌, done, ask, ConfigProject,
}

pub record ConfigMapAffectedDevice : Type 0 where
  pub device_id : String
  pub association_type : String
  pub association_value : String

pub record ConfigMapForProject : Type 0 where
  pub association_id : ℕ
  pub config_map_project_id : ℕ
  pub config_map_project_name : String
  pub device_type_id : Option ℕ

module _ {S : Type 0} (env : Env S) (devices_of : List ℕ → List String) where
  abbrev pub by_type : ℕ → String → ConfigMapAffectedDevice
  by_type type device = record {
    device_id = device;
    association_type = "deviceType";
    association_value = env.print type;
  }

  -- One call of the service for each type.
  unfoldable pub affected_by_types : List ℕ → List ConfigMapAffectedDevice
  affected_by_types [] = []
  affected_by_types (type ∷ types) =
      map (by_type type) (devices_of (type ∷ [])) ++ affected_by_types types

  abbrev pub by_device : String → ConfigMapAffectedDevice
  by_device device = record {
    device_id = device;
    association_type = "deviceId";
    association_value = device;
  }

  unfoldable pub affected_devices : List Association → List ConfigMapAffectedDevice
  unfolding affected_by_types
  affected_devices rows = map by_device (named_devices rows) ++ affected_by_types (named_types rows)

  unfoldable pub get_config_map_affected_devices :
      Option ConfigProject → M S (List ConfigMapAffectedDevice)
  unfolding require_map_project associations_of affected_devices
  get_config_map_affected_devices found = do
    project ← require_map_project found
    rows ← ask (associations_of env project.id)
    done (affected_devices rows)

-- The device that a configuration project is named for.
abbrev pub device_of_name : String → Option String
device_of_name name = if starts_with name "config:" then some (drop_chars 7 name) else none

-- The alternatives of `where`.
abbrev pub applies_to : List ℕ → Option String → Association → Bool
applies_to types device a =
    (is_none a.device_type_id && is_none a.device_id && is_none a.config_project_id)
    || is_one_of types a.device_type_id
    || (elim device [ none ↦ false | some d ↦ truthy (some d) && is_device d a.device_id ])

-- The first association of each map, past the maps that were seen.
unfoldable pub first_of_each : List ℕ → List Association → List Association
first_of_each seen [] = []
first_of_each seen (a ∷ rows) = elim (includes seen a.config_map_project_id) [
  | true ↦ first_of_each seen rows
  | false ↦ a ∷ first_of_each (seen ++ a.config_map_project_id ∷ []) rows
]

-- `projectMap.get(id)?.name`, of the last project with the id.
unfoldable pub name_in : List ConfigProject → ℕ → Option String
name_in [] id = none
name_in (p ∷ projects) id = elim (name_in projects id) [
  | some name ↦ some name
  | none ↦ if p.id == id then some p.name else none
]

module _ {S : Type 0} (env : Env S) (types_of : String → List ℕ)
    (project_by_id : ℕ → Option ConfigProject) where
  abbrev pub types_of_device : Option String → List ℕ
  types_of_device none = []
  types_of_device (some device) = if truthy (some device) then types_of device else []

  unfoldable pub applicable_associations : Option String → Store S → List Association
  applicable_associations device s =
      env.orm.find (applies_to (types_of_device device) device) s.associations

  abbrev pub for_project : List ConfigProject → Association → ConfigMapForProject
  for_project projects a = record {
    association_id = a.id;
    config_map_project_id = a.config_map_project_id;
    config_map_project_name = elim (name_in projects a.config_map_project_id) [
      | none ↦ ""
      | some name ↦ name
    ];
    device_type_id = a.device_type_id;
  }

  -- The projects of `projectMap`.
  abbrev pub map_projects : List Association → List ConfigProject
  map_projects rows =
      filter_map project_by_id (unique (map (λ (a : Association). a.config_map_project_id) rows))

  unfoldable pub maps_of : List Association → List ConfigMapForProject
  unfolding first_of_each name_in
  maps_of rows = map (for_project (map_projects rows)) (first_of_each [] rows)

  unfoldable pub get_config_maps_for_project : Option ConfigProject → M S (List ConfigMapForProject)
  unfolding require_config_project applicable_associations maps_of
  get_config_maps_for_project found = do
    project ← require_config_project found
    rows ← ask (applicable_associations (device_of_name project.name))
    done (maps_of rows)
