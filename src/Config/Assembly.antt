-- ===== src/Config/Assembly.antt =====
-- The configuration that a device gets, in apps/upload/src/config/config.service.ts:
-- `collectGlobals`, `buildDeviceConfigPayload`, `getDeviceConfig` and `getDeviceConfigByVersion`,
-- with the cache of config-cache.service.ts. The time of the computation is left out.
pub mod Merge
use upload.Prelude.{
  ℕ, ℕ_eq, String, String_eq, Bool, true, false, not, ◌&&◌, Option, none, some, List, [], ◌∷◌, ◌==◌,
  if◌then◌else◌, head?, map, option_beq,
}
use upload.Prelude.Sets.{add_all}
use upload.Config.Json.{Value, null, Fields, empty, field, assign_all, is_present}
use upload.Config.Rows.{active, Version, Revision, Group}
use upload.Config.Version.{GroupMap, get_group, set_group}
use upload.Config.Secrets.{resolve_group_yaml}
use upload.Config.Groups.{or_value}
use upload.Config.Revisions.{groups_of_found, sem_ver_of}
use upload.Config.Maps.{applicable_revisions}
use upload.Config.Store.{
  Store, Env, Answer, ok, not_found, failed, ConfigProject, find_revision, groups_of,
}

pub record DeviceConfig : Type 0 where
  pub device_id : String
  pub config_revision_id : Option ℕ
  pub sem_ver : Option Version
  pub groups : GroupMap

-- The object storage behind `ConfigCacheService`, in a state `C`: nothing is got, or stored, where
-- the storage fails.
pub record CacheStorage (C : Type 0) : Type 0 where
  pub get_by_version : C → String → Version → Option DeviceConfig
  pub set_by_version : C → String → Version → DeviceConfig → C

unfoldable pub is_version : Version → Option Version → Bool
is_version version none = false
is_version version (some v) =
    v.major == version.major && v.minor == version.minor && v.patch == version.patch

-- `for (const key of Object.keys(merged)) if (merged[key] == null) delete merged[key]`
unfoldable pub drop_nulls : Fields → Fields
drop_nulls empty = empty
drop_nulls (field k v fields) =
    let rest = drop_nulls fields in if is_present (some v) then field k v rest else rest

-- `{ ...globals, ...configMapGroup, ...deviceGroup }` without its nulls.
unfoldable pub merged_group : Fields → Fields → Fields → Fields
unfolding drop_nulls
merged_group globals of_maps of_device =
    drop_nulls (assign_all (assign_all (assign_all empty globals) of_maps) of_device)

-- `groups[name] ?? {}`
abbrev pub group_or_empty : String → GroupMap → Fields
group_or_empty name groups = or_value (get_group name groups) empty

unfoldable pub merge_names : Fields → GroupMap → GroupMap → List String → GroupMap → GroupMap
unfolding merged_group
merge_names globals of_maps of_device [] merged = merged
merge_names globals of_maps of_device (name ∷ names) merged =
    merge_names globals of_maps of_device names (
      set_group name
        (merged_group globals (group_or_empty name of_maps) (group_or_empty name of_device)) merged)

abbrev pub names_of : GroupMap → List String
names_of groups = map (λ entry. entry.0) groups

-- The loop over `new Set([...Object.keys(configMapGroups), ...Object.keys(deviceGroups)])`.
unfoldable pub merge_by_name : Fields → GroupMap → GroupMap → GroupMap
unfolding merge_names
merge_by_name globals of_maps of_device =
    merge_names globals of_maps of_device
      (add_all (names_of of_device) (add_all (names_of of_maps) [])) []

abbrev pub id_of : Option Revision → Option ℕ
id_of none = none
id_of (some r) = some r.id

module _ {S : Type 0} (env : Env S) where
  unfoldable pub collect_from : S → List Group → Fields → Fields
  collect_from s [] result = result
  collect_from s (g ∷ groups) result =
      collect_from s groups
        (if g.is_global then assign_all result (resolve_group_yaml env s g empty) else result)

  unfoldable pub collect_globals : S → List Group → Fields
  unfolding collect_from
  collect_globals s groups = collect_from s groups empty

  -- The groups of one active revision of a map, over those of the maps before it.
  unfoldable pub add_map_groups : S → List Group → GroupMap → GroupMap
  add_map_groups s [] result = result
  add_map_groups s (g ∷ groups) result = add_map_groups s groups (
      if g.is_global
      then result
      else set_group g.name
          (assign_all (assign_all empty (group_or_empty g.name result))
            (resolve_group_yaml env s g empty))
          result)

  unfoldable pub add_maps : Store S → List Revision → GroupMap × Fields → GroupMap × Fields
  unfolding add_map_groups collect_globals
  add_maps s [] result = result
  add_maps s (r ∷ rows) (groups, globals) =
      let of_row = groups_of env r.id s in
      add_maps s rows (
        add_map_groups s.secrets of_row groups,
        assign_all globals (collect_globals s.secrets of_row),
      )

  unfoldable pub device_groups : S → List Group → GroupMap → GroupMap
  device_groups s [] result = result
  device_groups s (g ∷ groups) result =
      device_groups s groups
        (if g.is_global then result else set_group g.name (resolve_group_yaml env s g empty) result)

  -- The active revision of the device's project, if it has one.
  unfoldable pub active_of : Option ConfigProject → Store S → Option Revision
  unfolding find_revision
  active_of none s = none
  active_of (some project) s = find_revision env project.id active s

  -- With the CONFIG project `config:<device>` and the types of the device, as they are found.
  unfoldable pub build_device_config_payload :
      String → Option ConfigProject → List ℕ → Store S → DeviceConfig
  unfolding applicable_revisions add_maps active_of collect_globals device_groups merge_by_name
      groups_of_found
  build_device_config_payload device_id project device_type_ids s =
      let (of_maps, map_globals) =
        add_maps s (applicable_revisions env device_type_ids device_id s) ([], empty) in
      let revision = active_of project s in
      let groups = groups_of_found env revision s in
      let globals = assign_all (assign_all empty map_globals) (collect_globals s.secrets groups) in
      record {
        device_id = device_id;
        config_revision_id = id_of revision;
        sem_ver = sem_ver_of revision;
        groups = merge_by_name globals of_maps (device_groups s.secrets groups []);
      }

  -- `findOne({ where: { projectId, semVer } })`
  unfoldable pub find_version : ℕ → Version → Store S → Option Revision
  find_version project version s =
      head?
        (env.orm.find (λ r. r.project_id == project && is_version version r.sem_ver) s.revisions)

  -- The groups of a revision over its globals, without nulls.
  unfoldable pub groups_with_globals : S → Fields → List Group → GroupMap → GroupMap
  unfolding drop_nulls
  groups_with_globals s globals [] result = result
  groups_with_globals s globals (g ∷ groups) result = groups_with_globals s globals groups (
      if g.is_global
      then result
      else set_group g.name (drop_nulls (resolve_group_yaml env s g globals)) result)

  unfoldable pub version_payload : String → Revision → Store S → DeviceConfig
  unfolding collect_globals groups_with_globals groups_of
  version_payload device_id revision s =
      let groups = groups_of env revision.id s in
      record {
        device_id = device_id;
        config_revision_id = some revision.id;
        sem_ver = revision.sem_ver;
        groups = groups_with_globals s.secrets (collect_globals s.secrets groups) groups [];
      }

  module _ {C : Type 0} (storage : CacheStorage C) where
    unfoldable pub get_device_config :
        String → Option ConfigProject → List ℕ → Store S → C → C × DeviceConfig
    unfolding active_of build_device_config_payload
    get_device_config device_id project device_type_ids s c =
        let assembled = build_device_config_payload device_id project device_type_ids s in
        elim (sem_ver_of (active_of project s)) [
          | none ↦ (c, assembled)
          | some version ↦ elim (storage.get_by_version c device_id version) [
            | some cached ↦ (c, cached)
            | none ↦ (storage.set_by_version c device_id version assembled, assembled)
          ]
        ]

    -- The rest of `getDeviceConfigByVersion`, where nothing is cached.
    unfoldable pub compute_version :
        String → Version → Option ConfigProject → Store S → C → C × Answer DeviceConfig
    unfolding find_version version_payload
    compute_version device_id version none s c = (c, not_found)
    compute_version device_id version (some project) s c =
        elim (find_version project.id version s) [
          | none ↦ (c, not_found)
          | some revision ↦
              let payload = version_payload device_id revision s in
              (storage.set_by_version c device_id version payload, ok payload)
        ]

    unfoldable pub get_device_config_by_version :
        String → Version → Option ConfigProject → Store S → C → C × Answer DeviceConfig
    unfolding compute_version
    get_device_config_by_version device_id version project s c =
        elim (storage.get_by_version c device_id version) [
          | some cached ↦ (c, ok cached)
          | none ↦ compute_version device_id version project s c
        ]
