-- ===== src/Config/Associations/Cascade.antt =====
-- What the cascade of apps/upload/src/config/config.service.ts does to the revisions.
use upload.Prelude.{ℕ, String, Option, none, some, List, [], ◌∷◌}
use upload.Config.Associations.{
  all_devices, named_devices, named_types, associations_of, refresh_device, refresh_devices,
  cascade_config_map_revision_to_devices, cascade_config_map_to_specific_devices, CascadeTo,
}
use upload.Config.Provision.Laws.{refresh-IsWell}
use upload.Config.Revisions.Invariant.{StoreIsWell, on_rows_env}
use upload.Config.Store.{Store, Env, ConfigProject}

module _ {S : Type 0} (env : Env S) (devices_of : List ℕ → List String)
    (project_of : String → Option ConfigProject) (types_of : String → List ℕ) (now : ℕ) where
  refresh_device-IsWell :
      (device : String) (found : Option ConfigProject) (s : Store S)
      → StoreIsWell s
      → StoreIsWell
          (refresh_device (on_rows_env env) devices_of project_of types_of now device found s).0
  unfolding refresh_device
  refresh_device-IsWell device none s w = w
  refresh_device-IsWell device (some project) s w =
      refresh-IsWell env project.id device (types_of device) now s w

  refresh_devices-IsWell :
      (devices : List String) (s : Store S)
      → StoreIsWell s
      → StoreIsWell
          (refresh_devices (on_rows_env env) devices_of project_of types_of now devices s).0
  unfolding refresh_devices
  refresh_devices-IsWell [] s w = w
  refresh_devices-IsWell (device ∷ devices) s w =
      refresh_devices-IsWell devices
        (refresh_device (on_rows_env env) devices_of project_of types_of now device
          (project_of device) s).0
        (refresh_device-IsWell device (project_of device) s w)

  pub cascade_all-IsWell :
      (project : ℕ) (s : Store S)
      → StoreIsWell s
      → StoreIsWell
          (cascade_config_map_revision_to_devices
            (on_rows_env env)
            devices_of
            project_of
            types_of
            now
            project
            s).0
  unfolding cascade_config_map_revision_to_devices
  cascade_all-IsWell project s w =
      let rows = associations_of (on_rows_env env) project s in
      refresh_devices-IsWell (all_devices devices_of (named_devices rows) (named_types rows)) s w

  pub cascade_new-IsWell :
      (job : CascadeTo) (s : Store S)
      → StoreIsWell s
      → StoreIsWell
          (cascade_config_map_to_specific_devices
            (on_rows_env env)
            devices_of
            project_of
            types_of
            now
            job
            s).0
  unfolding cascade_config_map_to_specific_devices
  cascade_new-IsWell job s w =
      refresh_devices-IsWell (all_devices devices_of job.new_device_ids job.new_device_type_ids) s w
