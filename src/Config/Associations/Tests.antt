-- ===== src/Config/Associations/Tests.antt =====
-- Associations of a configuration map, on the sample tables.
use upload.Prelude.{ℕ_eq, true, false, some, none, List, String, [], ◌∷◌, ◌≡◌, refl, all, any}
use upload.Storage.Orm.{list_orm-IsSql}
use upload.Config.Rows.{Association}
use upload.Config.Samples.{env, store}
use upload.Config.Store.{ok, bad_request, not_found, config_map, ConfigProject}
use upload.Config.Associations.{
  for_device, add_devices, add_config_map_association, remove_config_map_association,
  AddConfigMapAssociation,
}
use upload.Config.Associations.Laws.{add_devices-once}

abbrev two_devices : List String
two_devices = "tablet" ∷ "phone" ∷ []

abbrev a_map : ConfigProject
a_map = record { id = 7; name = "base"; project_type = config_map }

abbrev dto : AddConfigMapAssociation
dto = record { names_project = true; device_type_id = none; device_ids = "tablet" ∷ "tablet" ∷ [] }

abbrev tablet : Association
tablet = record {
  id = 1;
  config_map_project_id = 7;
  device_type_id = none;
  device_id = some "tablet";
  config_project_id = none;
}

add_devices-once_example :
    (all two_devices
        (λ device. any (add_devices env 7 two_devices store).0.associations (for_device 7 device))
      ≡ true)
    × ((add_devices env 7 two_devices (add_devices env 7 two_devices store).0).0
        ≡ (add_devices env 7 two_devices store).0)
add_devices-once_example = add_devices-once env list_orm-IsSql 7 two_devices store

-- A device that is named twice has one association, which is answered twice.
add_run :
    (add_config_map_association env (some a_map) (λ type. false) dto store).1
    ≡ ok (tablet ∷ tablet ∷ [], none)
unfolding add_config_map_association
add_run = refl

no_target_run :
    (add_config_map_association env
      (some a_map)
      (λ type. false)
      (record dto { device_ids = [] })
      store).1
    ≡ bad_request
unfolding add_config_map_association
no_target_run = refl

unknown_type_run :
    (add_config_map_association env
      (some a_map)
      (λ type. false)
      (record dto { device_type_id = some 3 })
      store).1
    ≡ not_found
unfolding add_config_map_association
unknown_type_run = refl

remove_run : (remove_config_map_association env 1 store).1 ≡ not_found
unfolding remove_config_map_association
remove_run = refl
