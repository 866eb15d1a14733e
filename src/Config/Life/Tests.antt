-- ===== src/Config/Life/Tests.antt =====
-- Runs of the service on the sample tables.
use upload.Prelude.{ℕ_eq, none, some, List, [], ◌∷◌, ◌≡◌, refl, arith}
use upload.Vault.Text.{drop_chars}
use upload.Config.Json.{keys, lookup}
use upload.Config.Yaml.{parse_yaml}
use upload.Config.Version.{set_group, get_group}
use upload.Storage.Orm.{list_orm-IsSql}
use upload.Config.Rows.{active}
use upload.Config.Store.{ok, with_status}
use upload.Config.Revisions.{apply_revision, update_release, cache_config}
use upload.Config.Revisions.Counts.{count}
use upload.Config.Revisions.Invariant.{StoreIsWell}
use upload.Config.Associations.{CascadeTo}
use upload.Config.Provision.{auto_publish_initial_revision}
use upload.Config.Provision.First.{auto_publish-active}
use upload.Config.Samples.{env, store, device_project, draft_2, v1}
use upload.Config.Life.{
  Operation, Devices, apply, refresh, cascade_new, create, discard, run_all, run_all-IsWell,
}

store-IsWell : StoreIsWell store
store-IsWell = record {
  one_draft = λ p. ground arith;
  one_active = λ p. ground arith;
  own_id = λ i. ground arith;
  fresh = λ i h. ground arith;
}

abbrev devices : Devices
devices = record {
  of_types = λ types. [];
  project_of = λ device. some device_project;
  types_of = λ device. [];
}

abbrev job : CascadeTo
job = record { config_map_project_id = 7; new_device_type_ids = []; new_device_ids = "tablet" ∷ [] }

abbrev operations : List Operation
operations =
    apply (some device_project) none 20
    ∷ create (some device_project)
    ∷ discard (some device_project)
    ∷ refresh 5 "tablet" [] 30
    ∷ cascade_new devices job 40
    ∷ []

run_all-IsWell_example : StoreIsWell (run_all env operations store)
run_all-IsWell_example = run_all-IsWell env operations store list_orm-IsSql store-IsWell

-- A level that is changed raises the minor number.
apply_revision_run :
    (apply_revision env (some device_project) none 20 store).1
    ≡ ok (
      record draft_2 {
        status = active;
        applied_at = some 20;
        sem_ver = some (record v1 { minor = 1 });
      },
      update_release 5 (record v1 { minor = 1 })
          ∷ cache_config "tablet" (record v1 { minor = 1 })
          ∷ [],
    )
unfolding apply_revision set_group drop_chars get_group keys parse_yaml lookup
apply_revision_run = refl

auto_publish-active_example :
    count
      (with_status 5 active)
      (auto_publish_initial_revision env 5 "tablet" [] 20 store).0.revisions
    ≡ 2
unfolding auto_publish_initial_revision
auto_publish-active_example =
    auto_publish-active env 5 "tablet" [] 20 store draft_2
      (update_release 5 v1 ∷ cache_config "tablet" v1 ∷ []) list_orm-IsSql store-IsWell refl refl
