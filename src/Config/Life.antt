-- ===== src/Config/Life.antt =====
-- The operations of apps/upload/src/config/config.service.ts on the revisions of a project, in any
-- order.
mod Tests
use upload.Prelude.{ℕ, String, Option, List, [], ◌∷◌}
use upload.Storage.Orm.{IsSql, by_rows}
use upload.Config.Associations.{
  CascadeTo, cascade_config_map_revision_to_devices, cascade_config_map_to_specific_devices,
}
use upload.Config.Associations.Cascade.{cascade_all-IsWell, cascade_new-IsWell}
use upload.Config.Groups.{UpsertConfigGroup, upsert_group, upsert_in, delete_group, delete_in}
use upload.Config.Groups.Laws.{upsert_in-Spares, delete_in-Spares}
use upload.Config.Provision.{refresh_config_project_revision}
use upload.Config.Provision.Laws.{refresh-IsWell}
use upload.Config.Revisions.{apply_revision, create_draft_revision, delete_draft_revision}
use upload.Config.Revisions.Invariant.{StoreIsWell, on_rows_env, get_or_create-IsDraft}
use upload.Config.Revisions.Keeps.{
  require-IsWell, Untouched-IsWell, after_draft-IsWell, apply-IsWell, create_draft-IsWell,
  delete_draft-IsWell,
}
use upload.Config.Store.{Store, Env, ConfigProject, get_or_create_draft_revision}

-- What the service for devices and projects answers: the devices of types, the project of a device,
-- and the types of a device.
pub record Devices : Type 0 where
  pub of_types : List ℕ → List String
  pub project_of : String → Option ConfigProject
  pub types_of : String → List ℕ

-- A call of the service, with the project that is found for it; `refresh` is what a change of a
-- configuration map does to the project of a device.
pub data Operation : Type 0 where
  upsert : Option ConfigProject → UpsertConfigGroup → Operation
  delete_one : Option ConfigProject → String → Operation
  apply : Option ConfigProject → Option String → ℕ → Operation
  create : Option ConfigProject → Operation
  discard : Option ConfigProject → Operation
  refresh : ℕ → String → List ℕ → ℕ → Operation
  cascade_all : Devices → ℕ → ℕ → Operation
  cascade_new : Devices → CascadeTo → ℕ → Operation

module _ {S : Type 0} (env : Env S) where
  -- The tables after a call, whether it throws or not.
  unfoldable pub run : Operation → Store S → Store S
  run (upsert found dto) s = (upsert_group env found dto s).0
  run (delete_one found name) s = (delete_group env found name s).0
  run (apply found applied_by now) s = (apply_revision env found applied_by now s).0
  run (create found) s = (create_draft_revision env found s).0
  run (discard found) s = (delete_draft_revision env found s).0
  run (refresh project device_id device_type_ids now) s =
      (refresh_config_project_revision env project device_id device_type_ids now s).0
  run (cascade_all d project now) s =
      (cascade_config_map_revision_to_devices env d.of_types d.project_of d.types_of now project
        s).0
  run (cascade_new d job now) s =
      (cascade_config_map_to_specific_devices env d.of_types d.project_of d.types_of now job s).0

  unfoldable pub run_all : List Operation → Store S → Store S
  unfolding run
  run_all [] s = s
  run_all (op ∷ ops) s = run_all ops (run op s)

module _ {S : Type 0} (env : Env S) where
  upsert-IsWell :
      (found : Option ConfigProject) (dto : UpsertConfigGroup) (s : Store S)
      → StoreIsWell s
      → StoreIsWell (upsert_group (on_rows_env env) found dto s).0
  unfolding upsert_group
  upsert-IsWell found dto s w = require-IsWell found s _ w λ project.
      after_draft-IsWell env project.id
        (get_or_create_draft_revision (on_rows_env env) project.id s)
        (upsert_in (on_rows_env env) dto) (get_or_create-IsDraft env project.id s w)
        (λ d t h. Untouched-IsWell t _ (upsert_in-Spares (on_rows_env env) dto d t) h.well)

  delete_group-IsWell :
      (found : Option ConfigProject) (name : String) (s : Store S)
      → StoreIsWell s
      → StoreIsWell (delete_group (on_rows_env env) found name s).0
  unfolding delete_group
  delete_group-IsWell found name s w = require-IsWell found s _ w λ project.
      after_draft-IsWell env project.id
        (get_or_create_draft_revision (on_rows_env env) project.id s)
        (delete_in (on_rows_env env) name) (get_or_create-IsDraft env project.id s w)
        (λ d t h. Untouched-IsWell t _ (delete_in-Spares (on_rows_env env) name d t) h.well)

  run-IsWell :
      (op : Operation) (s : Store S) → StoreIsWell s → StoreIsWell (run (on_rows_env env) op s)
  unfolding run
  run-IsWell (upsert found dto) s w = upsert-IsWell found dto s w
  run-IsWell (delete_one found name) s w = delete_group-IsWell found name s w
  run-IsWell (apply found applied_by now) s w = apply-IsWell env found applied_by now s w
  run-IsWell (create found) s w = create_draft-IsWell env found s w
  run-IsWell (discard found) s w = delete_draft-IsWell env found s w
  run-IsWell (refresh project device_id device_type_ids now) s w =
      refresh-IsWell env project device_id device_type_ids now s w
  run-IsWell (cascade_all d project now) s w =
      cascade_all-IsWell env d.of_types d.project_of d.types_of now project s w
  run-IsWell (cascade_new d job now) s w =
      cascade_new-IsWell env d.of_types d.project_of d.types_of now job s w

  run_all-IsWell_rows :
      (ops : List Operation) (s : Store S)
      → StoreIsWell s
      → StoreIsWell (run_all (on_rows_env env) ops s)
  unfolding run_all
  run_all-IsWell_rows [] s w = w
  run_all-IsWell_rows (op ∷ ops) s w =
      run_all-IsWell_rows ops (run (on_rows_env env) op s) (run-IsWell op s w)

-- From tables in which every project has at most one draft and one active revision and the keys of
-- the revisions are distinct and below the next one, any sequence of upserts and deletions of
-- groups, of new, applied and discarded drafts, of refreshes, and of cascades of a configuration
-- map to its devices or to new ones, those that throw included, leads to such tables.
pub run_all-IsWell :
    {S : Type 0} (env : Env S) (ops : List Operation) (s : Store S)
    → IsSql env.orm
    → StoreIsWell s
    → StoreIsWell (run_all env ops s)
run_all-IsWell env ops s sql w =
    by_rows (λ orm. StoreIsWell (run_all (record env { orm = orm }) ops s)) env.orm sql
      (run_all-IsWell_rows env ops s w)
