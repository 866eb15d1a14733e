-- ===== src/Config/Associations.antt =====
-- Which devices a configuration map applies to, in apps/upload/src/config/config.service.ts: the
-- associations, and the cascade of a map's changes to the projects of its devices. What the
-- services for devices and projects answer is a parameter: the devices of types, [] where the call
-- fails, and the CONFIG project of a device. An association is answered as its row.
pub mod Cascade
pub mod Laws
pub mod Queries
mod Tests
use upload.Prelude.{
  ℕ, ℕ_eq, suc, String, String_eq, Bool, true, false, not, ◌&&◌, ◌||◌, Option, none, some, List, [],
  ◌∷◌, ◌++◌, ◌==◌, if◌then◌else◌, option_beq, filter_map, map, truthy, includes, head?,
}
use upload.Prelude.Sets.{unique, add_all}
use upload.Config.Rows.{active, Revision, Association}
use upload.Config.Groups.{has_none}
use upload.Config.Maps.{applies, is_none}
use upload.Config.Provision.{refresh_config_project_revision}
use upload.Config.Revisions.{FollowUp}
use upload.Config.Store.{
  Store, Env, Answer, ok, not_found, bad_request, failed, M, continue, ◌>>=◌, ◌>>◌, done, fail, ask,
  change, ProjectType, product, config, config_map, ConfigProject, find_revision,
}

-- `requireProject` with the project that is found and the type CONFIG_MAP.
unfoldable pub require_map_project : {S : Type 0} → Option ConfigProject → M S ConfigProject
require_map_project none = fail not_found
require_map_project (some project) = elim project.project_type [
  | product ↦ fail bad_request
  | config ↦ fail bad_request
  | config_map ↦ done project
]

pub record AddConfigMapAssociation : Type 0 where
  pub names_project : Bool
  pub device_type_id : Option ℕ
  pub device_ids : List String

-- A cascade that is started and not awaited: the new types and devices of a map.
pub record CascadeTo : Type 0 where
  pub config_map_project_id : ℕ
  pub new_device_type_ids : List ℕ
  pub new_device_ids : List String

abbrev pub for_type : ℕ → ℕ → Association → Bool
for_type project type a =
    a.config_map_project_id == project && option_beq a.device_type_id (some type)

abbrev pub for_device : ℕ → String → Association → Bool
for_device project device a =
    a.config_map_project_id == project && option_beq a.device_id (some device)

-- The devices that are named, and the types, each once.
abbrev pub named_devices : List Association → List String
named_devices rows =
    filter_map (λ (a : Association). if truthy a.device_id then a.device_id else none) rows

abbrev pub named_types : List Association → List ℕ
named_types rows = unique (filter_map (λ (a : Association). a.device_type_id) rows)

module _ (devices_of : List ℕ → List String) where
  abbrev pub devices_of_types : List ℕ → List String
  devices_of_types types = if has_none types then [] else devices_of types

  -- `deviceIdSet`: the devices and those of the types, each once.
  abbrev pub all_devices : List String → List ℕ → List String
  all_devices devices types = add_all (devices_of_types types) (unique devices)

module _ {S : Type 0} (env : Env S) where
  unfoldable pub insert_association : ℕ → Option ℕ → Option String → M S Association
  insert_association project type device s =
      let row : Association = record {
        id = s.next_association;
        config_map_project_id = project;
        device_type_id = type;
        device_id = device;
        config_project_id = none;
      } in
      (
        record s {
          associations = env.orm.insert row s.associations;
          next_association = suc s.next_association;
        },
        ok row,
      )

  -- The association of a type, and the type where it is new.
  unfoldable pub add_type : ℕ → Option ℕ → M S (List Association × List ℕ)
  unfolding insert_association
  add_type project none = done ([], [])
  add_type project (some type) = do
    existing ← ask (λ s. head? (env.orm.find (for_type project type) s.associations))
    elim existing [
      | some row ↦ done (row ∷ [], [])
      | none ↦ do row ← insert_association project (some type) none; done (row ∷ [], type ∷ [])
    ]

  unfoldable pub add_device : ℕ → String → M S (Association × List String)
  unfolding insert_association
  add_device project device = do
    existing ← ask (λ s. head? (env.orm.find (for_device project device) s.associations))
    elim existing [
      | some row ↦ done (row, [])
      | none ↦ do row ← insert_association project none (some device); done (row, device ∷ [])
    ]

  unfoldable pub add_devices : ℕ → List String → M S (List Association × List String)
  unfolding add_device
  add_devices project [] = done ([], [])
  add_devices project (device ∷ devices) = do
    first ← add_device project device
    rest ← add_devices project devices
    done (first.0 ∷ rest.0, first.1 ++ rest.1)

  -- The cascade to what is new, where the map has an active revision.
  unfoldable pub start_cascade : ℕ → List ℕ → List String → Store S → Option CascadeTo
  unfolding find_revision
  start_cascade project types devices s =
      if has_none types && has_none devices
      then none
      else elim (find_revision env project active s) [
        | none ↦ none
        | some revision ↦ some (record {
          config_map_project_id = project;
          new_device_type_ids = types;
          new_device_ids = devices;
        })
      ]

  -- Both kinds of associations of a project.
  unfoldable pub add_both : ℕ → AddConfigMapAssociation → M S (List Association × Option CascadeTo)
  unfolding add_type add_devices start_cascade
  add_both project dto = do
    types ← add_type project dto.device_type_id
    devices ← add_devices project dto.device_ids
    cascade ← ask (start_cascade project types.1 devices.1)
    done (types.0 ++ devices.0, cascade)

  -- `type_exists` is whether the service for devices knows the type.
  unfoldable pub add_config_map_association :
      Option ConfigProject
      → (ℕ → Bool)
      → AddConfigMapAssociation
      → M S (List Association × Option CascadeTo)
  unfolding require_map_project add_both
  add_config_map_association found type_exists dto =
      if not dto.names_project
      then fail bad_request
      else if is_none dto.device_type_id && has_none dto.device_ids
      then fail bad_request
      else require_map_project found >>= λ project. elim dto.device_type_id [
        | none ↦ add_both project.id dto
        | some type ↦ if type_exists type then add_both project.id dto else fail not_found
      ]

  unfoldable pub remove_config_map_association : ℕ → M S Bool
  remove_config_map_association id = do
    existing ← ask (λ s. head? (env.orm.find (λ (a : Association). a.id == id) s.associations))
    elim existing [
      | none ↦ fail not_found
      | some row ↦
          change (λ s. record s {
            associations = env.orm.delete (λ (a : Association). a.id == row.id) s.associations;
          })
          >> done true
    ]

  -- The associations of a map that are no direct links.
  unfoldable pub associations_of : ℕ → Store S → List Association
  associations_of project s =
      env.orm.find (λ a. a.config_map_project_id == project && is_none a.config_project_id)
        s.associations

  unfoldable pub get_config_map_associations : Option ConfigProject → M S (List Association)
  unfolding require_map_project associations_of
  get_config_map_associations found = do
    project ← require_map_project found
    ask (associations_of project.id)

  module _ (devices_of : List ℕ → List String) (project_of : String → Option ConfigProject)
      (types_of : String → List ℕ) (now : ℕ) where
    -- A refresh that throws is logged; what follows it is not done.
    unfoldable pub refresh_device :
        String → Option ConfigProject → Store S → Store S × List FollowUp
    unfolding refresh_config_project_revision
    refresh_device device none s = (s, [])
    refresh_device device (some project) s =
        let refreshed =
          refresh_config_project_revision env project.id device (types_of device) now s in
        (
          refreshed.0,
          elim refreshed.1 [ ok jobs ↦ jobs | not_found ↦ [] | bad_request ↦ [] | failed ↦ [] ],
        )

    unfoldable pub refresh_devices : List String → Store S → Store S × List FollowUp
    unfolding refresh_device
    refresh_devices [] s = (s, [])
    refresh_devices (device ∷ devices) s =
        let first = refresh_device device (project_of device) s in
        let rest = refresh_devices devices first.0 in (rest.0, first.1 ++ rest.1)

    unfoldable pub cascade_config_map_revision_to_devices : ℕ → Store S → Store S × List FollowUp
    unfolding associations_of refresh_devices
    cascade_config_map_revision_to_devices project s =
        let rows = associations_of project s in
        refresh_devices (all_devices devices_of (named_devices rows) (named_types rows)) s

    unfoldable pub cascade_config_map_to_specific_devices :
        CascadeTo → Store S → Store S × List FollowUp
    unfolding refresh_devices
    cascade_config_map_to_specific_devices job s =
        refresh_devices (all_devices devices_of job.new_device_ids job.new_device_type_ids) s
