-- ===== src/Config/Associations/Queries/Laws.antt =====
-- The lists about associations agree with what the cascade does and with the associations.
use mathlib.Core.List.{append_assoc, append-nil}
use upload.Prelude.{
  ℕ, ℕ_eq, String, String_eq, Bool, true, false, Option, some, List, [], ◌∷◌, ◌++◌, ◌≡◌, refl, sym,
  ap, ◌∙◌, any, map, includes, Bool-cases, inl, inr, any-map, length, ◌≤◌, arith,
}
use upload.Prelude.Sets.{any-append, any-add_all, any-unique, unique, add_all, add}
use upload.Config.Rows.{Association}
use upload.Config.Store.{Store, Env, ok, config, config_map, require_config_project, ConfigProject}
use upload.Config.Associations.{
  devices_of_types, named_devices, named_types, associations_of, all_devices, require_map_project,
  refresh_devices, cascade_config_map_revision_to_devices,
}
use upload.Config.Associations.Queries.{
  affected_devices, affected_by_types, get_config_map_affected_devices, first_of_each,
  ConfigMapForProject, for_project, maps_of, map_projects, applicable_associations, device_of_name,
  get_config_maps_for_project, by_type, by_device,
}

module _ {S : Type 0} (env : Env S) (devices_of : List ℕ → List String) (p : String → Bool) where
  any-by_types :
      (types : List ℕ)
      → any (affected_by_types env devices_of types) (λ r. p r.device_id)
        ≡ any types (λ type. any (devices_of (type ∷ [])) p)
  unfolding affected_by_types
  any-by_types [] = refl
  any-by_types (type ∷ types) =
      any-append (map _ (devices_of (type ∷ []))) (affected_by_types env devices_of types) _
      ∙ rw
          (
            any-by_types types,
            any-map (by_type env devices_of type) (λ r. p r.device_id) (devices_of (type ∷ [])),
          )
          refl

  any-one_type :
      (types : List ℕ)
      → length types ≤ 1
      → any (devices_of_types devices_of types) p
        ≡ any types (λ type. any (devices_of (type ∷ [])) p)
  any-one_type [] h = refl
  any-one_type (type ∷ []) h = ground arith
  any-one_type (type ∷ other ∷ types) h = absurd (omega arith)

  affected-cascade :
      (rows : List Association)
      → length (named_types rows) ≤ 1
      → any (affected_devices env devices_of rows) (λ r. p r.device_id)
        ≡ any (all_devices devices_of (named_devices rows) (named_types rows)) p
  unfolding affected_devices
  affected-cascade rows one =
      rw
        (
          any-append (map (by_device env devices_of) (named_devices rows))
              (affected_by_types env devices_of (named_types rows)) (λ r. p r.device_id),
          any-map (by_device env devices_of) (λ r. p r.device_id) (named_devices rows),
          any-by_types (named_types rows),
          any-add_all (devices_of_types devices_of (named_types rows)) (unique (named_devices rows))
              p,
          any-unique (named_devices rows) p,
          any-one_type (named_types rows) one,
        )
        refl

-- For a configuration map that is associated with at most one type of devices and any number of
-- devices: the list of its affected devices is answered, the tables stay as they are, and the cascade
-- of the map refreshes one after the other devices that are those of the list: a test passes some of
-- them exactly where it passes some device of the list.
pub affected_devices-cascade :
    {S : Type 0} (env : Env S) (devices_of : List ℕ → List String)
    (project_of : String → Option ConfigProject) (types_of : String → List ℕ) (now : ℕ)
    (project : ConfigProject) (s : Store S)
    → project.project_type ≡ config_map
    → length (named_types (associations_of env project.id s)) ≤ 1
    → (get_config_map_affected_devices env devices_of (some project) s
        ≡ (s, ok (affected_devices env devices_of (associations_of env project.id s))))
      × ((devices : List String) × (cascade_config_map_revision_to_devices env devices_of project_of
              types_of now project.id s
            ≡ refresh_devices env devices_of project_of types_of now devices s)
          × ((p : String → Bool)
              → any
                  (affected_devices env devices_of (associations_of env project.id s))
                  (λ r. p r.device_id)
                ≡ any devices p))
unfolding get_config_map_affected_devices require_map_project cascade_config_map_revision_to_devices
affected_devices-cascade env devices_of project_of types_of now project s is_map one =
    let rows = associations_of env project.id s in
    (
      rw is_map refl,
      (
        all_devices devices_of (named_devices rows) (named_types rows),
        refl,
        λ p. affected-cascade env devices_of p rows one,
      ),
    )

add-seen : (x : ℕ) (set : List ℕ) → includes set x ≡ true → add x set ≡ set
add-seen x set h = rw h refl

add-new : (x : ℕ) (set : List ℕ) → includes set x ≡ false → add x set ≡ set ++ x ∷ []
add-new x set h = rw h refl

abbrev pub map_id : Association → ℕ
map_id a = a.config_map_project_id

cons-seen :
    (seen : List ℕ) (a : Association) (rows : List Association)
    → includes seen (map_id a) ≡ true
    → first_of_each seen (a ∷ rows) ≡ first_of_each seen rows
unfolding first_of_each
cons-seen seen a rows h = rw (first_of_each, h) refl

cons-new :
    (seen : List ℕ) (a : Association) (rows : List Association)
    → includes seen (map_id a) ≡ false
    → first_of_each seen (a ∷ rows) ≡ a ∷ first_of_each (seen ++ map_id a ∷ []) rows
unfolding first_of_each
cons-new seen a rows h = rw (first_of_each, h) refl

-- The maps of the list, after those that were seen, are the maps of the associations, each once.
first_of_each-seen :
    (seen : List ℕ) (rows : List Association)
    → seen ++ map map_id (first_of_each seen rows) ≡ add_all (map map_id rows) seen
unfolding first_of_each
first_of_each-seen seen [] = append-nil seen
first_of_each-seen seen (a ∷ rows) = elim (Bool-cases (includes seen (map_id a))) [
  | inl known ↦
      ap (λ r. seen ++ map map_id r) (cons-seen seen a rows known)
      ∙ first_of_each-seen seen rows
      ∙ ap (add_all (map map_id rows)) (sym (add-seen (map_id a) seen known))
  | inr new ↦
      ap (λ r. seen ++ map map_id r) (cons-new seen a rows new)
      ∙ sym (
          append_assoc seen (map_id a ∷ [])
            (map map_id (first_of_each (seen ++ map_id a ∷ []) rows)))
      ∙ first_of_each-seen (seen ++ map_id a ∷ []) rows
      ∙ ap (add_all (map map_id rows)) (sym (add-new (map_id a) seen new))
]

module _ {S : Type 0} (env : Env S) (types_of : String → List ℕ)
    (project_by_id : ℕ → Option ConfigProject) where
  ids-for_project :
      (projects : List ConfigProject) (rows : List Association)
      → map
          (λ (r : ConfigMapForProject). r.config_map_project_id)
          (map (for_project env types_of project_by_id projects) rows)
        ≡ map map_id rows
  ids-for_project projects [] = refl
  ids-for_project projects (a ∷ rows) = ap (λ ids. map_id a ∷ ids) (ids-for_project projects rows)

  -- For a configuration project: the list of its maps is answered, the tables stay as they are,
  -- and the maps of the list are those of the associations that apply to its device, each once, in
  -- the order of their first associations.
  get_config_maps-unique :
      (project : ConfigProject) (s : Store S)
      → project.project_type ≡ config
      → (get_config_maps_for_project env types_of project_by_id (some project) s ≡ (
        s,
        ok (
            maps_of env types_of project_by_id
              (applicable_associations env types_of project_by_id (device_of_name project.name) s)),
      ))
        × (map
              (λ (r : ConfigMapForProject). r.config_map_project_id)
              (maps_of env types_of project_by_id (
                applicable_associations env types_of project_by_id (device_of_name project.name) s))
            ≡ unique (
                map map_id (
                  applicable_associations env types_of project_by_id
                    (device_of_name project.name)
                    s)))
  unfolding get_config_maps_for_project require_config_project maps_of
  get_config_maps-unique project s is_config =
      let rows =
        applicable_associations env types_of project_by_id (device_of_name project.name) s in
      (
        rw is_config refl,
        ids-for_project (map_projects env types_of project_by_id rows) (first_of_each [] rows)
            ∙ first_of_each-seen [] rows,
      )
