-- ===== src/Rules/Links.antt =====
-- `createAssociations` and `updateAssociations` of libs/common/src/rules/services/rule.service.ts:
-- the links of a rule. The table of releases is the one of the uploads.
use Prim.Native.String
use upload.Prelude.{
  ℕ, ℕ_eq, String, String_eq, Bool, true, false, ◌&&◌, Option, none, some, List, [], ◌∷◌, ◌==◌,
  if◌then◌else◌, any, includes, truthy, length,
}
use upload.Prelude.Sets.{unique}
use upload.Storage.Rows.{Project, Release}
use upload.Rules.Text.{trim}
use upload.Rules.Store.{
  RuleType_eq, RuleRelease, RuleDeviceType, RuleDevice, RuleOs, DeviceType, Tables, Env, Reply, ok,
  bad_request, failed, M, ◌>>=◌, ◌>>◌, done, fail, ask, change,
}

pub record ReleaseIdentifierDto : Type 0 where
  pub project_id : Option String
  pub project_name : Option String
  pub version : Option String

-- A list that is not given is empty.
pub record RuleAssociation : Type 0 where
  pub releases : List ReleaseIdentifierDto
  pub device_type_names : List String
  pub device_ids : List String
  pub os_types : List String

abbrev pub or_else {ℓ} : {A : Type ℓ} → Option A → A → A
or_else none a = a
or_else (some b) a = b

abbrev pub is_empty {ℓ} : {A : Type ℓ} → List A → Bool
is_empty [] = true
is_empty (x ∷ xs) = false

-- The project id that a release is given by, where it is more than blanks.
abbrev pub given_project : ReleaseIdentifierDto → Option String
given_project r = elim r.project_id [
  | none ↦ none
  | some id ↦ if trim id == "" then none else some id
]

abbrev pub printed : Option String → String
printed none = "undefined"
printed (some s) = s

-- The key under which a release counts once.
unfoldable pub release_key : ReleaseIdentifierDto → String
unfolding trim
release_key r =
    String.◌++◌
      (elim (given_project r) [
        | some id ↦ String.◌++◌ "projectId:" (trim id)
        | none ↦ String.◌++◌ "projectName:" (printed r.project_name)
      ])
      (String.◌++◌ "|version:" (or_else r.version ""))

-- `Map.set`: a key keeps its place.
unfoldable pub set_release :
    String
    → ReleaseIdentifierDto
    → List (String × ReleaseIdentifierDto)
    → List (String × ReleaseIdentifierDto)
set_release key r [] = (key, r) ∷ []
set_release key r ((k, q) ∷ entries) =
    if k == key then (k, r) ∷ entries else (k, q) ∷ set_release key r entries

unfoldable pub unique_releases :
    List ReleaseIdentifierDto
    → List (String × ReleaseIdentifierDto)
    → List (String × ReleaseIdentifierDto)
unfolding release_key set_release
unique_releases [] entries = entries
unique_releases (r ∷ releases) entries =
    unique_releases releases (set_release (release_key r) r entries)

-- A condition on a release; a version that is not given is no condition.
pub data Condition : Type 0 where
  by_id : ℕ → Option String → Condition
  by_name : String → Option String → Condition

-- The condition for a release; a project id that is no number fails in the database.
unfoldable pub condition_of : Env → ReleaseIdentifierDto → Reply Condition
condition_of env r = elim (given_project r) [
  | some id ↦ elim (env.parse_int id) [ none ↦ failed | some n ↦ ok (by_id n r.version) ]
  | none ↦
      if truthy r.project_name then ok (by_name (printed r.project_name) r.version) else bad_request
]

-- `uniqueReleases.map`, which throws before the query; the database fails after it.
unfoldable pub conditions_of : Env → List (String × ReleaseIdentifierDto) → Reply (List Condition)
unfolding condition_of
conditions_of env [] = ok []
conditions_of env ((k, r) ∷ entries) = elim (condition_of env r) [
  | ok c ↦ elim (conditions_of env entries) [ ok cs ↦ ok (c ∷ cs) | e ↦ e ]
  | bad_request ↦ bad_request
  | _ ↦ elim (conditions_of env entries) [ bad_request ↦ bad_request | _ ↦ failed ]
]

abbrev pub has_version : Option String → Release → Bool
has_version none r = true
has_version (some v) r = r.version == v

unfoldable pub meets : Env → List Project → Release → Condition → Bool
meets env projects r (by_id id version) = r.project == id && has_version version r
meets env projects r (by_name name version) =
    any (env.orm.find (λ (p : Project). p.id == r.project) projects) (λ p. p.name == name)
    && has_version version r

module _ (env : Env) where
  unfoldable pub find_releases : List Condition → Tables → List Release
  unfolding meets
  find_releases conditions s =
      env.orm.find (λ r. any conditions (meets env s.projects r)) s.releases

  unfoldable pub link_releases : String → List Release → Tables → Tables
  link_releases rule [] s = s
  link_releases rule (r ∷ releases) s = link_releases rule releases (record s {
    rule_releases = env.orm.insert (record { rule = rule; release = r.catalog_id }) s.rule_releases;
  })

  unfoldable pub link_device_types : String → List DeviceType → Tables → Tables
  link_device_types rule [] s = s
  link_device_types rule (t ∷ types) s = link_device_types rule types (record s {
    rule_device_types =
        env.orm.insert (record { rule = rule; device_type = t.id }) s.rule_device_types;
  })

  unfoldable pub link_devices : String → List String → Tables → Tables
  link_devices rule [] s = s
  link_devices rule (d ∷ devices) s = link_devices rule devices (record s {
    rule_devices = env.orm.insert (record { rule = rule; device = d }) s.rule_devices;
  })

  unfoldable pub link_os_types : String → List String → Tables → Tables
  link_os_types rule [] s = s
  link_os_types rule (o ∷ os_types) s =
      link_os_types rule os_types
        (record s { rule_os = env.orm.insert (record { rule = rule; os_type = o }) s.rule_os })

  -- The releases, which are to be as many as are asked for.
  unfoldable pub associate_releases : String → List ReleaseIdentifierDto → M (Unit {0})
  unfolding unique_releases conditions_of find_releases link_releases
  associate_releases rule [] = done tt
  associate_releases rule (r ∷ releases) =
      let wanted = unique_releases (r ∷ releases) [] in
      (do
        conditions ← fail (conditions_of env wanted)
        found ← ask (find_releases conditions)
        if length found == length wanted
            then change (link_releases rule found)
            else fail bad_request)

  unfoldable pub associate_device_types : String → List String → M (Unit {0})
  unfolding link_device_types
  associate_device_types rule [] = done tt
  associate_device_types rule (name ∷ names) =
      let wanted = unique (name ∷ names) in
      (do
        found ← ask (λ s. env.orm.find (λ (t : DeviceType). includes wanted t.name) s.device_types)
        if length found == length wanted
            then change (link_device_types rule found)
            else fail bad_request)

  unfoldable pub associate_devices : String → List String → M (Unit {0})
  unfolding link_devices
  associate_devices rule [] = done tt
  associate_devices rule (id ∷ ids) =
      let wanted = unique (id ∷ ids) in
      (do
        found ← ask (λ s. env.orm.find (includes wanted) s.devices)
        if length found == length wanted
            then change (link_devices rule found)
            else fail bad_request)

  unfoldable pub create_associations : String → RuleAssociation → M (Unit {0})
  unfolding associate_releases associate_device_types associate_devices link_os_types
  create_associations rule a =
      associate_releases rule a.releases
      >> associate_device_types rule a.device_type_names
      >> associate_devices rule a.device_ids
      >> change (link_os_types rule (unique a.os_types))

  unfoldable pub remove_associations : String → Tables → Tables
  remove_associations rule s = record s {
    rule_releases = env.orm.delete (λ (l : RuleRelease). l.rule == rule) s.rule_releases;
    rule_device_types = env.orm.delete (λ (l : RuleDeviceType). l.rule == rule) s.rule_device_types;
    rule_devices = env.orm.delete (λ (l : RuleDevice). l.rule == rule) s.rule_devices;
    rule_os = env.orm.delete (λ (l : RuleOs). l.rule == rule) s.rule_os;
  }

  unfoldable pub update_associations : String → RuleAssociation → M (Unit {0})
  unfolding remove_associations create_associations
  update_associations rule a = change (remove_associations rule) >> create_associations rule a
