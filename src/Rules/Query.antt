-- ===== src/Rules/Query.antt =====
-- The queries of libs/common/src/rules/services/rule.service.ts for rules with their links, and
-- `ruleEntityToDefinition`. A condition on a joined table selects the links that meet it, and the
-- rules that have one left.
use upload.Prelude.{
  ℕ, ℕ_eq, String, String_eq, Bool, true, false, ◌&&◌, Option, none, some, List, [], ◌∷◌, ◌==◌,
  if◌then◌else◌, filter, map, head?, includes, truthy, option_beq,
}
use upload.Storage.Rows.{Project, Release}
use upload.Rules.Store.{
  RuleType, RuleType_eq, policy, RuleRow, RuleRelease, RuleDeviceType, RuleDevice, RuleOs,
  DeviceType, Tables, Env,
}

-- A link to a release with the release and its project, where they are found.
pub record ReleaseLink : Type 0 where
  pub release : Option Release
  pub project : Option Project

-- A rule with its relations.
pub record Loaded : Type 0 where
  pub row : RuleRow
  pub releases : List ReleaseLink
  pub device_types : List (Option DeviceType)
  pub devices : List String
  pub os_types : List String

pub record RuleQueryFilter : Type 0 where
  pub type : Option RuleType
  pub is_active : Option Bool
  pub release_id : Option String
  pub device_type_id : Option ℕ
  pub device_type_name : Option String
  pub device_id : Option String
  pub os_type : Option String

abbrev pub no_filter : RuleQueryFilter
no_filter = record {
  type = none;
  is_active = none;
  release_id = none;
  device_type_id = none;
  device_type_name = none;
  device_id = none;
  os_type = none;
}

module _ (env : Env) (s : Tables) where
  abbrev pub project_of : Option Release → Option Project
  project_of none = none
  project_of (some r) = head? (env.orm.find (λ (p : Project). p.id == r.project) s.projects)

  unfoldable pub release_link : RuleRelease → ReleaseLink
  release_link l =
      let release = head? (env.orm.find (λ (r : Release). r.catalog_id == l.release) s.releases) in
      record { release = release; project = project_of release }

  -- `relations` of a rule.
  unfoldable pub load : RuleRow → Loaded
  unfolding release_link
  load row = record {
    row = row;
    releases =
        map release_link (env.orm.find (λ (l : RuleRelease). l.rule == row.id) s.rule_releases);
    device_types =
        map
          (λ (l : RuleDeviceType).
            head? (env.orm.find (λ (t : DeviceType). t.id == l.device_type) s.device_types))
          (env.orm.find (λ (l : RuleDeviceType). l.rule == row.id) s.rule_device_types);
    devices =
        map (λ (l : RuleDevice). l.device)
          (env.orm.find (λ (l : RuleDevice). l.rule == row.id) s.rule_devices);
    os_types =
        map (λ (l : RuleOs). l.os_type) (env.orm.find (λ (l : RuleOs). l.rule == row.id) s.rule_os);
  }

abbrev pub of_project : List ℕ → ReleaseLink → Bool
of_project ids l = elim l.project [ none ↦ false | some p ↦ includes ids p.id ]

abbrev pub of_release : String → ReleaseLink → Bool
of_release id l = elim l.release [ none ↦ false | some r ↦ r.catalog_id == id ]

abbrev pub of_releases : List String → ReleaseLink → Bool
of_releases ids l = elim l.release [ none ↦ false | some r ↦ includes ids r.catalog_id ]

-- A condition that is asked for only where there is a value.
abbrev pub where_some {ℓ} : {A B : Type ℓ} → Option A → (A → B → Bool) → B → Bool
where_some none test b = true
where_some (some a) test b = test a b

-- A text that is empty, and the number 0, count as absent.
abbrev pub given : Option String → Option String
given o = if truthy o then o else none

abbrev pub given_id : Option ℕ → Option ℕ
given_id none = none
given_id (some n) = if n == 0 then none else some n

-- A relation of which a part is asked for keeps that part, and the rule stays where it has some.
abbrev pub is_kept {ℓ} : {A : Type ℓ} → Bool → List A → Bool
is_kept false links = true
is_kept true [] = false
is_kept true (l ∷ links) = true

abbrev pub is_given {ℓ} : {A : Type ℓ} → Option A → Bool
is_given none = false
is_given (some a) = true

-- The projects, where they restrict the query: not an empty list, and for policies only.
unfoldable pub project_filter : RuleQueryFilter → Option (List ℕ) → Option (List ℕ)
project_filter query none = none
project_filter query (some []) = none
project_filter query (some (id ∷ ids)) =
    if option_beq query.type (some policy) then some (id ∷ ids) else none

-- The links of a rule that a query selects.
unfoldable pub select_links : RuleQueryFilter → Option (List ℕ) → Loaded → Loaded
unfolding project_filter
select_links query project_ids l = record l {
  releases =
      filter
        (λ link.
          where_some (project_filter query project_ids) of_project link
          && where_some (given query.release_id) of_release link)
        l.releases;
  device_types =
      filter
        (λ (t : Option DeviceType).
          where_some (given_id query.device_type_id)
            (λ id (t : Option DeviceType). elim t [ none ↦ false | some d ↦ d.id == id ]) t
          && where_some (given query.device_type_name)
              (λ name (t : Option DeviceType). elim t [ none ↦ false | some d ↦ d.name == name ]) t)
        l.device_types;
  devices = filter (where_some (given query.device_id) (λ id d. d == id)) l.devices;
  os_types = filter (where_some (given query.os_type) (λ os o. o == os)) l.os_types;
}

-- Whether the rule is answered, with the links that are left.
unfoldable pub is_selected : RuleQueryFilter → Option (List ℕ) → Loaded → Bool
unfolding project_filter
is_selected query project_ids l =
    is_kept (is_given (project_filter query project_ids)) l.releases
    && is_kept (is_given (given query.release_id)) l.releases
    && is_kept (is_given (given_id query.device_type_id)) l.device_types
    && is_kept (is_given (given query.device_type_name)) l.device_types
    && is_kept (is_given (given query.device_id)) l.devices
    && is_kept (is_given (given query.os_type)) l.os_types

-- The conditions on the rule's own columns.
abbrev pub of_query : RuleQueryFilter → RuleRow → Bool
of_query query r =
    where_some query.type (λ t (r : RuleRow). r.type == t) r
    && where_some query.is_active
        (λ b (r : RuleRow). if b then r.is_active else if r.is_active then false else true) r

abbrev pub with_releases : List String → Loaded → Loaded
with_releases ids l = record l { releases = filter (of_releases ids) l.releases }

module _ (env : Env) (s : Tables) where
  -- `findAll`
  unfoldable pub find_all : RuleQueryFilter → Option (List ℕ) → List Loaded
  unfolding load select_links is_selected
  find_all query project_ids = filter (is_selected query project_ids) (
      map (select_links query project_ids)
        (map (load env s) (env.newest_first (env.orm.find (of_query query) s.rules))))

  -- `findAllForReleases`
  unfoldable pub find_all_for_releases : List String → List Loaded
  unfolding load
  find_all_for_releases [] = []
  find_all_for_releases (id ∷ ids) =
      filter (λ l. is_kept true l.releases)
        (map (with_releases (id ∷ ids)) (
          map (load env s)
            (env.newest_first (env.orm.find (λ (r : RuleRow). r.type == policy) s.rules))))

-- `association.releases` of a definition: the project and the version of a link.
pub record ReleaseIdentifier : Type 0 where
  pub project_id : Option ℕ
  pub project_name : Option String
  pub version : Option String

pub record RuleDefinition : Type 0 where
  pub row : RuleRow
  pub releases : List ReleaseIdentifier
  pub device_type_names : List (Option String)
  pub device_ids : List String
  pub os_types : List String

abbrev pub identifier_of : ReleaseLink → ReleaseIdentifier
identifier_of l = record {
  project_id = elim l.project [ none ↦ none | some p ↦ some p.id ];
  project_name = elim l.project [ none ↦ none | some p ↦ some p.name ];
  version = elim l.release [ none ↦ none | some r ↦ some r.version ];
}

unfoldable pub rule_entity_to_definition : Loaded → RuleDefinition
rule_entity_to_definition l = record {
  row = l.row;
  releases = map identifier_of l.releases;
  device_type_names =
      map (λ (t : Option DeviceType). elim t [ none ↦ none | some d ↦ some d.name ]) l.device_types;
  device_ids = l.devices;
  os_types = l.os_types;
}
