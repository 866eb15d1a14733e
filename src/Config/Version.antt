-- ===== src/Config/Version.antt =====
-- `computeNextSemVer` of apps/upload/src/config/config.service.ts.
pub mod Kept
pub mod Laws
use upload.Prelude.{
  ℕ, suc, ◌+◌, String, String_eq, Bool, true, false, not, ◌&&◌, ◌||◌, Option, none, some, List, [],
  ◌∷◌, ◌==◌, if◌then◌else◌, any, includes,
}
use upload.Config.Json.{Value, Fields, empty, field, lookup, keys}
use upload.Config.Rows.{Version, Group}
use upload.Config.Yaml.{Yaml, parse_yaml}

-- A JavaScript `Map` from group names: a key that is set again keeps its place.
abbrev pub GroupMap : Type 0
GroupMap = List (String × Fields)

unfoldable pub set_group : String → Fields → GroupMap → GroupMap
set_group name fields [] = (name, fields) ∷ []
set_group name fields ((n, f) ∷ rest) =
    if n == name then (n, fields) ∷ rest else (n, f) ∷ set_group name fields rest

unfoldable pub get_group : String → GroupMap → Option Fields
get_group name [] = none
get_group name ((n, f) ∷ rest) = if n == name then some f else get_group name rest

-- The version that is raised, or 0.0.0 where there is none.
abbrev pub base : Option Version → Version
base none = record { major = 0; minor = 0; patch = 0 }
base (some v) = v

unfoldable pub raise : Bool → Bool → Version → Version
raise true minor v = record { major = suc v.major; minor = 0; patch = 0 }
raise false true v = record { major = v.major; minor = suc v.minor; patch = 0 }
raise false false v = record { major = v.major; minor = v.minor; patch = suc v.patch }

abbrev pub initial : Version
initial = record { major = 1; minor = 0; patch = 0 }

-- A group that was added, a key that was removed from a group, or a group that was removed.
unfoldable pub has_major_change : GroupMap → GroupMap → Bool
has_major_change prev draft =
    any draft (λ entry. elim (get_group entry.0 prev) [
      | none ↦ true
      | some parsed ↦ any (keys parsed) (λ key. not (includes (keys entry.1) key))
    ])
    || any prev (λ entry. elim (get_group entry.0 draft) [ none ↦ true | some _ ↦ false ])

module _ (yaml : Yaml) where
  -- `for (const g of groups) map.set(g.name, this.parseYaml(g.yamlContent))`
  unfoldable pub group_map : List Group → GroupMap → GroupMap
  group_map [] map = map
  group_map (g ∷ groups) map =
      group_map groups (set_group g.name (parse_yaml yaml g.yaml_content) map)

  -- A key of the draft that the previous group lacks or prints otherwise.
  unfoldable pub key_added_or_changed : Fields → Fields → String → Bool
  key_added_or_changed prev draft key = elim (lookup key prev) [
    | none ↦ true
    | some old ↦ elim (lookup key draft) [
      | none ↦ true
      | some new ↦ not (yaml.stringify old == yaml.stringify new)
    ]
  ]

  unfoldable pub has_minor_change : GroupMap → GroupMap → Bool
  unfolding key_added_or_changed
  has_minor_change prev draft = any draft λ entry. elim (get_group entry.0 prev) [
    | none ↦ false
    | some parsed ↦ any (keys entry.1) (key_added_or_changed parsed entry.1)
  ]

  -- `prev_groups` is [] where there is no previous revision.
  unfoldable pub compute_next_sem_ver : List Group → List Group → Option Version → Version
  unfolding group_map has_minor_change has_major_change raise
  compute_next_sem_ver [] draft_groups prev_sem_ver = initial
  compute_next_sem_ver (g ∷ prev_groups) draft_groups prev_sem_ver =
      let prev = group_map (g ∷ prev_groups) [] in
      let draft = group_map draft_groups [] in
      raise (has_major_change prev draft) (has_minor_change prev draft) (base prev_sem_ver)
