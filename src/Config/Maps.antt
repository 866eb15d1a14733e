-- ===== src/Config/Maps.antt =====
-- `populateDraftFromConfigMaps` of apps/upload/src/config/config.service.ts: what the configuration
-- maps that apply to a device put into the draft of its configuration. The types of a device are
-- what the service for devices answers, [] where it fails.
pub mod Laws
use upload.Prelude.{
  ℕ, ℕ_eq, String, String_eq, Bool, true, false, ◌&&◌, ◌||◌, Option, none, some, List, [], ◌∷◌,
  ◌++◌, ◌==◌, if◌then◌else◌, any, includes, map,
}
use upload.Prelude.Sets.{unique}
use upload.Vault.{store_secret}
use upload.Config.Json.{Value, text, Fields, empty, assign_all, is_present}
use upload.Config.Paths.{get_by_path, set_by_path}
use upload.Config.Rows.{RevisionStatus_eq, active, Revision, Group, Association}
use upload.Config.Yaml.{dump_yaml}
use upload.Config.Secrets.{
  value_or_null, config_vault_key_secret_name, config_vault_field, resolve_group_yaml,
  delete_group_vault_secrets,
}
use upload.Config.Groups.{find_group, new_group}
use upload.Config.Store.{
  Store, Env, ok, failed, M, continue, ◌>>=◌, ◌>>◌, ask, change, groups_of, next_group_position,
  save_group,
}

abbrev pub is_none {ℓ} : {A : Type ℓ} → Option A → Bool
is_none none = true
is_none (some x) = false

abbrev pub is_one_of : List ℕ → Option ℕ → Bool
is_one_of ids none = false
is_one_of ids (some id) = includes ids id

abbrev pub is_device : String → Option String → Bool
is_device device_id none = false
is_device device_id (some d) = d == device_id

-- The three alternatives of `where`; a device of no known type has no second one.
unfoldable pub applies : List ℕ → String → Association → Bool
applies device_type_ids device_id a =
    (is_none a.device_type_id && is_none a.device_id && is_none a.config_project_id)
    || is_one_of device_type_ids a.device_type_id
    || is_device device_id a.device_id

-- What the maps have for a group of one name: `groupMeta` and `groupData`.
pub record Merged : Type 0 where
  pub name : String
  pub is_global : Bool
  pub git_file_path : Option String
  pub sensitive_keys : List (List String)
  pub content : Fields

abbrev pub same_path : List String → List String → Bool
same_path [] [] = true
same_path (j ∷ p) (k ∷ q) = j == k && same_path p q
same_path _ _ = false

-- `Set.add` of each key.
unfoldable pub add_keys : List (List String) → List (List String) → List (List String)
add_keys [] set = set
add_keys (k ∷ keys) set = add_keys keys (if any set (same_path k) then set else set ++ k ∷ [])

unfoldable pub merge_into : Group → Fields → List Merged → List Merged
unfolding add_keys
merge_into g resolved [] =
    record {
      name = g.name;
      is_global = g.is_global;
      git_file_path = g.git_file_path;
      sensitive_keys = add_keys g.sensitive_keys [];
      content = assign_all empty resolved;
    }
    ∷ []
merge_into g resolved (m ∷ rest) =
    if m.name == g.name
    then record m {
      sensitive_keys = add_keys g.sensitive_keys m.sensitive_keys;
      content = assign_all m.content resolved;
    }
      ∷ rest
    else m ∷ merge_into g resolved rest

module _ {S : Type 0} (env : Env S) where
  unfoldable pub merge_groups : S → List Group → List Merged → List Merged
  unfolding merge_into resolve_group_yaml
  merge_groups s [] merged = merged
  merge_groups s (g ∷ groups) merged =
      merge_groups s groups (merge_into g (resolve_group_yaml env s g empty) merged)

  unfoldable pub merge_revisions : Store S → List Revision → List Merged → List Merged
  unfolding merge_groups groups_of
  merge_revisions s [] merged = merged
  merge_revisions s (r ∷ rows) merged =
      merge_revisions s rows (merge_groups s.secrets (groups_of env r.id s) merged)

  -- The active revisions of the maps that apply.
  unfoldable pub applicable_revisions : List ℕ → String → Store S → List Revision
  unfolding applies
  applicable_revisions device_type_ids device_id s =
      let projects = unique (
        map (λ (a : Association). a.config_map_project_id)
          (env.orm.find (applies device_type_ids device_id) s.associations)) in
      env.orm.find (λ r. includes projects r.project_id && r.status == active) s.revisions

  -- A text as it is, any other value printed.
  unfoldable pub secret_text : Value → String
  secret_text (text s) = s
  secret_text v = env.yaml.stringify v

  unfoldable pub store_merged : ℕ → List (List String) → S × Fields → Option (S × Fields)
  unfolding secret_text
  store_merged group [] (s, merged) = some (s, merged)
  store_merged group (path ∷ paths) (s, merged) =
      let rest = store_merged group paths in
      let value = get_by_path merged path in
      if is_present value
      then elim (store_secret env.server env.vault s (config_vault_key_secret_name env group path)
          config_vault_field (secret_text (value_or_null value))) [
            | none ↦ none
            | some (t, ref) ↦ rest (t, set_by_path path (text ref) merged)
          ]
      else rest (s, merged)

  -- The group of the draft that the merged one goes to.
  unfoldable pub target_group : ℕ → Merged → M S Group
  unfolding find_group new_group next_group_position save_group delete_group_vault_secrets
  target_group draft_id merged = do
    existing ← ask (find_group env draft_id merged.name)
    position ← ask (next_group_position env draft_id)
    elim existing [
      | none ↦ save_group env (record (new_group draft_id merged.name position) {
        is_global = merged.is_global;
        git_file_path = merged.git_file_path;
        sensitive_keys = merged.sensitive_keys;
      })
      | some g ↦
          change (λ s. record s { secrets = delete_group_vault_secrets env g s.secrets })
          >> save_group env (record g { sensitive_keys = merged.sensitive_keys })
    ]

  unfoldable pub store_merged_all : Group → Merged → M S Fields
  unfolding store_merged
  store_merged_all g merged s =
      if env.vault.enabled
      then elim (store_merged g.id merged.sensitive_keys (s.secrets, merged.content)) [
        | none ↦ (s, failed)
        | some (secrets, stored) ↦ (record s { secrets = secrets }, ok stored)
      ]
      else (s, ok merged.content)

  unfoldable pub write_merged : ℕ → Merged → M S Group
  unfolding target_group store_merged_all save_group dump_yaml
  write_merged draft_id merged = do
    g ← target_group draft_id merged
    stored ← store_merged_all g merged
    save_group env (record g { yaml_content = dump_yaml env.yaml stored })

  unfoldable pub write_all : ℕ → List Merged → M S (Unit {0})
  unfolding write_merged
  write_all draft_id [] s = (s, ok tt)
  write_all draft_id (m ∷ merged) s =
      continue (write_merged draft_id m s) (λ _. write_all draft_id merged)

  unfoldable pub populate_draft_from_config_maps : ℕ → String → List ℕ → M S (Unit {0})
  unfolding applicable_revisions merge_revisions write_all
  populate_draft_from_config_maps draft_id device_id device_type_ids = do
    merged ← ask (λ s. merge_revisions s (applicable_revisions device_type_ids device_id s) [])
    write_all draft_id merged
