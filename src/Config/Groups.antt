-- ===== src/Config/Groups.antt =====
-- The groups of a draft, in apps/upload/src/config/config.service.ts: `upsertGroup`, `deleteGroup`,
-- `cloneGroupToRevision` and `mapGroupToDto`.
pub mod Laws
use upload.Prelude.{
  ℕ, ℕ_eq, ltb, String, String_eq, Bool, true, false, not, ◌&&◌, Option, none, some, List, [], ◌∷◌,
  ◌==◌, if◌then◌else◌, length, head?, truthy,
}
use upload.Config.Json.{Fields}
use upload.Config.Rows.{Revision, Group}
use upload.Config.Yaml.{parse_yaml, dump_yaml}
use upload.Config.Secrets.{mask, restore, store_keys, copy_keys, delete_group_vault_secrets}
use upload.Config.Store.{
  Store, Env, Answer, ok, not_found, bad_request, failed, M, continue, ◌>>=◌, ◌>>◌, done, fail, ask,
  change, ConfigProject, require_config_project, get_or_create_draft_revision, next_group_position,
  save_group,
}

-- A field that the request leaves out is none; `null` is `some none`.
pub record UpsertConfigGroup : Type 0 where
  pub name : String
  pub display_name : Option (Option String)
  pub is_global : Option Bool
  pub git_file_path : Option String
  pub yaml_content : Option (Option String)
  pub sensitive_keys : Option (List (List String))

pub record ConfigGroup : Type 0 where
  pub id : ℕ
  pub name : String
  pub display_name : Option String
  pub is_global : Bool
  pub git_file_path : Option String
  pub sensitive_keys : List (List String)
  pub yaml_content : Option String

-- `a ?? b`
abbrev pub or_value {ℓ} : {A : Type ℓ} → Option A → A → A
or_value none b = b
or_value (some a) b = a

abbrev pub or_option {ℓ} : {A : Type ℓ} → Option A → Option A → Option A
or_option none b = b
or_option (some a) b = some a

abbrev pub has_none {ℓ} : {A : Type ℓ} → List A → Bool
has_none [] = true
has_none (x ∷ xs) = false

-- The columns of the request, but for the content.
unfoldable pub with_columns : UpsertConfigGroup → Group → Group
with_columns dto g = record g {
  is_global = or_value dto.is_global g.is_global;
  display_name = or_value dto.display_name g.display_name;
  git_file_path = or_option dto.git_file_path g.git_file_path;
  sensitive_keys = or_value dto.sensitive_keys g.sensitive_keys;
}

-- A new group in memory; it has no key yet.
unfoldable pub new_group : ℕ → String → ℕ → Group
new_group revision name position = record {
  id = 0;
  revision_id = revision;
  name = name;
  display_name = none;
  is_global = false;
  git_file_path = none;
  yaml_content = none;
  sensitive_keys = [];
  position = position;
}

module _ {S : Type 0} (env : Env S) where
  unfoldable pub map_group_to_dto : Group → ConfigGroup
  unfolding mask parse_yaml
  map_group_to_dto g = record {
    id = g.id;
    name = g.name;
    display_name = g.display_name;
    is_global = g.is_global;
    git_file_path = g.git_file_path;
    sensitive_keys = g.sensitive_keys;
    yaml_content =
        if not (has_none g.sensitive_keys) && truthy g.yaml_content
        then some (env.yaml.dump (mask g.sensitive_keys (parse_yaml env.yaml g.yaml_content)))
        else g.yaml_content;
  }

  unfoldable pub find_group : ℕ → String → Store S → Option Group
  find_group revision name s =
      head? (env.orm.find (λ g. g.revision_id == revision && g.name == name) s.groups)

  -- The content that a request asks for, with the masks that come back replaced.
  unfoldable pub unmasked : Group → Option String → Fields
  unfolding restore parse_yaml
  unmasked g content =
      let parsed = parse_yaml env.yaml content in
      if not (has_none g.sensitive_keys) && truthy g.yaml_content
      then restore (parse_yaml env.yaml g.yaml_content) g.sensitive_keys parsed
      else parsed

  -- A group without a key is saved first, as its key is part of the names of its secrets.
  unfoldable pub with_key : Group → M S Group
  unfolding save_group
  with_key g = if g.id == 0 then save_group env g else done g

  unfoldable pub store_all : Group → Fields → M S Fields
  unfolding store_keys
  store_all g parsed s = elim (store_keys env g.id g.sensitive_keys (s.secrets, parsed)) [
    | none ↦ (s, failed)
    | some (secrets, stored) ↦ (record s { secrets = secrets }, ok stored)
  ]

  unfoldable pub write_sensitive : Fields → Group → M S Group
  unfolding with_key store_all dump_yaml
  write_sensitive parsed g = do
    keyed ← with_key g
    stored ← store_all keyed parsed
    done (record keyed { yaml_content = dump_yaml env.yaml stored })

  unfoldable pub write_content : Option (Option String) → Group → M S Group
  unfolding unmasked write_sensitive dump_yaml
  write_content none g = done g
  write_content (some content) g =
      let parsed = unmasked g content in
      if not (has_none g.sensitive_keys) && env.vault.enabled
      then write_sensitive parsed g
      else done (record g { yaml_content = dump_yaml env.yaml parsed })

  -- `upsertGroup` once the draft is there.
  unfoldable pub upsert_in : UpsertConfigGroup → Revision → M S ConfigGroup
  unfolding next_group_position save_group with_columns map_group_to_dto find_group new_group
      write_content
  upsert_in dto draft = do
    existing ← ask (find_group draft.id dto.name)
    position ← ask (next_group_position env draft.id)
    written ←
        write_content dto.yaml_content
          (with_columns dto (or_value existing (new_group draft.id dto.name position)))
    saved ← save_group env written
    done (map_group_to_dto saved)

  unfoldable pub upsert_group : Option ConfigProject → UpsertConfigGroup → M S ConfigGroup
  unfolding require_config_project get_or_create_draft_revision upsert_in
  upsert_group found dto = do
    project ← require_config_project found
    get_or_create_draft_revision env project.id >>= upsert_in dto

  -- `deleteGroup` once the draft is there.
  unfoldable pub delete_in : String → Revision → M S Bool
  unfolding find_group delete_group_vault_secrets
  delete_in name draft = do
    existing ← ask (find_group draft.id name)
    elim existing [
      | none ↦ fail not_found
      | some group ↦
          change (λ s. record s {
            secrets = delete_group_vault_secrets env group s.secrets;
            groups = env.orm.delete (λ g. g.id == group.id) s.groups;
          })
          >> done true
    ]

  unfoldable pub delete_group : Option ConfigProject → String → M S Bool
  unfolding require_config_project get_or_create_draft_revision delete_in
  delete_group found name = do
    project ← require_config_project found
    get_or_create_draft_revision env project.id >>= delete_in name

  -- The content of a copy, with the sensitive values stored anew under the key of the copy.
  unfoldable pub copy_content : Group → Group → M S (Unit {0})
  unfolding copy_keys save_group parse_yaml dump_yaml
  copy_content source copy s =
      if not (truthy source.yaml_content)
      then (s, ok tt)
      else let parsed = parse_yaml env.yaml source.yaml_content in
        let state =
          if env.vault.enabled
          then copy_keys env copy.id source.sensitive_keys (s.secrets, parsed)
          else (s.secrets, parsed) in
        let written =
          save_group env (record copy { yaml_content = dump_yaml env.yaml state.1 })
            (record s { secrets = state.0 }) in
        (written.0, ok tt)

  -- `cloneGroupToRevision` with the position of its source.
  unfoldable pub clone_group_to_revision : Group → ℕ → M S (Unit {0})
  unfolding save_group copy_content
  clone_group_to_revision source target = do
    copy ← save_group env (record source { id = 0; revision_id = target; yaml_content = none })
    copy_content source copy
