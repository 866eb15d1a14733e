-- ===== src/Config/Secrets.antt =====
-- The sensitive values in a group's content, in apps/upload/src/config/config.service.ts: masked
-- for the API, restored where the API's mask comes back, and kept in Vault.
pub mod Mask
pub mod Restore
use Prim.Native.String
use upload.Prelude.{
  ℕ, String, String_eq, Bool, true, false, not, ◌&&◌, ◌||◌, Option, none, some, List, [], ◌∷◌, ◌==◌,
  if◌then◌else◌, truthy,
}
use upload.Vault.{store_secret, delete_secret, resolve_secret, is_vault_ref}
use upload.Config.Json.{
  Value, null, bool, number, text, array, object, Fields, assign_all, is_present,
}
use upload.Config.Paths.{get_by_path, set_by_path, delete_by_path}
use upload.Config.Rows.{Group}
use upload.Config.Yaml.{parse_yaml, dump_yaml}
use upload.Config.Store.{Store, Env}

abbrev pub value_or_null : Option Value → Value
value_or_null none = null
value_or_null (some v) = v

-- `value === '***'`
abbrev pub is_mask : Option Value → Bool
is_mask (some (text s)) = s == "***"
is_mask _ = false

-- The loop of `mapGroupToDto`.
unfoldable pub mask : List (List String) → Fields → Fields
mask [] parsed = parsed
mask (path ∷ paths) parsed =
    mask paths (
      if is_present (get_by_path parsed path) then set_by_path path (text "***") parsed else parsed)

-- One step of the first loop of `upsertGroup`.
unfoldable pub restore_key : Fields → List String → Fields → Fields
restore_key existing path parsed =
    if is_mask (get_by_path parsed path)
    then if is_present (get_by_path existing path)
      then set_by_path path (value_or_null (get_by_path existing path)) parsed
      else delete_by_path path parsed
    else parsed

unfoldable pub restore : Fields → List (List String) → Fields → Fields
unfolding restore_key
restore existing [] parsed = parsed
restore existing (path ∷ paths) parsed = restore existing paths (restore_key existing path parsed)

-- `keyPath.replace(/\./g, '__')`
unfoldable pub join_keys : List String → String
join_keys [] = ""
join_keys (key ∷ []) = key
join_keys (key ∷ next ∷ path) = String.◌++◌ key (String.◌++◌ "__" (join_keys (next ∷ path)))

abbrev pub config_vault_field : String
config_vault_field = "config_value"

module _ {S : Type 0} (env : Env S) where
  -- `CONFIG_VAULT_KEY_SECRET_NAME`
  unfoldable pub config_vault_key_secret_name : ℕ → List String → String
  unfolding join_keys
  config_vault_key_secret_name group path =
      String.◌++◌ "config-group-"
        (String.◌++◌ (env.print group) (String.◌++◌ "-key-" (join_keys path)))

  -- `value != null && isVaultRef(String(value))`, with the reference.
  unfoldable pub ref_at : Fields → List String → Option String
  ref_at parsed path =
      let value = env.yaml.to_text (value_or_null (get_by_path parsed path)) in
      if is_present (get_by_path parsed path) && is_vault_ref value then some value else none

  -- `resolveSecret` in a `try` whose `catch` gives null.
  unfoldable pub resolved : S → String → Value
  resolved s ref = elim (resolve_secret env.server env.vault s (some ref)) [
    | some (some plain) ↦ text plain
    | some none ↦ null
    | none ↦ null
  ]

  unfoldable pub resolve_keys : S → List (List String) → Fields → Fields
  unfolding ref_at resolved
  resolve_keys s [] parsed = parsed
  resolve_keys s (path ∷ paths) parsed = resolve_keys s paths (elim (ref_at parsed path) [
    | none ↦ parsed
    | some ref ↦ set_by_path path (resolved s ref) parsed
  ])

  unfoldable pub resolve_group_yaml : S → Group → Fields → Fields
  unfolding resolve_keys parse_yaml
  resolve_group_yaml s group globals =
      let parsed = parse_yaml env.yaml group.yaml_content in
      assign_all globals
        (if env.vault.enabled then resolve_keys s group.sensitive_keys parsed else parsed)

  -- The second loop of `upsertGroup`: none where a store throws.
  unfoldable pub store_keys : ℕ → List (List String) → S × Fields → Option (S × Fields)
  store_keys group [] (s, parsed) = some (s, parsed)
  store_keys group (path ∷ paths) (s, parsed) =
      let rest = store_keys group paths in
      let value = env.yaml.to_text (value_or_null (get_by_path parsed path)) in
      if is_present (get_by_path parsed path) && not (is_vault_ref value)
      then elim (store_secret env.server env.vault s (config_vault_key_secret_name group path)
          config_vault_field value) [
            | none ↦ none
            | some (t, ref) ↦ rest (t, set_by_path path (text ref) parsed)
          ]
      else rest (s, parsed)

  -- One step of `cloneGroupToRevision`: a value that cannot be read or stored keeps its reference.
  unfoldable pub copy_key : ℕ → List String → S × Fields → S × Fields
  unfolding ref_at
  copy_key group path (s, parsed) = elim (ref_at parsed path) [
    | none ↦ (s, parsed)
    | some ref ↦ elim (resolve_secret env.server env.vault s (some ref)) [
      | none ↦ (s, parsed)
      | some none ↦ (s, parsed)
      | some (some plain) ↦
          elim (store_secret env.server env.vault s (config_vault_key_secret_name group path)
            config_vault_field plain) [
              | none ↦ (s, parsed)
              | some (t, new_ref) ↦ (t, set_by_path path (text new_ref) parsed)
            ]
    ]
  ]

  unfoldable pub copy_keys : ℕ → List (List String) → S × Fields → S × Fields
  copy_keys group [] state = state
  copy_keys group (path ∷ paths) state = copy_keys group paths (copy_key group path state)

  -- The loop of `deleteGroupVaultSecrets`: a deletion that throws is only logged.
  unfoldable pub delete_keys : ℕ → List (List String) → Fields → S → S
  unfolding ref_at
  delete_keys group [] parsed s = s
  delete_keys group (path ∷ paths) parsed s =
      delete_keys group paths parsed (elim (ref_at parsed path) [
        | none ↦ s
        | some ref ↦
            elim (delete_secret env.server env.vault s (config_vault_key_secret_name group path)
              config_vault_field) [ none ↦ s | some t ↦ t ]
      ])

  unfoldable pub delete_group_vault_secrets : Group → S → S
  unfolding delete_keys parse_yaml
  delete_group_vault_secrets group s =
      if not env.vault.enabled || not (truthy group.yaml_content)
      then s
      else delete_keys group.id group.sensitive_keys (parse_yaml env.yaml group.yaml_content) s
