-- ===== src/Config/Provision.antt =====
-- The configurations of devices that follow the configuration maps, in
-- apps/upload/src/config/config.service.ts: provisioning, the first revision, and the revision that
-- a change of a map publishes.
pub mod Laws
pub mod First
use upload.Prelude.{
  ℕ, ℕ_eq, suc, String, String_eq, Bool, true, false, not, ◌&&◌, ◌||◌, Option, none, some, List, [],
  ◌∷◌, ◌++◌, ◌==◌, if◌then◌else◌, any, includes, map, length,
}
use upload.Prelude.Sets.{unique}
use upload.Vault.{store_secret}
use upload.Config.Json.{Value, text, Fields, empty, assign_all, is_present}
use upload.Config.Paths.{get_by_path, set_by_path}
use upload.Config.Rows.{RevisionStatus_eq, draft, active, Version, Revision, Group, Association}
use upload.Config.Version.{compute_next_sem_ver}
use upload.Config.Yaml.{dump_yaml}
use upload.Config.Secrets.{
  value_or_null, config_vault_key_secret_name, config_vault_field, resolve_group_yaml,
  delete_group_vault_secrets,
}
use upload.Config.Maps.{populate_draft_from_config_maps}
use upload.Config.Groups.{find_group, new_group, clone_group_to_revision}
use upload.Config.Revisions.{FollowUp, update_release, cache_config, groups_of_found, sem_ver_of}
use upload.Config.Store.{
  Store, Env, ok, failed, M, continue, ◌>>=◌, ◌>>◌, done, ask, change, get_or_create_draft_revision,
  find_revision, insert_draft, groups_of, next_group_position, save_group, archive_active,
}

module _ {S : Type 0} (env : Env S) where
  unfoldable pub provision_default_config_project : ℕ → M S (Unit {0})
  unfolding get_or_create_draft_revision groups_of save_group new_group
  provision_default_config_project project = do
    row ← get_or_create_draft_revision env project
    groups ← ask (groups_of env row.id)
    elim groups [
      | [] ↦ do
        save_group env (new_group row.id "getapp_enrollment" 0)
        save_group env (new_group row.id "getapp_config" 1)
        done tt
      | g ∷ rest ↦ done tt
    ]

  -- `update(draft.id, { status: ACTIVE, appliedAt, semVer })`
  unfoldable pub activate : ℕ → Version → ℕ → M S (Unit {0})
  activate id version now = change λ s. record s {
    revisions =
        (env.orm.update (λ r. r.id == id)
          (λ r. record r { status = active; applied_at = some now; sem_ver = some version })
          s.revisions).0;
  }

  abbrev pub initial_sem_ver : Version
  initial_sem_ver = record { major = 1; minor = 0; patch = 0 }

  unfoldable pub publish_initial : ℕ → String → Revision → ℕ → M S (List FollowUp)
  unfolding activate insert_draft
  publish_initial project device_id row now = do
    activate row.id initial_sem_ver now
    insert_draft env project (suc row.revision_number)
    done (update_release project initial_sem_ver ∷ cache_config device_id initial_sem_ver ∷ [])

  unfoldable pub auto_publish_initial_revision : ℕ → String → List ℕ → ℕ → M S (List FollowUp)
  unfolding find_revision populate_draft_from_config_maps publish_initial
  auto_publish_initial_revision project device_id device_type_ids now = do
    existing ← ask (find_revision env project draft)
    elim existing [
      | none ↦ done []
      | some row ↦
          populate_draft_from_config_maps env row.id device_id device_type_ids
          >> publish_initial project device_id row now
    ]

  unfoldable pub provision_project_content : ℕ → String → List ℕ → ℕ → M S (List FollowUp)
  unfolding provision_default_config_project auto_publish_initial_revision
  provision_project_content project device_id device_type_ids now = do
    provision_default_config_project project
    auto_publish_initial_revision project device_id device_type_ids now

  -- The groups of the previous revision whose names the draft does not have.
  unfoldable pub clone_missing : List Group → List String → ℕ → M S (Unit {0})
  unfolding clone_group_to_revision
  clone_missing [] names target s = (s, ok tt)
  clone_missing (g ∷ groups) names target s =
      if includes names g.name
      then clone_missing groups names target s
      else continue (clone_group_to_revision env g target s)
          (λ _. clone_missing groups names target)

  -- The draft takes the place of the active revision, and the next draft is made.
  unfoldable pub publish :
      ℕ → String → Revision → List Group → Option Version → ℕ → M S (List FollowUp)
  unfolding groups_of compute_next_sem_ver archive_active activate insert_draft
  publish project device_id row previous_groups previous_sem_ver now = do
    new_groups ← ask (groups_of env row.id)
    let version = compute_next_sem_ver env.yaml previous_groups new_groups previous_sem_ver
    archive_active env project
    activate row.id version now
    insert_draft env project (suc row.revision_number)
    done (update_release project version ∷ cache_config device_id version ∷ [])

  unfoldable pub keep_and_publish :
      ℕ → String → Revision → List Group → Option Version → ℕ → M S (List FollowUp)
  unfolding groups_of clone_missing publish
  keep_and_publish project device_id row previous_groups previous_sem_ver now = do
    draft_groups ← ask (groups_of env row.id)
    clone_missing previous_groups (map (λ (g : Group). g.name) draft_groups) row.id
    publish project device_id row previous_groups previous_sem_ver now

  unfoldable pub republish : ℕ → String → List ℕ → ℕ → Revision → M S (List FollowUp)
  unfolding find_revision groups_of_found populate_draft_from_config_maps keep_and_publish
  republish project device_id device_type_ids now row = do
    previous ← ask (find_revision env project active)
    previous_groups ← ask (groups_of_found env previous)
    populate_draft_from_config_maps env row.id device_id device_type_ids
    keep_and_publish project device_id row previous_groups (sem_ver_of previous) now

  unfoldable pub refresh_config_project_revision : ℕ → String → List ℕ → ℕ → M S (List FollowUp)
  unfolding get_or_create_draft_revision republish
  refresh_config_project_revision project device_id device_type_ids now =
      get_or_create_draft_revision env project >>= republish project device_id device_type_ids now
