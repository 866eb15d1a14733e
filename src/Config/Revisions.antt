-- ===== src/Config/Revisions.antt =====
-- The life of a revision, in apps/upload/src/config/config.service.ts: `createDraftRevision`,
-- `applyRevision`, `deleteDraftRevision` and the reading of revisions. What `applyRevision` goes on
-- to do after its table is written is its list of follow-ups.
pub mod Counts
pub mod Rows
pub mod Invariant
pub mod Keeps
use Prim.Native.String
use text.Mathlib.Text.{starts_with}
use upload.Prelude.{
  ℕ, ℕ_eq, ltb, String, Bool, true, Option, none, some, List, [], ◌∷◌, ◌++◌, ◌==◌, if◌then◌else◌,
}
use upload.Vault.Text.{drop_chars}
use upload.Config.Rows.{RevisionStatus, draft, active, archived, Version, Revision, Group}
use upload.Config.Version.{compute_next_sem_ver}
use upload.Config.Secrets.{delete_group_vault_secrets}
use upload.Config.Groups.{clone_group_to_revision, or_option}
use upload.Config.Store.{
  Store, Env, Answer, ok, not_found, bad_request, failed, M, continue, ◌>>=◌, ◌>>◌, done, fail, ask,
  change, ProjectType, product, config, config_map, ConfigProject, require_config_project,
  with_status, find_revision, next_revision_number, insert_draft, groups_of, archive_active,
}

-- The calls that follow when a revision has become active.
pub data FollowUp : Type 0 where
  update_release : ℕ → Version → FollowUp
  cache_config : String → Version → FollowUp
  cascade : ℕ → FollowUp

abbrev pub groups_or_empty {ℓ} : {A : Type ℓ} → Option (List A) → List A
groups_or_empty none = []
groups_or_empty (some groups) = groups

abbrev pub sem_ver_of : Option Revision → Option Version
sem_ver_of none = none
sem_ver_of (some r) = r.sem_ver

unfoldable pub follow_ups : ConfigProject → Version → List FollowUp
follow_ups project version = elim project.project_type [
  | product ↦ []
  | config ↦
      if starts_with project.name "config:"
      then update_release project.id version ∷ cache_config (drop_chars 7 project.name) version ∷ []
      else []
  | config_map ↦ cascade project.id ∷ []
]

module _ {S : Type 0} (env : Env S) where
  -- The groups of a revision that may not be there.
  unfoldable pub groups_of_found : Option Revision → Store S → List Group
  unfolding groups_of
  groups_of_found none s = []
  groups_of_found (some r) s = groups_of env r.id s

  -- `save` of a revision that has a key.
  unfoldable pub save_revision : Revision → M S (Unit {0})
  save_revision row =
      change λ s. record s {
        revisions = (env.orm.update (λ r. r.id == row.id) (λ _. row) s.revisions).0;
      }

  unfoldable pub activated : Revision → Version → Option String → ℕ → Revision
  activated row version applied_by now = record row {
    sem_ver = some version;
    status = active;
    applied_by = applied_by;
    applied_at = some now;
  }

  unfoldable pub apply_draft :
      ConfigProject
      → Revision
      → Option Revision
      → Option String
      → ℕ
      → M S (Revision × List FollowUp)
  unfolding archive_active groups_of groups_of_found save_revision activated compute_next_sem_ver
      follow_ups
  apply_draft project row previous applied_by now = do
    draft_groups ← ask (groups_of env row.id)
    previous_groups ← ask (groups_of_found previous)
    archive_active env project.id
    let version = compute_next_sem_ver env.yaml previous_groups draft_groups (sem_ver_of previous)
    let applied = activated row version applied_by now
    save_revision applied
    done (applied, follow_ups project version)

  unfoldable pub apply_revision :
      Option ConfigProject → Option String → ℕ → M S (Revision × List FollowUp)
  unfolding require_config_project find_revision apply_draft
  apply_revision found applied_by now = do
    project ← require_config_project found
    existing ← ask (find_revision env project.id draft)
    previous ← ask (find_revision env project.id active)
    elim existing [
      | none ↦ fail not_found
      | some row ↦ apply_draft project row previous applied_by now
    ]

  -- The clones are made one after another.
  unfoldable pub clone_groups : List Group → ℕ → M S (Unit {0})
  unfolding clone_group_to_revision
  clone_groups [] target s = (s, ok tt)
  clone_groups (g ∷ groups) target s =
      continue (clone_group_to_revision env g target s) (λ _. clone_groups groups target)

  -- The newest archived revision.
  unfoldable pub newest : Option Revision → List Revision → Option Revision
  newest best [] = best
  newest none (r ∷ rows) = newest (some r) rows
  newest (some b) (r ∷ rows) =
      newest (some (if ltb b.revision_number r.revision_number then r else b)) rows

  -- The groups of the active revision, or else of the newest archived one.
  unfoldable pub source_groups : ℕ → Store S → List Group
  unfolding find_revision newest groups_of_found
  source_groups project s =
      let archived_rows = env.orm.find (with_status project archived) s.revisions in
      groups_of_found (or_option (find_revision env project active s) (newest none archived_rows)) s

  unfoldable pub copy_source : ℕ → Revision → M S Revision
  unfolding source_groups clone_groups
  copy_source project row = do
    source ← ask (source_groups project)
    clone_groups source row.id
    done row

  unfoldable pub create_draft_revision : Option ConfigProject → M S Revision
  unfolding require_config_project find_revision next_revision_number insert_draft copy_source
  create_draft_revision found = do
    project ← require_config_project found
    existing ← ask (find_revision env project.id draft)
    number ← ask (next_revision_number env project.id)
    elim existing [
      | some r ↦ fail bad_request
      | none ↦ insert_draft env project.id number >>= copy_source project.id
    ]

  unfoldable pub delete_all_secrets : List Group → S → S
  unfolding delete_group_vault_secrets
  delete_all_secrets [] s = s
  delete_all_secrets (g ∷ groups) s = delete_all_secrets groups (delete_group_vault_secrets env g s)

  -- The rows of the groups go with their revision (ON DELETE CASCADE).
  unfoldable pub delete_draft_revision : Option ConfigProject → M S Bool
  unfolding require_config_project find_revision groups_of delete_all_secrets
  delete_draft_revision found = do
    project ← require_config_project found
    existing ← ask (find_revision env project.id draft)
    elim existing [
      | none ↦ fail not_found
      | some row ↦
          change (λ s. record s {
            secrets =
                if env.vault.enabled
                then delete_all_secrets (groups_of env row.id s) s.secrets
                else s.secrets;
            revisions = env.orm.delete (λ r. r.id == row.id) s.revisions;
            groups = env.orm.delete (λ g. g.revision_id == row.id) s.groups;
          })
          >> done true
    ]

  -- `getActiveConfigSemVerForDevice` with the CONFIG project of the device.
  unfoldable pub get_active_config_sem_ver : Option ConfigProject → Store S → Option Version
  unfolding find_revision
  get_active_config_sem_ver none s = none
  get_active_config_sem_ver (some project) s = sem_ver_of (find_revision env project.id active s)
