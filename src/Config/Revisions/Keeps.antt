-- ===== src/Config/Revisions/Keeps.antt =====
-- The operations of apps/upload/src/config/config.service.ts on the revisions of a project keep the
-- table of revisions well formed.
use upload.Prelude.{
  ℕ, ℕ_eq, String, not, Option, none, some, List, [], ◌∷◌, ◌==◌, ◌≡◌, refl, arith, Option-cases,
  inl, inr,
}
use upload.Config.Rows.{RevisionStatus_eq, draft, active, Revision, Group}
use upload.Config.Store.{
  Store, Env, Answer, M, continue, done, find_revision, ConfigProject, ProjectType, product, config,
  config_map, require_config_project, insert_draft, next_revision_number,
}
use upload.Config.Store.Laws.{Untouched, Untouched-refl, Spares, continue-Untouched}
use upload.Config.Groups.Laws.{clone_group_to_revision-Spares}
use upload.Config.Groups.{clone_group_to_revision}
use upload.Config.Revisions.{
  apply_draft, apply_revision, create_draft_revision, delete_draft_revision, clone_groups,
  copy_source, source_groups, activated,
}
use upload.Config.Revisions.Counts.{count-false}
use upload.Config.Revisions.Rows.{
  delete-IsWell, archive-IsWell, active-archive, archive, activate-IsWell,
}
use upload.Config.Revisions.Invariant.{
  StoreIsWell, IsDraft, on_rows_env, found-In, none-count, GivesDraft, insert_draft-IsDraft,
}

-- What is not touched stays well formed.
pub Untouched-IsWell : {S : Type 0} (s t : Store S) → Untouched s t → StoreIsWell s → StoreIsWell t
Untouched-IsWell s t h w = rw (h.same_revisions, h.same_next) w

require_type :
    {S B : Type 0} (t : ProjectType) (project : ConfigProject) (s : Store S)
    (f : ConfigProject → M S B)
    → project.project_type ≡ t
    → StoreIsWell s
    → StoreIsWell (f project s).0
    → StoreIsWell (continue (require_config_project (some project) s) f).0
unfolding require_config_project
require_type product project s f e w k = rw e w
require_type config project s f e w k = rw e k
require_type config_map project s f e w k = rw e k

pub require-IsWell :
    {S B : Type 0} (found : Option ConfigProject) (s : Store S) (f : ConfigProject → M S B)
    → StoreIsWell s
    → ((project : ConfigProject) → StoreIsWell (f project s).0)
    → StoreIsWell (continue (require_config_project found s) f).0
unfolding require_config_project
require-IsWell none s f w k = w
require-IsWell (some project) s f w k =
    require_type project.project_type project s f refl w (k project)

module _ {S : Type 0} (env : Env S) where
  apply_draft-IsWell :
      (project : ConfigProject) (row : Revision) (previous : Option Revision)
      (applied_by : Option String) (now : ℕ) (s : Store S)
      → IsDraft project.id row s
      → StoreIsWell (apply_draft (on_rows_env env) project row previous applied_by now s).0
  unfolding apply_draft activated
  apply_draft-IsWell project row previous applied_by now s d =
      activate-IsWell project.id row.id _ (archive project.id s.revisions) s.next_revision
        (archive-IsWell project.id s.revisions s.next_revision d.well) (λ x. refl) (λ x e. refl)
        (active-archive project.id s.revisions)
        (λ q other.
          count-false _ (archive project.id s.revisions) (λ x. ground (arith, d.is_draft)))

  pub apply-IsWell :
      (found : Option ConfigProject) (applied_by : Option String) (now : ℕ) (s : Store S)
      → StoreIsWell s
      → StoreIsWell (apply_revision (on_rows_env env) found applied_by now s).0
  unfolding apply_revision
  apply-IsWell found applied_by now s w = require-IsWell found s _ w λ project.
      elim (Option-cases (find_revision (on_rows_env env) project.id draft s)) [
        | inl absent ↦ rw absent w
        | inr (row, there) ↦
            let (is_draft, member) = found-In env project.id draft s row there in
            rw there (
              apply_draft-IsWell project row (find_revision (on_rows_env env) project.id active s)
                applied_by now s (record { well = w; member = member; is_draft = is_draft }))
      ]

  clone_groups-Spares :
      (groups : List Group) (target : ℕ) → Spares (clone_groups (on_rows_env env) groups target)
  unfolding clone_groups
  clone_groups-Spares [] target s = Untouched-refl s
  clone_groups-Spares (g ∷ groups) target s =
      continue-Untouched s (clone_group_to_revision (on_rows_env env) g target s)
        (λ _. clone_groups (on_rows_env env) groups target)
        (clone_group_to_revision-Spares (on_rows_env env) g target s)
        (λ _. clone_groups-Spares groups target)

  -- What follows a new draft.
  pub after_draft-IsWell :
      {B : Type 0} (p : ℕ) (r : Store S × Answer Revision) (f : Revision → M S B)
      → GivesDraft p r
      → ((d : Revision) (t : Store S) → IsDraft p d t → StoreIsWell (f d t).0)
      → StoreIsWell (continue r f).0
  after_draft-IsWell p r f (t, d, e, is_draft) k = rw e (k d t is_draft)

  copy_source-Spares : (p : ℕ) (row : Revision) → Spares (copy_source (on_rows_env env) p row)
  unfolding copy_source
  copy_source-Spares p row s =
      let source = source_groups (on_rows_env env) p s in
      continue-Untouched s (clone_groups (on_rows_env env) source row.id s) (λ _. done row)
        (clone_groups-Spares source row.id s) (λ a u. Untouched-refl u)

  pub create_draft-IsWell :
      (found : Option ConfigProject) (s : Store S)
      → StoreIsWell s
      → StoreIsWell (create_draft_revision (on_rows_env env) found s).0
  unfolding create_draft_revision
  create_draft-IsWell found s w = require-IsWell found s _ w λ project.
      elim (Option-cases (find_revision (on_rows_env env) project.id draft s)) [
        | inr (row, there) ↦ rw there w
        | inl absent ↦
            let number = next_revision_number (on_rows_env env) project.id s in
            rw absent (
              after_draft-IsWell {B = Revision} project.id
                (insert_draft (on_rows_env env) project.id number s)
                (copy_source (on_rows_env env) project.id)
                (insert_draft-IsDraft env project.id number s w
                  (none-count env project.id draft s absent))
                (λ d t is_draft.
                  Untouched-IsWell t _ (copy_source-Spares project.id d t) is_draft.well))
      ]

  pub delete_draft-IsWell :
      (found : Option ConfigProject) (s : Store S)
      → StoreIsWell s
      → StoreIsWell (delete_draft_revision (on_rows_env env) found s).0
  unfolding delete_draft_revision
  delete_draft-IsWell found s w = require-IsWell found s _ w λ project.
      elim (Option-cases (find_revision (on_rows_env env) project.id draft s)) [
        | inl absent ↦ rw absent w
        | inr (row, there) ↦
            rw there (delete-IsWell s.revisions s.next_revision (λ r. not (r.id == row.id)) w)
      ]
