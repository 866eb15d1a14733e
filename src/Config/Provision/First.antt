-- ===== src/Config/Provision/First.antt =====
-- The first publication adds an active revision to those that are there.
use upload.Storage.Orm.{IsSql, by_rows}
use upload.Prelude.{
  ◌∙◌, ap, In, ℕ, ℕ_eq, suc, String, String_eq, true, not, ◌&&◌, some, List, [], ◌∷◌, ◌++◌, ◌==◌,
  ◌≡◌, refl, arith, map_where, ==-refl,
}
use upload.Config.Rows.{RevisionStatus_eq, draft, active, Revision}
use upload.Config.Revisions.{FollowUp}
use upload.Config.Store.{
  Store, Env, Answer, ok, not_found, bad_request, failed, continue, with_status, find_revision,
}
use upload.Config.Provision.Laws.{Untouched-IsDraft}
use upload.Config.Store.Laws.{Untouched}
use upload.Config.Maps.{populate_draft_from_config_maps}
use upload.Config.Maps.Laws.{populate-Spares}
use upload.Config.Provision.{auto_publish_initial_revision, publish_initial}
use upload.Config.Revisions.Counts.{
  count, count-append, count-map_where, count-split, count-In, count-le,
}
use upload.Config.Revisions.Rows.{IsWell}
use upload.Config.Revisions.Invariant.{StoreIsWell, IsDraft, on_rows_env, found-In}

module _ (p : ℕ) (d : Revision) (rows : List Revision) (next : ℕ) (w : IsWell rows next)
    (member : In d rows) (is_draft : with_status p draft d ≡ true) where
  -- The row of the draft is not active.
  active-not_own :
      count (λ x. with_status p active x && not (x.id == d.id)) rows
      ≡ count (with_status p active) rows
  active-not_own = omega (
    arith,
    count-split (with_status p active) (λ x. x.id == d.id) rows,
    count-split (λ (x : Revision). x.id == d.id) (with_status p draft) rows,
    count-In (λ x. x.id == d.id && with_status p draft x) rows d member
        (ground (arith, ==-refl d.id)),
    count-le (λ x. with_status p active x && x.id == d.id)
        (λ x. x.id == d.id && not (with_status p draft x)) rows (λ x e. ground arith),
    w.own_id d.id,
  )

  module _ (f : Revision → Revision) (to_active : (x : Revision) → (f x).status ≡ active)
      (same_p : (x : Revision) → (f x).project_id ≡ x.project_id) where
    count-activate :
        count (with_status p active) (map_where (λ x. x.id == d.id) f rows)
        ≡ suc (count (with_status p active) rows)
    count-activate = omega (
      arith,
      active-not_own,
      count-map_where (with_status p active) (λ x. x.id == d.id) f rows,
      count-le (λ x. x.id == d.id && with_status p active (f x)) (λ x. x.id == d.id) rows
          (λ x e. ground arith),
      count-In (λ x. x.id == d.id && with_status p active (f x)) rows d member
          (ground (arith, ==-refl d.id, to_active d, same_p d)),
      w.own_id d.id,
    )

    count-publish :
        (row : Revision)
        → row.status ≡ draft
        → count (with_status p active) (map_where (λ x. x.id == d.id) f rows ++ row ∷ [])
          ≡ suc (count (with_status p active) rows)
    count-publish row new_draft = ground (
      arith,
      count-append (with_status p active) (map_where (λ x. x.id == d.id) f rows) row,
      count-activate,
    )

module _ {S : Type 0} (env : Env S) (p : ℕ) (device_id : String) (d : Revision) (now : ℕ) where
  publish_initial-active :
      (s : Store S)
      → IsDraft p d s
      → count
          (with_status p active)
          (publish_initial (on_rows_env env) p device_id d now s).0.revisions
        ≡ suc (count (with_status p active) s.revisions)
  unfolding publish_initial
  publish_initial-active s is_draft =
      count-publish p d s.revisions s.next_revision is_draft.well is_draft.member is_draft.is_draft
        _ (λ x. refl) (λ x. refl) _ refl

  after_populate :
      (s : Store S) (r : Store S × Answer (Unit {0})) (jobs : List FollowUp)
      → IsDraft p d s
      → Untouched s r.0
      → (continue r (λ _. publish_initial (on_rows_env env) p device_id d now)).1 ≡ ok jobs
      → count
          (with_status p active)
          (continue r (λ _. publish_initial (on_rows_env env) p device_id d now)).0.revisions
        ≡ suc (count (with_status p active) s.revisions)
  after_populate s (t, ok a) jobs is_draft h e =
      publish_initial-active t (Untouched-IsDraft p d s t h is_draft)
      ∙ ap (λ rows. suc (count (with_status p active) rows)) h.same_revisions
  after_populate s (t, not_found) jobs is_draft h e = cc
  after_populate s (t, bad_request) jobs is_draft h e = cc
  after_populate s (t, failed) jobs is_draft h e = cc

  auto_publish-active_rows :
      (device_type_ids : List ℕ) (s : Store S) (jobs : List FollowUp)
      → StoreIsWell s
      → find_revision (on_rows_env env) p draft s ≡ some d
      → (auto_publish_initial_revision (on_rows_env env) p device_id device_type_ids now s).1
        ≡ ok jobs
      → count
          (with_status p active)
          (auto_publish_initial_revision
            (on_rows_env env)
            p
            device_id
            device_type_ids
            now
            s).0.revisions
        ≡ suc (count (with_status p active) s.revisions)
  unfolding auto_publish_initial_revision
  auto_publish-active_rows device_type_ids s jobs w found e =
      let (is_draft, member) = found-In env p draft s d found in
      rw found (
        after_populate s
          (populate_draft_from_config_maps (on_rows_env env) d.id device_id device_type_ids s) jobs
          (record { well = w; member = member; is_draft = is_draft })
          (populate-Spares (on_rows_env env) d.id device_id device_type_ids s) (rw found at e))

-- The first publication of a project adds an active revision, and archives none.
pub auto_publish-active :
    {S : Type 0} (env : Env S) (p : ℕ) (device_id : String) (device_type_ids : List ℕ) (now : ℕ)
    (s : Store S) (d : Revision) (jobs : List FollowUp)
    → IsSql env.orm
    → StoreIsWell s
    → find_revision env p draft s ≡ some d
    → (auto_publish_initial_revision env p device_id device_type_ids now s).1 ≡ ok jobs
    → count
        (with_status p active)
        (auto_publish_initial_revision env p device_id device_type_ids now s).0.revisions
      ≡ suc (count (with_status p active) s.revisions)
auto_publish-active env p device_id device_type_ids now s d jobs sql w =
    by_rows
      (λ orm.
        find_revision (record env { orm = orm }) p draft s ≡ some d
        → (auto_publish_initial_revision (record env { orm = orm }) p device_id device_type_ids now
            s).1
          ≡ ok jobs
        → count (with_status p active)
            (auto_publish_initial_revision (record env { orm = orm }) p device_id device_type_ids
              now s).0.revisions
          ≡ suc (count (with_status p active) s.revisions))
      env.orm sql (auto_publish-active_rows env p device_id d now device_type_ids s jobs w)
