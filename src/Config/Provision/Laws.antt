-- ===== src/Config/Provision/Laws.antt =====
-- The revision that a change of the maps publishes keeps the table well formed.
use upload.Prelude.{
  In, here, there, map, ℕ, ℕ_eq, suc, String, String_eq, Bool, true, false, not, ◌&&◌, Option, List,
  [], ◌∷◌, ◌++◌, ◌==◌, ◌≡◌, refl, arith, Bool-cases, inl, inr, map_where, ==-refl, includes,
}
use upload.Config.Rows.{RevisionStatus_eq, draft, active, Version, Revision, Group}
use upload.Config.Store.{
  Store, Env, Answer, ok, not_found, bad_request, failed, M, continue, with_status, find_revision,
  get_or_create_draft_revision, groups_of,
}
use upload.Config.Store.Laws.{Untouched, Untouched-refl, Spares, continue-Untouched}
use upload.Config.Groups.Laws.{clone_group_to_revision-Spares}
use upload.Config.Groups.{clone_group_to_revision}
use upload.Config.Maps.{populate_draft_from_config_maps}
use upload.Config.Maps.Laws.{populate-Spares}
use upload.Config.Provision.{
  publish, keep_and_publish, republish, clone_missing, refresh_config_project_revision,
}
use upload.Config.Revisions.{groups_of_found, sem_ver_of}
use upload.Config.Revisions.Counts.{count, count-split, count-In, count-le}
use upload.Config.Revisions.Rows.{
  IsWell, insert-IsWell, archive-IsWell, active-archive, archive, activate-IsWell,
  no_draft-activate,
}
use upload.Config.Revisions.Invariant.{StoreIsWell, IsDraft, on_rows_env, get_or_create-IsDraft}
use upload.Config.Revisions.Keeps.{Untouched-IsWell, after_draft-IsWell}

pub Untouched-IsDraft :
    {S : Type 0} (p : ℕ) (d : Revision) (s t : Store S)
    → Untouched s t
    → IsDraft p d s
    → IsDraft p d t
Untouched-IsDraft p d s t h is_draft = record {
  well = Untouched-IsWell s t h is_draft.well;
  member = rw h.same_revisions is_draft.member;
  is_draft = is_draft.is_draft;
}

-- A draft stays the draft across what spares the revisions.
continue-IsDraft :
    {S A B : Type 0} (p : ℕ) (d : Revision) (s : Store S) (r : Store S × Answer A) (f : A → M S B)
    → IsDraft p d s
    → Untouched s r.0
    → ((a : A) (t : Store S) → IsDraft p d t → StoreIsWell (f a t).0)
    → StoreIsWell (continue r f).0
continue-IsDraft p d s (t, ok a) f is_draft h k = k a t (Untouched-IsDraft p d s t h is_draft)
continue-IsDraft p d s (t, not_found) f is_draft h k = Untouched-IsWell s t h is_draft.well
continue-IsDraft p d s (t, bad_request) f is_draft h k = Untouched-IsWell s t h is_draft.well
continue-IsDraft p d s (t, failed) f is_draft h k = Untouched-IsWell s t h is_draft.well

In-map_where :
    (q : Revision → Bool) (f : Revision → Revision) (rows : List Revision) (d : Revision)
    → In d rows
    → q d ≡ false
    → In d (map_where q f rows)
In-map_where q f [] d m h = elim m [ ]
In-map_where q f (x ∷ rows) d here h = rw h here
In-map_where q f (x ∷ rows) d (there m) h = there (In-map_where q f rows d m h)

-- A row with the key of a row of a project is of that project.
same_project :
    (p : ℕ) (d : Revision) (rows : List Revision) (next : ℕ)
    → IsWell rows next
    → In d rows
    → with_status p draft d ≡ true
    → (q : ℕ) → (q == p) ≡ false
    → count (λ x. x.id == d.id && x.project_id == q) rows ≡ 0
same_project p d rows next w m is_draft q other = omega (
  arith,
  count-split (λ (x : Revision). x.id == d.id) (λ x. x.project_id == p) rows,
  count-In (λ x. x.id == d.id && x.project_id == p) rows d m (ground (arith, ==-refl d.id)),
  count-le (λ x. x.id == d.id && x.project_id == q) (λ x. x.id == d.id && not (x.project_id == p))
      rows (λ x e. ground arith),
  w.own_id d.id,
)

count_only :
    (p : ℕ) (d : Revision) (rows : List Revision) (next : ℕ) (f : Revision → Revision)
    → IsWell rows next
    → In d rows
    → with_status p draft d ≡ true
    → ((x : Revision) → (f x).project_id ≡ x.project_id)
    → (q : ℕ) → (q == p) ≡ false
    → count (λ x. x.id == d.id && (f x).project_id == q) rows ≡ 0
count_only p d rows next f w m is_draft same_p q other = omega (
  arith,
  count-le (λ x. x.id == d.id && (f x).project_id == q) (λ x. x.id == d.id && x.project_id == q)
      rows (λ x e. ground (arith, same_p x)),
  same_project p d rows next w m is_draft q other,
)

-- The draft takes the place of the active revision, and a new draft is added.
replace-IsWell :
    (p : ℕ) (d row : Revision) (rows : List Revision) (next : ℕ) (f : Revision → Revision)
    → IsWell rows next
    → In d rows
    → with_status p draft d ≡ true
    → ((x : Revision) → (f x).status ≡ active)
    → ((x : Revision) → (f x).id ≡ x.id)
    → ((x : Revision) → (f x).project_id ≡ x.project_id)
    → row.id ≡ next
    → row.status ≡ draft
    → row.project_id ≡ p
    → IsWell (map_where (λ x. x.id == d.id) f (archive p rows) ++ row ∷ []) (suc next)
replace-IsWell p d row rows next f w m is_draft to_active same_id same_p next_id new_draft of_p =
    let archived_well = archive-IsWell p rows next w in
    let there_still = In-map_where (with_status p active) _ rows d m (ground arith) in
    let activated = λ (q : ℕ) (other : (q == p) ≡ false).
      count_only p d (archive p rows) next f archived_well there_still is_draft same_p q other in
    insert-IsWell (map_where (λ x. x.id == d.id) f (archive p rows)) next row
      (activate-IsWell p d.id f (archive p rows) next archived_well to_active
        (λ x e. ground (arith, same_id x)) (active-archive p rows) activated)
      next_id new_draft
      (rw of_p (
        no_draft-activate p d.id f (archive p rows) next archived_well to_active
          (λ x e. ground (arith, same_id x)) (active-archive p rows) activated d there_still
          (==-refl d.id) is_draft))

module _ {S : Type 0} (env : Env S) where
  clone_missing-Spares :
      (groups : List Group) (names : List String) (target : ℕ)
      → Spares (clone_missing (on_rows_env env) groups names target)
  unfolding clone_missing
  clone_missing-Spares [] names target s = Untouched-refl s
  clone_missing-Spares (g ∷ groups) names target s = elim (Bool-cases (includes names g.name)) [
    | inl named ↦ rw named (clone_missing-Spares groups names target s)
    | inr missing ↦ rw missing (
        continue-Untouched s (clone_group_to_revision (on_rows_env env) g target s)
          (λ _. clone_missing (on_rows_env env) groups names target)
          (clone_group_to_revision-Spares (on_rows_env env) g target s)
          (λ _. clone_missing-Spares groups names target))
  ]

  publish-IsWell :
      (p : ℕ) (device_id : String) (d : Revision) (previous_groups : List Group)
      (previous_sem_ver : Option Version) (now : ℕ) (s : Store S)
      → IsDraft p d s
      → StoreIsWell
          (publish (on_rows_env env) p device_id d previous_groups previous_sem_ver now s).0
  unfolding publish
  publish-IsWell p device_id d previous_groups previous_sem_ver now s is_draft =
      replace-IsWell p d _ s.revisions s.next_revision _ is_draft.well is_draft.member
        is_draft.is_draft (λ x. refl) (λ x. refl) (λ x. refl) refl refl refl

  keep_and_publish-IsWell :
      (p : ℕ) (device_id : String) (d : Revision) (previous_groups : List Group)
      (previous_sem_ver : Option Version) (now : ℕ) (s : Store S)
      → IsDraft p d s
      → StoreIsWell
          (keep_and_publish
            (on_rows_env env)
            p
            device_id
            d
            previous_groups
            previous_sem_ver
            now
            s).0
  unfolding keep_and_publish
  keep_and_publish-IsWell p device_id d previous_groups previous_sem_ver now s is_draft =
      let names = map (λ (g : Group). g.name) (groups_of (on_rows_env env) d.id s) in
      continue-IsDraft p d s (clone_missing (on_rows_env env) previous_groups names d.id s)
        (λ _. publish (on_rows_env env) p device_id d previous_groups previous_sem_ver now) is_draft
        (clone_missing-Spares previous_groups names d.id s)
        (λ _ t h. publish-IsWell p device_id d previous_groups previous_sem_ver now t h)

  republish-IsWell :
      (p : ℕ) (device_id : String) (device_type_ids : List ℕ) (now : ℕ) (d : Revision) (s : Store S)
      → IsDraft p d s
      → StoreIsWell (republish (on_rows_env env) p device_id device_type_ids now d s).0
  unfolding republish
  republish-IsWell p device_id device_type_ids now d s is_draft =
      let previous = find_revision (on_rows_env env) p active s in
      let previous_groups = groups_of_found (on_rows_env env) previous s in
      continue-IsDraft p d s
        (populate_draft_from_config_maps (on_rows_env env) d.id device_id device_type_ids s)
        (λ _.
          keep_and_publish (on_rows_env env) p device_id d previous_groups (sem_ver_of previous)
            now)
        is_draft (populate-Spares (on_rows_env env) d.id device_id device_type_ids s)
        (λ _ t h.
          keep_and_publish-IsWell p device_id d previous_groups (sem_ver_of previous) now t h)

  pub refresh-IsWell :
      (p : ℕ) (device_id : String) (device_type_ids : List ℕ) (now : ℕ) (s : Store S)
      → StoreIsWell s
      → StoreIsWell
          (refresh_config_project_revision (on_rows_env env) p device_id device_type_ids now s).0
  unfolding refresh_config_project_revision
  refresh-IsWell p device_id device_type_ids now s w =
      after_draft-IsWell env p (get_or_create_draft_revision (on_rows_env env) p s)
        (republish (on_rows_env env) p device_id device_type_ids now)
        (get_or_create-IsDraft env p s w)
        (λ d t h. republish-IsWell p device_id device_type_ids now d t h)
