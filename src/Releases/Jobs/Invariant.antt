-- ===== src/Releases/Jobs/Invariant.antt =====
-- What the background calls of apps/upload/src/releases.service.ts can do to the status of a
-- release, in whatever order they run.
use mathlib.Core.List.{Forall₂}
use mathlib.Core.List.Forall₂.{nil, cons}
use upload.Prelude.{
  ℕ, String, Bool, true, false, ◌&&◌, ◌==◌, String_eq, ◌≡◌, ◌≢◌, refl, sym, ◌∙◌, ap, List, [], ◌∷◌,
  arith, map_where, All, Distinct, Bool-cases, Option-cases, inl, inr, subst,
}
use upload.Storage.Orm.{Orm, IsSql}
use upload.Storage.Enums.{ReleaseStatus, in_review, released, ReleaseStatus_eq}
use upload.Storage.Rows.{Release}
use upload.Storage.Db.{Db, of_version, same_version, same_catalog_id, HasUniqueVersions}
use upload.Files.Sync.{may_restore, set_status}
use upload.Files.Sync.Laws.{maybe_restore_released_status_lem}
use upload.Storage.Minio.{Minio}
use upload.Releases.{
  Job, update_latest, refresh, send_changed, maybe_restore, update_latest_for_project,
  get_release_entity,
}
use upload.Releases.Refresh.{Findings, is_ready, is_terminal, examine, refresh_release_state}
use upload.Releases.Refresh.Table.{
  regulation_counts, settle, refresh_table, refresh_missing, refresh_terminal,
}
use upload.Releases.Jobs.{run_job, Step, run, Schedule, start, then_run}

-- The changes of status that one call makes: a refresh, or the recovery of a failed release.
pub data Move : ReleaseStatus → ReleaseStatus → Type 0 where
  pass : Move in_review released
  demote : Move released in_review
  fail : Move released ReleaseStatus.error
  recover : Move ReleaseStatus.error released

pub data Moves (s : ReleaseStatus) : ReleaseStatus → Type 0 where
  stay : Moves s s
  move : {t u : ReleaseStatus} → Moves s t → Move t u → Moves s u

pub Moves-trans : {s t u : ReleaseStatus} → Moves s t → Moves t u → Moves s u
Moves-trans m stay = m
Moves-trans m (move n k) = move (Moves-trans m n) k

-- The status after a refresh, by whether the release is justified and a file is missing.
next : Bool → Bool → ReleaseStatus → ReleaseStatus
next true missing in_review = released
next false true released = ReleaseStatus.error
next false false released = in_review
next _ _ s = s

next-Moves : (justified missing : Bool) (s : ReleaseStatus) → Moves s (next justified missing s)
unfolding next
next-Moves true _ in_review = move stay pass
next-Moves false true released = move stay fail
next-Moves false false released = move stay demote
next-Moves true _ s = stay
next-Moves false true s = stay
next-Moves false false s = stay

settle-next :
    (now : ℕ) (found : Findings) (counts : ℕ × ℕ) (r : Release)
    → (settle now found counts r).status
      ≡ next (found.regulations_compliant && is_ready found) found.storage_missing r.status
unfolding settle next
settle-next now found counts r = ground arith

-- A row later: the same release, with a status that moves lead to.
pub record Later (r s : Release) : Type 0 where
  pub catalog_id : r.catalog_id ≡ s.catalog_id
  pub project : r.project ≡ s.project
  pub version : r.version ≡ s.version
  pub moves : Moves r.status s.status

abbrev pub LaterRows : List Release → List Release → Type 0
LaterRows = Forall₂ Later

Later-refl : (r : Release) → Later r r
Later-refl r = record { catalog_id = refl; project = refl; version = refl; moves = stay }

Later-trans : {r s t : Release} → Later r s → Later s t → Later r t
Later-trans a b = record {
  catalog_id = a.catalog_id ∙ b.catalog_id;
  project = a.project ∙ b.project;
  version = a.version ∙ b.version;
  moves = Moves-trans a.moves b.moves;
}

pub LaterRows-refl : (rows : List Release) → LaterRows rows rows
LaterRows-refl [] = nil
LaterRows-refl (r ∷ rows) = cons (Later-refl r) (LaterRows-refl rows)

pub LaterRows-trans : {a b c : List Release} → LaterRows a b → LaterRows b c → LaterRows a c
LaterRows-trans nil k = k
LaterRows-trans (cons h t) (cons h' t') = cons (Later-trans h h') (LaterRows-trans t t')

pub LaterRows-map_where :
    (p : Release → Bool) (f : Release → Release) (rows : List Release)
    → ((r : Release) → p r ≡ true → Later r (f r))
    → LaterRows rows (map_where p f rows)
LaterRows-map_where p f [] h = nil
LaterRows-map_where p f (r ∷ rows) h =
    cons
      (elim (Bool-cases (p r)) [ inl hit ↦ rw hit (h r hit) | inr miss ↦ rw miss (Later-refl r) ])
      (LaterRows-map_where p f rows h)

settle-Later :
    (now : ℕ) (found : Findings) (counts : ℕ × ℕ) (r : Release)
    → Later r (settle now found counts r)
settle-Later now found counts r = record {
  catalog_id = unfold settle in ground arith;
  project = unfold settle in ground arith;
  version = unfold settle in ground arith;
  moves = subst (Moves r.status) (sym (settle-next now found counts r)) (next-Moves _ _ r.status);
}

-- The unique index survives.
differs-Later :
    (r s : Release) {rows later : List Release}
    → Later r s
    → LaterRows rows later
    → All (λ x. same_version r x ≡ false) rows
    → All (λ x. same_version s x ≡ false) later
differs-Later r s h nil d = tt
differs-Later r s h (cons {a = x} {b = y} k t) d =
    (ground (arith, h.project, h.version, k.project, k.version), differs-Later r s h t d.1)

pub Distinct-later :
    {rows later : List Release}
    → LaterRows rows later
    → Distinct same_version rows
    → Distinct same_version later
Distinct-later nil d = tt
Distinct-later (cons {a = x} {b = y} h t) d = (differs-Later x y h t d.0, Distinct-later t d.1)

ids-Later :
    (r s : Release) {rows later : List Release}
    → Later r s
    → LaterRows rows later
    → All (λ x. same_catalog_id r x ≡ false) rows
    → All (λ x. same_catalog_id s x ≡ false) later
ids-Later r s h nil d = tt
ids-Later r s h (cons {a = x} {b = y} k t) d =
    (ground (arith, h.catalog_id, k.catalog_id), ids-Later r s h t d.1)

Distinct-ids-later :
    {rows later : List Release}
    → LaterRows rows later
    → Distinct same_catalog_id rows
    → Distinct same_catalog_id later
Distinct-ids-later nil d = tt
Distinct-ids-later (cons {a = x} {b = y} h t) d = (ids-Later x y h t d.0, Distinct-ids-later t d.1)

-- Both unique indexes of the table.
abbrev pub HasUniqueKeys : Db → Type 0
HasUniqueKeys db = HasUniqueVersions db × Distinct same_catalog_id db.releases

-- A release that may be restored is in error or in review.
restored-Later : (r : Release) → may_restore r ≡ true → Later r (set_status released r)
restored-Later r h = record {
  catalog_id = refl;
  project = refl;
  version = refl;
  moves = elim (Bool-cases (r.status == ReleaseStatus.error)) [
    | inl failed ↦
        subst (λ s. Moves s released)
          (sym ((ReleaseStatus_eq.same_iff r.status ReleaseStatus.error).0 failed))
          (move stay recover)
    | inr other ↦
        subst (λ s. Moves s released)
          (sym ((ReleaseStatus_eq.same_iff r.status in_review).0 (ground arith))) (move stay pass)
  ];
}

module _ (orm : Orm) (sql : IsSql orm) (bucket_name : String) where
  pub refresh-Later :
      (minio : Minio) (now project : ℕ) (version : String) (db : Db)
      → HasUniqueVersions db
      → LaterRows db.releases
          (refresh_release_state orm minio bucket_name now project version db).0.releases
  refresh-Later minio now project version db unique =
      elim (Option-cases (get_release_entity orm db project version)) [
        | inl missing ↦
            subst (LaterRows db.releases)
              (ap (λ s. s.0.releases)
                (sym (refresh_missing orm minio bucket_name now project version db missing)))
              (LaterRows-refl db.releases)
        | inr (view, read) ↦ elim (Bool-cases (is_terminal view.release)) [
          | inl terminal ↦
              subst (LaterRows db.releases)
                (ap (λ s. s.0.releases)
                  (sym (
                    refresh_terminal orm minio bucket_name now project version db view read
                      terminal)))
                (LaterRows-refl db.releases)
          | inr alive ↦
              subst (LaterRows db.releases)
                (sym (
                  refresh_table orm minio bucket_name now project version db view sql unique read
                    alive))
                (let found = (examine orm minio bucket_name project version view db).0 in
                  let counts = regulation_counts orm project version db in
                  LaterRows-map_where (of_version project version) (settle now found counts)
                    db.releases (λ r _. settle-Later now found counts r))
        ]
      ]

  -- The update of the latest marks.
  pub update_latest-Later :
      (project : ℕ) (rows : List Release) → LaterRows rows (update_latest_for_project project rows)
  unfolding update_latest_for_project
  update_latest-Later project rows =
      LaterRows-map_where _ _ rows
        (λ r _. record { catalog_id = refl; project = refl; version = refl; moves = stay })

  run_job-Later :
      (minio : Minio) (now : ℕ) (job : Job) (db : Db)
      → HasUniqueKeys db
      → LaterRows db.releases (run_job orm bucket_name minio now job db).0.releases
  unfolding run_job update_latest_for_project
  run_job-Later minio now (update_latest project) db unique =
      update_latest-Later project db.releases
  run_job-Later minio now (refresh project version) db unique =
      refresh-Later minio now project version db unique.0
  run_job-Later minio now (send_changed project catalog_id event) db unique =
      LaterRows-refl db.releases
  run_job-Later minio now (maybe_restore catalog_id) db unique =
      subst (LaterRows db.releases)
        (sym (
          ap (λ (d : Db). d.releases)
            (maybe_restore_released_status_lem orm catalog_id db sql unique.1)))
        (LaterRows-map_where _ _ db.releases (λ r hit. restored-Later r (ground arith)))

  Step-Later :
      {s t : Db × List Job}
      → Step orm bucket_name s t
      → HasUniqueKeys s.0
      → LaterRows s.0.releases t.0.releases
  Step-Later (run {db} minio now before job after e) unique = run_job-Later minio now job db unique

  Schedule-rows :
      {s t : Db × List Job}
      → Schedule orm bucket_name s t
      → HasUniqueKeys s.0
      → LaterRows s.0.releases t.0.releases × HasUniqueKeys t.0
  Schedule-rows {s} start unique = (LaterRows-refl s.0.releases, unique)
  Schedule-rows (then_run before st) unique =
      let (rows, unique') = Schedule-rows before unique in
      let next_rows = Step-Later st unique' in
      (
        LaterRows-trans rows next_rows,
        (Distinct-later next_rows unique'.0, Distinct-ids-later next_rows unique'.1),
      )

Moves-fixed :
    {s t : ReleaseStatus}
    → Moves s t
    → s ≢ in_review
    → s ≢ released
    → s ≢ ReleaseStatus.error
    → s ≡ t
Moves-fixed stay n m k = refl
Moves-fixed (move h pass) n m k = absurd (n (Moves-fixed h n m k))
Moves-fixed (move h demote) n m k = absurd (m (Moves-fixed h n m k))
Moves-fixed (move h fail) n m k = absurd (m (Moves-fixed h n m k))
Moves-fixed (move h recover) n m k = absurd (k (Moves-fixed h n m k))

-- Whatever of the calls of `Releases.Jobs` wait and in whatever order they run, one at a time, the
-- table keeps its rows and their keys, and the status of each row moves only from in review to
-- released, from released to in review or error, and from error to released; so a draft, approved or
-- archived release keeps its status, and versions and ids stay unique. They are unique at the start.
pub Schedule-moves :
    (orm : Orm) (bucket_name : String) (s t : Db × List Job)
    → IsSql orm
    → HasUniqueKeys s.0
    → Schedule orm bucket_name s t
    → LaterRows s.0.releases t.0.releases × HasUniqueKeys t.0
Schedule-moves orm bucket_name s t sql unique runs = Schedule-rows orm sql bucket_name runs unique

-- So a draft, approved or archived release has its status at the end of every schedule.
pub Later-keeps :
    (r s : Release)
    → Later r s
    → r.status ≢ in_review
    → r.status ≢ released
    → r.status ≢ ReleaseStatus.error
    → r.status ≡ s.status
Later-keeps r s h n m k = Moves-fixed h.moves n m k
