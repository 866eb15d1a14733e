-- ===== src/Cron/Release.antt =====
-- What releasing a lock does, libs/common/src/safe-cron/safe-cron.service.ts.
use upload.Prelude.{
  ℕ, ℕ_eq, String, String_eq, ltb, false, Option, none, some, List, [], ◌∷◌, map, ◌==◌, ◌≡◌, refl,
  ap, ap₂, ◌∙◌, ==-refl, arith, if◌then◌else◌, inl, inr, Bool-cases, Option-cases,
}
use upload.Storage.Orm.{Orm, IsSql, on_rows, by_rows}
use upload.Cron.{JobRow, later, find_last_job, is_job_running, release_job_lock}

abbrev apply : (JobRow → JobRow) → Option JobRow → Option JobRow
apply g none = none
apply g (some r) = some (g r)

-- A change of the rows that keeps their names and start times keeps which one is the last.
module _ (g : JobRow → JobRow) (name-kept : (r : JobRow) → (g r).name ≡ r.name)
    (start-kept : (r : JobRow) → (g r).start_time ≡ r.start_time) where
  later-map : (r : JobRow) (o : Option JobRow) → later (g r) (apply g o) ≡ apply g (later r o)
  later-map r none = refl
  later-map r (some s) =
      let same : ltb (g r).start_time (g s).start_time ≡ ltb r.start_time s.start_time =
        ap₂ ltb (start-kept r) (start-kept s) in
      elim (Bool-cases (ltb r.start_time s.start_time)) [
        | inl less ↦ rw (same ∙ less, less) refl
        | inr more ↦ rw (same ∙ more, more) refl
      ]

  last-map :
      (name : String) (rows : List JobRow)
      → find_last_job name (map g rows) ≡ apply g (find_last_job name rows)
  unfolding find_last_job
  last-map name [] = refl
  last-map name (r ∷ rows) =
      let same : ((g r).name == name) ≡ (r.name == name) = ap (λ n. n == name) (name-kept r) in
      elim (Bool-cases (r.name == name)) [
        | inl mine ↦
            rw (same ∙ mine, mine, last-map name rows) (later-map r (find_last_job name rows))
        | inr other ↦ rw (same ∙ other, other) (last-map name rows)
      ]

ended : ℕ → ℕ → JobRow → JobRow
ended id time r = if r.id == id then record r { end_time = some time } else r

release_rows :
    (orm : Orm) (to_column : ℕ → ℕ) (now then_now : ℕ) (name : String) (rows : List JobRow)
    → is_job_running then_now name (release_job_lock (on_rows orm) to_column now name rows) ≡ false
unfolding release_job_lock is_job_running ended
release_rows orm to_column now then_now name rows = elim (Option-cases (find_last_job name rows)) [
  | inl missing ↦ rw (missing, release_job_lock) (rw (missing, is_job_running) refl)
  | inr (job, found) ↦
      let last : find_last_job name (map (ended job.id (to_column now)) rows)
          ≡ some (ended job.id (to_column now) job) =
        last-map (ended job.id (to_column now)) (λ r. ground arith) (λ r. ground arith) name rows
        ∙ rw found refl in
      rw (found, release_job_lock) (rw (last, is_job_running) (ground (arith, ==-refl job.id)))
]

-- After a lock is released its job is not running at any time, whoever calls and whichever instance
-- has started the last run: the release ends the last run of the name, not the caller's own.
pub release_job_lock-idle :
    (orm : Orm) (to_column : ℕ → ℕ) (now then_now : ℕ) (name : String) (rows : List JobRow)
    → IsSql orm
    → is_job_running then_now name (release_job_lock orm to_column now name rows) ≡ false
release_job_lock-idle orm to_column now then_now name rows sql =
    by_rows (λ o. is_job_running then_now name (release_job_lock o to_column now name rows) ≡ false)
      orm sql (release_rows orm to_column now then_now name rows)
