-- ===== src/Cron/Race.antt =====
-- Two instances of libs/common/src/safe-cron/safe-cron.service.ts that try a lock at once.
use upload.Prelude.{
  ℕ, String, String_eq, ℕ_eq, true, false, none, List, [], ◌∷◌, ◌++◌, ◌==◌, ◌≡◌, refl, arith, ap,
  ◌∙◌, ◌+◌, ◌≤◌, All,
}
use upload.Storage.Orm.{Orm, IsSql, on_rows, by_rows}
use upload.Cron.{lock_timeout_ms, JobRow, violates, is_job_running, save_lock, try_acquire_job_lock}
use upload.Cron.Laws.{StartsBy, try_all, exclusion}

module _ (orm : Orm) (to_column : ℕ → ℕ) where
  violates-append :
      (job new : JobRow) (rows : List JobRow)
      → violates job rows ≡ false
      → (new.start_time == job.start_time) ≡ false
      → violates job (rows ++ new ∷ []) ≡ false
  violates-append job new [] h apart = ground arith
  violates-append job new (r ∷ rows) h apart =
      let rest = violates-append job new rows in ground arith

  race_rows :
      (id now other_id other_now : ℕ) (name : String) (rows : List JobRow)
      → violates (record { id = id; name = name; start_time = to_column now; end_time = none }) rows
        ≡ false
      → violates
          (record { id = other_id; name = name; start_time = to_column other_now; end_time = none })
          rows
        ≡ false
      → (to_column now == to_column other_now) ≡ false
      → ((save_lock (on_rows orm) to_column id now name rows).0 ≡ true)
        × ((save_lock
              (on_rows orm)
              to_column
              other_id
              other_now
              name
              (save_lock (on_rows orm) to_column id now name rows).1).0
            ≡ true)
  unfolding save_lock
  race_rows id now other_id other_now name rows free other_free apart =
      let other_still_free =
        violates-append
          (record { id = other_id; name = name; start_time = to_column other_now; end_time = none })
          (record { id = id; name = name; start_time = to_column now; end_time = none }) rows
          other_free apart in
      rw free (refl, rw other_still_free refl)

  race_saves :
      (id now other_id other_now : ℕ) (name : String) (rows : List JobRow)
      → IsSql orm
      → violates (record { id = id; name = name; start_time = to_column now; end_time = none }) rows
        ≡ false
      → violates
          (record { id = other_id; name = name; start_time = to_column other_now; end_time = none })
          rows
        ≡ false
      → (to_column now == to_column other_now) ≡ false
      → ((save_lock orm to_column id now name rows).0 ≡ true)
        × ((save_lock orm to_column other_id other_now name
              (save_lock orm to_column id now name rows).1).0
            ≡ true)
  race_saves id now other_id other_now name rows sql free other_free apart =
      by_rows
        (λ o.
          ((save_lock o to_column id now name rows).0 ≡ true)
          × ((save_lock o to_column other_id other_now name
                (save_lock o to_column id now name rows).1).0
              ≡ true))
        orm sql (race_rows id now other_id other_now name rows free other_free apart)

  idle_acquires :
      (id now : ℕ) (name : String) (rows : List JobRow)
      → is_job_running now name rows ≡ false
      → try_acquire_job_lock orm to_column id now name rows
        ≡ save_lock orm to_column id now name rows
  unfolding try_acquire_job_lock
  idle_acquires id now name rows idle = rw idle refl

  -- Two instances find at different seconds that a job is not running, and no row of the job starts
  -- at the second of either. Where one of them has acquired the lock, the other is refused it before
  -- the lock times out if it looks for a run after that; but if it has looked before, its insert
  -- succeeds too and both hold the lock. Ids of rows are fresh, and no row of the job starts in the
  -- future.
  pub race :
      (id now other_id other_now : ℕ) (name : String) (rows : List JobRow)
      → IsSql orm
      → is_job_running now name rows ≡ false
      → is_job_running other_now name rows ≡ false
      → violates (record { id = id; name = name; start_time = to_column now; end_time = none }) rows
        ≡ false
      → violates
          (record { id = other_id; name = name; start_time = to_column other_now; end_time = none })
          rows
        ≡ false
      → (to_column now == to_column other_now) ≡ false
      → StartsBy (to_column now) name rows
      → All (λ r. (r.id == id) ≡ false) rows
      → other_now ≤ to_column now + lock_timeout_ms
      → ((try_acquire_job_lock orm to_column id now name rows).0 ≡ true)
        × ((try_acquire_job_lock orm to_column other_id other_now name
              (try_acquire_job_lock orm to_column id now name rows).1).0
            ≡ false)
        × (try_acquire_job_lock orm to_column other_id other_now name rows
            ≡ save_lock orm to_column other_id other_now name rows)
        × ((save_lock orm to_column other_id other_now name
              (try_acquire_job_lock orm to_column id now name rows).1).0
            ≡ true)
  unfolding try_all
  race id now other_id other_now name rows sql idle other_idle free other_free apart starts fresh
        soon =
      let first = idle_acquires id now name rows idle in
      let both = race_saves id now other_id other_now name rows sql free other_free apart in
      let acquired : (try_acquire_job_lock orm to_column id now name rows).0 ≡ true =
        ap (λ s. s.0) first ∙ both.0 in
      (
        acquired,
        exclusion orm to_column id now other_id other_now name [] rows sql starts fresh tt soon
            acquired,
        idle_acquires other_id other_now name rows other_idle,
        ap (λ s. (save_lock orm to_column other_id other_now name s.1).0) first ∙ both.1,
      )
