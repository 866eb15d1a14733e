-- ===== src/Cron/Tests.antt =====
-- Tests of the model of libs/common/src/safe-cron/safe-cron.service.ts.
use upload.Prelude.{ℕ, true, false, none, some, List, [], ◌∷◌, ◌≡◌, ◌/◌, ◌*◌, refl, arith}
use upload.Storage.Orm.{list_orm, list_orm-IsSql}
use upload.Cron.{
  JobRow, save_lock, try_acquire_job_lock, is_job_running, find_last_job, release_job_lock,
}
use upload.Cron.Release.{release_job_lock-idle}
use upload.Cron.Laws.{Attempt, try_all, exclusion}
use upload.Cron.Race.{race}

-- Whole seconds.
abbrev to_column : ℕ → ℕ
to_column ms = (ms / 1000) * 1000

-- A run that is over.
abbrev rows : List JobRow
rows = record { id = 1; name = "sync"; start_time = 1000; end_time = some 4000 } ∷ []

abbrev tried : List Attempt
tried =
    record { id = 3; now = 11000; name = "other" }
    ∷ record { id = 4; now = 12000; name = "sync" }
    ∷ []

exclusion_example :
    (try_acquire_job_lock list_orm to_column 5 200000 "sync" (
      try_all list_orm to_column tried
        (try_acquire_job_lock list_orm to_column 2 10500 "sync" rows).1)).0
    ≡ false
unfolding try_acquire_job_lock save_lock is_job_running find_last_job
exclusion_example =
    exclusion list_orm to_column 2 10500 5 200000 "sync" tried rows list_orm-IsSql
      ((λ _. omega arith), tt) (refl, tt) (omega arith, (omega arith, tt)) (omega arith) refl

race_example :
    ((try_acquire_job_lock list_orm to_column 2 10500 "sync" rows).0 ≡ true)
    × ((try_acquire_job_lock list_orm to_column 3 11500 "sync"
          (try_acquire_job_lock list_orm to_column 2 10500 "sync" rows).1).0
        ≡ false)
    × (try_acquire_job_lock list_orm to_column 3 11500 "sync" rows
        ≡ save_lock list_orm to_column 3 11500 "sync" rows)
    × ((save_lock list_orm to_column 3 11500 "sync"
          (try_acquire_job_lock list_orm to_column 2 10500 "sync" rows).1).0
        ≡ true)
unfolding is_job_running find_last_job
race_example =
    race list_orm to_column 2 10500 3 11500 "sync" rows list_orm-IsSql refl refl refl refl refl
      ((λ _. omega arith), tt) (refl, tt) (omega arith)

-- A run that another instance has started after the first one timed out.
abbrev taken_over : List JobRow
taken_over =
    record { id = 1; name = "sync"; start_time = 1000; end_time = none }
    ∷ record { id = 2; name = "sync"; start_time = 400000; end_time = none }
    ∷ []

release_job_lock-idle_example :
    is_job_running 420000 "sync" (release_job_lock list_orm to_column 410000 "sync" taken_over)
    ≡ false
release_job_lock-idle_example =
    release_job_lock-idle list_orm to_column 410000 420000 "sync" taken_over list_orm-IsSql
