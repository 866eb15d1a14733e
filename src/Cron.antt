-- ===== src/Cron.antt =====
-- libs/common/src/safe-cron/safe-cron.service.ts: the locks of periodic jobs, kept as rows of a
-- table that the instances of the service share. Times are milliseconds.
pub mod Laws
pub mod Race
pub mod Release
mod Tests
use upload.Prelude.{
  ℕ, ◌+◌, ◌-◌, String, String_eq, Bool, true, false, not, ◌&&◌, ◌||◌, Option, none, some, List, [],
  ◌∷◌, ◌==◌, option_beq, if◌then◌else◌, filter, any, ltb, ℕ_eq,
}
use upload.Prelude.Sets.{add}
use upload.Storage.Orm.{Orm}

abbrev pub lock_timeout_ms : ℕ
lock_timeout_ms = 300000

pub record JobRow : Type 0 where
  pub id : ℕ
  pub name : String
  pub start_time : ℕ
  pub end_time : Option ℕ

-- `findLastJob`: the row of the name that started last; of several the first.
abbrev pub later : JobRow → Option JobRow → Option JobRow
later r none = some r
later r (some s) = if ltb r.start_time s.start_time then some s else some r

unfoldable pub find_last_job : String → List JobRow → Option JobRow
find_last_job name [] = none
find_last_job name (r ∷ rows) =
    if r.name == name then later r (find_last_job name rows) else find_last_job name rows

-- A row that starts in the future gives a negative time, and 0 here; neither is over the timeout.
abbrev pub is_lock_expired : ℕ → ℕ → Bool
is_lock_expired now start_time = ltb lock_timeout_ms (now - start_time)

abbrev pub is_completed : JobRow → Bool
is_completed job = not (option_beq job.end_time none)

unfoldable pub is_job_running : ℕ → String → List JobRow → Bool
is_job_running now name rows = elim (find_last_job name rows) [
  | none ↦ false
  | some last_job ↦
      if is_lock_expired now last_job.start_time || is_completed last_job then false else true
]

-- The unique constraint on the start time and the name.
abbrev pub violates : JobRow → List JobRow → Bool
violates job rows =
    any rows (λ r. r.name == job.name && r.start_time == job.start_time && not (r.id == job.id))

-- An instance's `acquiredLocks` beside the table.
pub record Service : Type 0 where
  pub rows : List JobRow
  pub acquired_locks : List String

-- `to_column` is what a column without fractions of a second keeps of a time.
module _ (orm : Orm) (to_column : ℕ → ℕ) where
  -- The insert of `tryAcquireJobLock`; `id` is what the database gives the row. A violation of the
  -- constraint is caught there.
  unfoldable pub save_lock : ℕ → ℕ → String → List JobRow → Bool × List JobRow
  save_lock id now name rows =
      let job : JobRow = record {
        id = id;
        name = name;
        start_time = to_column now;
        end_time = none;
      } in
      if violates job rows then (false, rows) else (true, orm.insert job rows)

  unfoldable pub try_acquire_job_lock : ℕ → ℕ → String → List JobRow → Bool × List JobRow
  try_acquire_job_lock id now name rows =
      if is_job_running now name rows then (false, rows) else save_lock id now name rows

  pub acquire_lock : ℕ → ℕ → String → Service → Bool × Service
  acquire_lock id now name service =
      let (acquired, rows) = try_acquire_job_lock id now name service.rows in
      (
        acquired,
        record {
          rows = rows;
          acquired_locks =
              if acquired then add name service.acquired_locks else service.acquired_locks;
        },
      )

  unfoldable pub release_job_lock : ℕ → String → List JobRow → List JobRow
  release_job_lock now name rows = elim (find_last_job name rows) [
    | none ↦ rows
    | some last_job ↦
        (orm.update (λ r. r.id == last_job.id) (λ r. record r { end_time = some (to_column now) })
          rows).0
  ]

  pub release_lock : ℕ → String → Service → Service
  release_lock now name service = record {
    rows = release_job_lock now name service.rows;
    acquired_locks = filter (λ n. not (n == name)) service.acquired_locks;
  }

  -- The save may violate the constraint, which is caught and logged.
  unfoldable pub update_job_start_time : ℕ → String → List JobRow → List JobRow
  update_job_start_time now name rows =
      if not (is_job_running now name rows) then rows else elim (find_last_job name rows) [
        | none ↦ rows
        | some last_job ↦
            let job = record last_job { start_time = to_column now } in
            if is_completed last_job || violates job rows
            then rows
            else (orm.update (λ r. r.id == last_job.id)
                (λ r. record r { start_time = to_column now }) rows).0
      ]

  release_each : ℕ → List String → Service → Service
  release_each now [] service = service
  release_each now (name ∷ names) service = release_each now names (release_lock now name service)

  pub handle_shutdown : ℕ → Service → Service
  handle_shutdown now service = release_each now service.acquired_locks service
