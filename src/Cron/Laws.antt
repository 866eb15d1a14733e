-- ===== src/Cron/Laws.antt =====
-- Who holds a lock of libs/common/src/safe-cron/safe-cron.service.ts.
use upload.Prelude.{
  ℕ, ◌+◌, ◌≤◌, ◌<◌, String, String_eq, ℕ_eq, true, false, none, some, List, [], ◌∷◌, ◌++◌, ◌==◌,
  ◌≡◌, refl, ◌∙◌, arith, All, inl, inr, Bool-cases, ==-refl,
}
use mathlib.Core.Bool.{false≢true}
use native.Mathlib.Nat.{le_refl}
use upload.Storage.Orm.{Orm, IsSql, on_rows, by_rows}
use upload.Cron.{
  lock_timeout_ms, JobRow, find_last_job, is_job_running, violates, save_lock, try_acquire_job_lock,
}

-- No row of the name starts after a time.
abbrev pub StartsBy : ℕ → String → List JobRow → Type 0
StartsBy time name rows = All (λ r. (r.name == name) ≡ true → r.start_time ≤ time) rows

-- A row that no other violates is the last one, where the others do not start after it.
last-append :
    (job : JobRow) (rows : List JobRow)
    → All (λ r. (r.name == job.name) ≡ true → r.start_time < job.start_time) rows
    → find_last_job job.name (rows ++ job ∷ []) ≡ some job
unfolding find_last_job
last-append job [] h = rw (==-refl job.name) refl
last-append job (r ∷ rows) h = elim (Bool-cases (r.name == job.name)) [
  | inl mine ↦ let rest = last-append job rows h.1 in let before = h.0 mine in ground arith
  | inr other ↦ rw other (last-append job rows h.1)
]

last-append_other :
    (name : String) (job : JobRow) (rows : List JobRow)
    → (job.name == name) ≡ false
    → find_last_job name (rows ++ job ∷ []) ≡ find_last_job name rows
unfolding find_last_job
last-append_other name job [] h = rw h refl
last-append_other name job (r ∷ rows) h = rw (last-append_other name job rows h) refl

-- The lock is held since a time: the last row of the name is not ended and starts no earlier.
pub IsHeld : ℕ → String → List JobRow → Type 0
IsHeld since name rows =
    (job : JobRow) × (find_last_job name rows ≡ some job)
    × (job.end_time ≡ none)
    × (since ≤ job.start_time)

held-running :
    (now since : ℕ) (name : String) (rows : List JobRow)
    → IsHeld since name rows
    → now ≤ since + lock_timeout_ms
    → is_job_running now name rows ≡ true
unfolding is_job_running IsHeld
held-running now since name rows (job, last, unended, start) soon = ground arith

unviolated :
    (job : JobRow) (rows : List JobRow)
    → violates job rows ≡ false
    → StartsBy job.start_time job.name rows
    → All (λ r. (r.id == job.id) ≡ false) rows
    → All (λ r. (r.name == job.name) ≡ true → r.start_time < job.start_time) rows
unviolated job [] h starts fresh = tt
unviolated job (r ∷ rows) h starts fresh =
    let same_time = ℕ_eq.same_iff r.start_time job.start_time in
    (
      λ mine. let le = starts.0 mine in let new = fresh.0 in ground arith,
      unviolated job rows (ground arith) starts.1 fresh.1,
    )

-- A call of `acquireLock` by some instance: the id that a new row gets, the time and the name.
pub record Attempt : Type 0 where
  pub id : ℕ
  pub now : ℕ
  pub name : String

module _ (orm : Orm) (to_column : ℕ → ℕ) where
  unfoldable pub try_all : List Attempt → List JobRow → List JobRow
  try_all [] rows = rows
  try_all (a ∷ more) rows =
      try_all more (try_acquire_job_lock orm to_column a.id a.now a.name rows).1

module _ (orm : Orm) (to_column : ℕ → ℕ) where
  acquired-IsHeld :
      (id now : ℕ) (name : String) (rows : List JobRow)
      → StartsBy (to_column now) name rows
      → All (λ r. (r.id == id) ≡ false) rows
      → (try_acquire_job_lock (on_rows orm) to_column id now name rows).0 ≡ true
      → IsHeld
          (to_column now)
          name
          (try_acquire_job_lock (on_rows orm) to_column id now name rows).1
  unfolding try_acquire_job_lock save_lock IsHeld
  acquired-IsHeld id now name rows starts fresh h =
      elim (Bool-cases (is_job_running now name rows)) [
        | inl running ↦ absurd (false≢true (rw running at h))
        | inr idle ↦
            let job : JobRow = record {
              id = id;
              name = name;
              start_time = to_column now;
              end_time = none;
            } in
            elim (Bool-cases (violates job rows)) [
              | inl taken ↦ absurd (false≢true (rw (idle, taken) at h))
              | inr unique ↦
                  rw (idle, unique)
                    (
                      job,
                      last-append job rows (unviolated job rows unique starts fresh),
                      refl,
                      le_refl (to_column now),
                    )
            ]
      ]

  attempt-IsHeld :
      (since id now : ℕ) (tried name : String) (rows : List JobRow)
      → now ≤ since + lock_timeout_ms
      → IsHeld since name rows
      → IsHeld since name (try_acquire_job_lock (on_rows orm) to_column id now tried rows).1
  unfolding try_acquire_job_lock save_lock IsHeld
  attempt-IsHeld since id now tried name rows soon (job, last, unended, start) =
      elim (Bool-cases (tried == name)) [
        | inl same ↦
            let e : tried ≡ name = (String_eq.same_iff tried name).0 same in
            let running : is_job_running now name rows ≡ true =
              held-running now since name rows (job, last, unended, start) soon in
            rw (e, running) (job, last, unended, start)
        | inr other ↦ elim (Bool-cases (is_job_running now tried rows)) [
          | inl running ↦ rw running (job, last, unended, start)
          | inr idle ↦
              let new : JobRow = record {
                id = id;
                name = tried;
                start_time = to_column now;
                end_time = none;
              } in
              elim (Bool-cases (violates new rows)) [
                | inl taken ↦ rw (idle, taken) (job, last, unended, start)
                | inr unique ↦
                    rw (idle, unique)
                      (job, last-append_other name new rows other ∙ last, unended, start)
              ]
        ]
      ]

  try_all-IsHeld :
      (since : ℕ) (name : String) (tried : List Attempt) (rows : List JobRow)
      → All (λ a. a.now ≤ since + lock_timeout_ms) tried
      → IsHeld since name rows
      → IsHeld since name (try_all (on_rows orm) to_column tried rows)
  unfolding try_all
  try_all-IsHeld since name [] rows soon held = held
  try_all-IsHeld since name (a ∷ tried) rows soon held =
      try_all-IsHeld since name tried _ soon.1
        (attempt-IsHeld since a.id a.now a.name name rows soon.0 held)

  exclusion_rows :
      (id now later_id later_now : ℕ) (name : String) (tried : List Attempt) (rows : List JobRow)
      → StartsBy (to_column now) name rows
      → All (λ r. (r.id == id) ≡ false) rows
      → All (λ a. a.now ≤ to_column now + lock_timeout_ms) tried
      → later_now ≤ to_column now + lock_timeout_ms
      → (try_acquire_job_lock (on_rows orm) to_column id now name rows).0 ≡ true
      → (try_acquire_job_lock (on_rows orm) to_column later_id later_now name (
          try_all
            (on_rows orm)
            to_column
            tried
            (try_acquire_job_lock (on_rows orm) to_column id now name rows).1)).0
        ≡ false
  unfolding try_acquire_job_lock
  exclusion_rows id now later_id later_now name tried rows starts fresh soon later_soon h =
      let held =
        try_all-IsHeld (to_column now) name tried _ soon
          (acquired-IsHeld id now name rows starts fresh h) in
      rw (held-running later_now (to_column now) name _ held later_soon) refl

  -- A lock that an instance has acquired is not acquired again by anyone before it times out,
  -- whatever locks the instances try in the meantime, one call after the other, as long as nobody
  -- releases it: ids of rows are fresh, and no row of the job starts in the future.
  pub exclusion :
      (id now later_id later_now : ℕ) (name : String) (tried : List Attempt) (rows : List JobRow)
      → IsSql orm
      → StartsBy (to_column now) name rows
      → All (λ r. (r.id == id) ≡ false) rows
      → All (λ a. a.now ≤ to_column now + lock_timeout_ms) tried
      → later_now ≤ to_column now + lock_timeout_ms
      → (try_acquire_job_lock orm to_column id now name rows).0 ≡ true
      → (try_acquire_job_lock orm to_column later_id later_now name
          (try_all orm to_column tried (try_acquire_job_lock orm to_column id now name rows).1)).0
        ≡ false
  exclusion id now later_id later_now name tried rows sql starts fresh soon later_soon =
      by_rows
        (λ o.
          (try_acquire_job_lock o to_column id now name rows).0 ≡ true
          → (try_acquire_job_lock o to_column later_id later_now name
              (try_all o to_column tried (try_acquire_job_lock o to_column id now name rows).1)).0
            ≡ false)
        orm sql
        (exclusion_rows id now later_id later_now name tried rows starts fresh soon later_soon)
