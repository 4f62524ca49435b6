-- ===== src/Jobs.antt =====
-- apps/worker/src/job-processor.ts and job-queue.ts: the jobs table and the Redis keys as data, and the
-- functions of the processor on them. A statement of SQL is the change of the rows that it names.
pub mod Rows
pub mod Terminal
pub mod Attempts
use ikimetr.Prelude.{
  ℕ, ◌+◌, ◌-◌, ◌*◌, ◌^◌, min, Bool, true, false, ◌&&◌, ◌||◌, not, Option, none, some, List, [], ◌∷◌,
  ◌++◌, ltb, leb, if◌then◌else◌, Eq, ◌==◌, take, keep, length, map, Text, text, text_Eq,
}

pub data JobStatus : Type 0 where
  queued processing completed dead : JobStatus

-- `JobDbRow`, with the columns that the statements set.
pub record JobRow : Type 0 where
  pub id : Text
  pub kind : Text
  pub payload : Text
  pub attempts : ℕ
  pub max_attempts : ℕ
  pub status : JobStatus
  pub idempotency_key : Option Text
  pub last_error : Option Text
  pub scheduled_at : ℕ
  pub updated_at : ℕ

pub record JobOptions : Type 0 where
  pub retry_base_delay_ms : ℕ
  pub retry_max_delay_ms : ℕ
  pub stale_job_ms : ℕ

-- How a handler ends; `permanent` is a `PermanentJobError`.
pub data Outcome : Type 0 where
  finished : Outcome
  permanent : Text → Outcome
  failed : Text → Outcome

abbrev pub Handlers : Type 0
Handlers = Text → Option (JobRow → Outcome)

pub record Store : Type 0 where
  pub rows : List JobRow
  pub queue : List Text
  pub retries : List (Text × ℕ)
  pub dead : List Text

abbrev pub is_queued : JobStatus → Bool
is_queued JobStatus.queued = true
is_queued _ = false

abbrev pub is_processing : JobStatus → Bool
is_processing JobStatus.processing = true
is_processing _ = false

-- `status === 'completed' || status === 'dead'`
abbrev pub is_terminal : JobStatus → Bool
is_terminal JobStatus.completed = true
is_terminal JobStatus.dead = true
is_terminal _ = false

-- `SELECT … WHERE id = $1`
unfoldable pub find_row : Text → List JobRow → Option JobRow
find_row id [] = none
find_row id (r ∷ rows) = if r.id == id then some r else find_row id rows

-- `UPDATE … SET f WHERE p`
unfoldable pub update : (JobRow → Bool) → (JobRow → JobRow) → List JobRow → List JobRow
update p f [] = []
update p f (r ∷ rows) = (if p r then f r else r) ∷ update p f rows

-- `enqueueJob`, `LPUSH`
abbrev pub enqueue_job : Text → Store → Store
enqueue_job id s = record s { queue = id ∷ s.queue }

abbrev pub enqueue_all : List Text → Store → Store
enqueue_all [] s = s
enqueue_all (id ∷ ids) s = enqueue_all ids (enqueue_job id s)

-- `scheduleRetry`, `ZADD`
unfoldable pub schedule_retry : Text → ℕ → ℕ → Store → Store
schedule_retry id now delay s = record s {
  retries = keep (λ e. not (e.0 == id)) s.retries ++ (id, now + delay) ∷ [];
}

-- `moveToDead`
abbrev pub move_to_dead : Text → Store → Store
move_to_dead id s = record s { dead = id ∷ s.dead }

unfoldable pub claim : ℕ → Text → Store → Store
claim now id s = record s {
  rows =
      update (λ r. r.id == id && is_queued r.status)
        (λ r. record r { status = JobStatus.processing; updated_at = now }) s.rows;
}

unfoldable pub retry_delay : JobOptions → ℕ → ℕ
retry_delay options next_attempts =
    min options.retry_max_delay_ms (options.retry_base_delay_ms * 2 ^ (next_attempts - 1))

unfoldable pub complete_job : ℕ → Text → Store → Store
complete_job now id s = record s {
  rows =
      update (λ r. r.id == id)
        (λ r. record r { status = JobStatus.completed; last_error = none; updated_at = now })
        s.rows;
}

unfoldable pub bury_job : ℕ → Text → ℕ → Text → Store → Store
bury_job now id next_attempts message s = move_to_dead id (record s {
  rows =
      update (λ r. r.id == id)
        (λ r. record r {
          status = JobStatus.dead;
          attempts = next_attempts;
          last_error = some message;
          updated_at = now;
        })
        s.rows;
})

unfoldable pub retry_job : JobOptions → ℕ → Text → ℕ → Text → Store → Store
retry_job options now id next_attempts message s =
    schedule_retry id now (retry_delay options next_attempts) (record s {
      rows =
          update (λ r. r.id == id)
            (λ r. record r {
              status = JobStatus.queued;
              attempts = next_attempts;
              last_error = some message;
              scheduled_at = now + retry_delay options next_attempts;
              updated_at = now;
            })
            s.rows;
    })

-- What the handler of a job does; a job of an unknown type fails for good.
abbrev pub run_handler : Handlers → JobRow → Outcome
run_handler handlers job = elim (handlers job.kind) [
  | none ↦ Outcome.permanent (text "unknown job type: " ++ job.kind)
  | some handler ↦ handler job
]

-- The end of `processOne` for the row that was loaded.
unfoldable pub finish_job : JobOptions → ℕ → JobRow → Outcome → Store → Store
finish_job options now job Outcome.finished s = complete_job now job.id s
finish_job options now job (Outcome.permanent message) s =
    bury_job now job.id (job.attempts + 1) message s
finish_job options now job (Outcome.failed message) s =
    if leb job.max_attempts (job.attempts + 1)
    then bury_job now job.id (job.attempts + 1) message s
    else retry_job options now job.id (job.attempts + 1) message s

-- `processOne`; a claim finds no row unless the job is queued.
unfoldable pub process_one : JobOptions → Handlers → ℕ → Text → Store → Store
process_one options handlers now id s = elim (find_row id s.rows) [
  | none ↦ s
  | some job ↦
      if is_terminal job.status
      then s
      else if not (is_queued job.status)
      then s
      else finish_job options now job (run_handler handlers job) (claim now job.id s)
]

abbrev pub is_stale : JobOptions → ℕ → JobRow → Bool
is_stale options now r = ltb (r.updated_at + options.stale_job_ms) now

abbrev pub ids_of : List JobRow → List Text
ids_of [] = []
ids_of (r ∷ rows) = r.id ∷ ids_of rows

-- `recoverStale`
unfoldable pub recover_stale : JobOptions → ℕ → Store → Store
recover_stale options now s =
    let stale : JobRow → Bool = λ r. is_processing r.status && is_stale options now r in
    enqueue_all (ids_of (keep stale s.rows)) (record s {
      rows = update stale (λ r. record r { status = JobStatus.queued; updated_at = now }) s.rows;
    })

-- `requeuePending`, for the pushes that Redis takes.
unfoldable pub requeue_pending : JobOptions → ℕ → (Text → Bool) → Store → Store × ℕ
requeue_pending options now pushed s =
    let pending =
      take 500 (keep (λ (r : JobRow). is_queued r.status && is_stale options now r) s.rows) in
    let requeued = keep pushed (ids_of pending) in (enqueue_all requeued s, length requeued)

-- A due retry: the job is queued again unless it has ended.
unfoldable pub reset_job : ℕ → Text → Store → Store
reset_job now id s = elim (find_row id s.rows) [
  | none ↦ s
  | some job ↦
      if is_terminal job.status
      then s
      else enqueue_job id (record s {
        rows =
            update (λ r. r.id == id && not (is_terminal r.status))
              (λ r. record r { status = JobStatus.queued; updated_at = now }) s.rows;
      })
]

abbrev pub reset_all : ℕ → List Text → Store → Store
reset_all now [] s = s
reset_all now (id ∷ ids) s = reset_all now ids (reset_job now id s)

-- `runScheduler`, on what `reapRetries` takes from the sorted set.
unfoldable pub run_scheduler : ℕ → Store → Store
run_scheduler now s =
    let due = keep (λ (e : Text × ℕ). leb e.1 now) s.retries in
    reset_all now (map (λ (e : Text × ℕ). e.0) due)
      (record s { retries = keep (λ (e : Text × ℕ). not (leb e.1 now)) s.retries })
