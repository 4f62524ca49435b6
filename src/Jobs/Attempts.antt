-- ===== src/Jobs/Attempts.antt =====
-- job-processor.ts: a failing handler, and the delay before a retry.
use ikimetr.Prelude.{
  ℕ, zero, suc, ◌+◌, ◌≡◌, refl, ◌∙◌, ap, Bool, true, false, some, List, arith, leb, if◌then◌else◌,
  ◌==◌, Text, text_Eq, text_eq_iff,
}
use ikimetr.Jobs.{
  JobStatus, JobRow, JobOptions, Outcome, Handlers, Store, is_queued, is_terminal, find_row, update,
  claim, bury_job, retry_job, schedule_retry, retry_delay, run_handler, finish_job, process_one,
}
use ikimetr.Jobs.Rows.{change, find_row-update}
use ikimetr.Jobs.Terminal.{claimed, find_row-claim}

abbrev failed_row : ℕ → JobRow → Text → JobStatus → ℕ → JobRow
failed_row now job message status scheduled = record job {
  status = status;
  attempts = job.attempts + 1;
  last_error = some message;
  scheduled_at = scheduled;
  updated_at = now;
}

own_update :
    (now : ℕ) (job : JobRow) (rows : List JobRow) (f : JobRow → JobRow)
    → ((r : JobRow) → (f r).id ≡ r.id)
    → find_row job.id rows ≡ some (claimed now job)
    → find_row job.id (update (λ r. r.id == job.id) f rows) ≡ some (f (claimed now job))
own_update now job rows f same found =
    let here : (job.id == job.id) ≡ true = (text_eq_iff job.id job.id).1 refl in
    find_row-update (λ r. r.id == job.id) f job.id rows same
    ∙ ap (change (λ r. r.id == job.id) f) found
    ∙ ap (λ (b : Bool). some (if b then f (claimed now job) else claimed now job)) here

-- The row of a job whose handler failed.
abbrev pub after_failure : JobOptions → ℕ → JobRow → Text → JobRow
after_failure options now job message =
    if leb job.max_attempts (job.attempts + 1)
    then failed_row now job message JobStatus.dead job.scheduled_at
    else failed_row now job message JobStatus.queued (now + retry_delay options (job.attempts + 1))

finish_job-failed :
    (options : JobOptions) (now : ℕ) (job : JobRow) (message : Text) (s : Store) (b : Bool)
    → find_row job.id s.rows ≡ some (claimed now job)
    → find_row job.id
        (if b
          then bury_job now job.id (job.attempts + 1) message s
          else retry_job options now job.id (job.attempts + 1) message s).rows
      ≡ some (
          if b
          then failed_row now job message JobStatus.dead job.scheduled_at
          else failed_row now job message JobStatus.queued
              (now + retry_delay options (job.attempts + 1)))
unfolding bury_job retry_job schedule_retry
finish_job-failed options now job message s true found =
    own_update now job s.rows _ (λ r. refl) found
finish_job-failed options now job message s false found =
    own_update now job s.rows _ (λ r. refl) found

-- When the handler of a queued job fails without being permanent, the row is dead if the
-- attempts are used up, and is otherwise queued with one attempt more and due after the delay;
-- either way it keeps the message.
pub process_one-failed :
    (options : JobOptions) (handlers : Handlers) (now : ℕ) (s : Store) (job : JobRow)
    (message : Text)
    → find_row job.id s.rows ≡ some job
    → job.status ≡ JobStatus.queued
    → run_handler handlers job ≡ Outcome.failed message
    → find_row job.id (process_one options handlers now job.id s).rows
      ≡ some (after_failure options now job message)
unfolding process_one finish_job
process_one-failed options handlers now s job message found queued fails =
    let q : is_queued job.status ≡ true = ap is_queued queued in
    let still : is_terminal job.status ≡ false = ap is_terminal queued in
    rw (found, process_one, still, q, fails, finish_job)
      (finish_job-failed options now job message (claim now job.id s)
        (leb job.max_attempts (job.attempts + 1)) (find_row-claim now job s found q))

-- `n` further calls for one id.
unfoldable pub process_times : JobOptions → Handlers → ℕ → Text → ℕ → Store → Store
process_times options handlers now id zero s = s
process_times options handlers now id (suc n) s =
    process_times options handlers now id n (process_one options handlers now id s)

-- A queued job is dead, with all its attempts used, after as many calls of processOne as it has
-- attempts left, of which there is at least one, where the handler of its type fails each time
-- and no failure is permanent.
pub process_times-dead :
    (options : JobOptions) (handlers : Handlers) (now : ℕ) (n : ℕ) (s : Store) (job : JobRow)
    → ((row : JobRow)
        → row.kind ≡ job.kind
        → (message : Text) × (run_handler handlers row ≡ Outcome.failed message))
    → find_row job.id s.rows ≡ some job
    → job.status ≡ JobStatus.queued
    → job.attempts + suc n ≡ job.max_attempts
    → (row : JobRow) × (find_row job.id (process_times options handlers now job.id (suc n) s).rows
        ≡ some row)
      × (row.status ≡ JobStatus.dead)
      × (row.attempts ≡ job.max_attempts)
unfolding process_times
process_times-dead options handlers now zero s job fails found queued left =
    let (message, e) = fails job refl in
    let last : leb job.max_attempts (job.attempts + 1) ≡ true = ground (arith, left) in
    let step = process_one-failed options handlers now s job message found queued e in
    (
      failed_row now job message JobStatus.dead job.scheduled_at,
      step
          ∙ ap
              (λ (b : Bool). some (
                if b
                then failed_row now job message JobStatus.dead job.scheduled_at
                else failed_row now job message JobStatus.queued
                    (now + retry_delay options (job.attempts + 1))))
              last,
      refl,
      omega (arith, left),
    )
process_times-dead options handlers now (suc n) s job fails found queued left =
    let (message, e) = fails job refl in
    let more : leb job.max_attempts (job.attempts + 1) ≡ false = ground (arith, left) in
    let step = process_one-failed options handlers now s job message found queued e in
    let next =
      failed_row now job message JobStatus.queued (now + retry_delay options (job.attempts + 1)) in
    process_times-dead options handlers now n (process_one options handlers now job.id s) next fails
      (step
        ∙ ap
            (λ (b : Bool).
              some (if b then failed_row now job message JobStatus.dead job.scheduled_at else next))
            more)
      refl (omega (arith, left))
