-- ===== src/Scenarios/Jobs.antt =====
-- The theorems on the job worker, applied to a concrete table.
use ikimetr.Prelude.{
  List, ◌==◌, if◌then◌else◌, text_Eq, ◌≡◌, refl, none, some, [], ◌∷◌, text, text_eq,
}
use ikimetr.Jobs.{
  JobStatus, JobRow, JobOptions, Outcome, Handlers, Store, find_row, claim, update, process_one,
}
use ikimetr.Jobs.Rows.{JobOp, apply_job, run_jobs, InTime}
use ikimetr.Jobs.Terminal.{StoreMove, run_jobs-StoreMove}
use ikimetr.Jobs.Attempts.{after_failure, process_one-failed, process_times, process_times-dead}

abbrev job : JobRow
job = record {
  id = text "j1";
  kind = text "mail";
  payload = text "{}";
  attempts = 0;
  max_attempts = 3;
  status = JobStatus.queued;
  idempotency_key = none;
  last_error = none;
  scheduled_at = 0;
  updated_at = 0;
}

abbrev table : Store
table = record { rows = job ∷ []; queue = text "j1" ∷ []; retries = []; dead = [] }

abbrev options : JobOptions
options = record { retry_base_delay_ms = 2000; retry_max_delay_ms = 60000; stale_job_ms = 300000 }

abbrev handlers : Handlers
handlers kind = if kind == text "mail" then some (λ r. Outcome.failed (text "down")) else none

found : find_row (text "j1") table.rows ≡ some job
unfolding find_row text_eq
found = refl

-- A second claim between the claim and the end of the job.
abbrev calls : List JobOp
calls =
    JobOp.claim_job 5 (text "j1")
    ∷ JobOp.claim_job 6 (text "j1")
    ∷ JobOp.end_job 7 job (Outcome.failed (text "down"))
    ∷ JobOp.schedule 9000
    ∷ []

calls-InTime : InTime options handlers calls table
unfolding apply_job claim update find_row text_eq
calls-InTime = (tt, (tt, ((5, refl), (tt, tt))))

run_jobs-StoreMove_example : StoreMove table (run_jobs options handlers calls table)
run_jobs-StoreMove_example = run_jobs-StoreMove options handlers calls table calls-InTime

process_one-failed_example :
    find_row (text "j1") (process_one options handlers 5 (text "j1") table).rows
    ≡ some (after_failure options 5 job (text "down"))
unfolding text_eq
process_one-failed_example =
    process_one-failed options handlers 5 table job (text "down") found refl refl

process_times-dead_example :
    (row : JobRow) × (find_row
        (text "j1")
        (process_times options handlers 5 (text "j1") 3 table).rows
      ≡ some row)
    × (row.status ≡ JobStatus.dead)
    × (row.attempts ≡ 3)
unfolding text_eq
process_times-dead_example =
    process_times-dead options handlers 5 2 table job (λ row e. (text "down", rw (e) refl)) found
      refl refl
