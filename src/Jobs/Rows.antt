-- ===== src/Jobs/Rows.antt =====
-- job-processor.ts: what an update finds afterwards, and the steps of the processor.
use ikimetr.Prelude.{
  ℕ, ◌≡◌, refl, Bool, Option, none, some, List, [], ◌∷◌, arith, if◌then◌else◌, Text, text_Eq,
  text_eq_iff,
}
use ikimetr.Jobs.{
  JobStatus, Outcome, finish_job, JobRow, JobOptions, Handlers, Store, find_row, update, claim,
  process_one, recover_stale, requeue_pending, run_scheduler, enqueue_all,
}

abbrev pub change : (JobRow → Bool) → (JobRow → JobRow) → Option JobRow → Option JobRow
change p f none = none
change p f (some r) = some (if p r then f r else r)

pub find_row-update :
    (p : JobRow → Bool) (f : JobRow → JobRow) (id : Text) (rows : List JobRow)
    → ((r : JobRow) → (f r).id ≡ r.id)
    → find_row id (update p f rows) ≡ change p f (find_row id rows)
unfolding find_row update
find_row-update p f id [] h = refl
find_row-update p f id (r ∷ rows) h = ground (arith, find_row-update p f id rows h, h r)

-- The row that is found under an id has it.
pub find_row-id :
    (id : Text) (rows : List JobRow) (r : JobRow) → find_row id rows ≡ some r → r.id ≡ id
unfolding find_row
find_row-id id [] r h = cc
find_row-id id (x ∷ rows) r h = ground (arith, find_row-id id rows r, text_eq_iff x.id id)

-- The calls of the processor, and the two halves of `processOne` that change the table: a claim, and
-- the end of a job that was loaded before. Between them other workers may run; a worker that stops
-- leaves its claim.
pub data JobOp : Type 0 where
  process : ℕ → Text → JobOp
  claim_job : ℕ → Text → JobOp
  end_job : ℕ → JobRow → Outcome → JobOp
  recover : ℕ → JobOp
  requeue : ℕ → (Text → Bool) → JobOp
  schedule : ℕ → JobOp

unfoldable pub apply_job : JobOptions → Handlers → JobOp → Store → Store
apply_job options handlers (JobOp.process now id) s = process_one options handlers now id s
apply_job options handlers (JobOp.claim_job now id) s = claim now id s
apply_job options handlers (JobOp.end_job now job outcome) s = finish_job options now job outcome s
apply_job options handlers (JobOp.recover now) s = recover_stale options now s
apply_job options handlers (JobOp.requeue now pushed) s = (requeue_pending options now pushed s).0
apply_job options handlers (JobOp.schedule now) s = run_scheduler now s

unfoldable pub run_jobs : JobOptions → Handlers → List JobOp → Store → Store
run_jobs options handlers [] s = s
run_jobs options handlers (op ∷ ops) s =
    run_jobs options handlers ops (apply_job options handlers op s)

-- The row is as the claim of the job left it.
abbrev pub StillClaimed : JobRow → Store → Type 0
StillClaimed job s =
    (at : ℕ) × (find_row job.id s.rows
      ≡ some (record job { status = JobStatus.processing; updated_at = at }))

abbrev pub EndsInTime : JobOp → Store → Type 0
EndsInTime (JobOp.end_job now job outcome) s = StillClaimed job s
EndsInTime _ s = Unit

-- No worker is late: whenever a job ends, its row was not taken back meanwhile.
abbrev pub InTime : JobOptions → Handlers → List JobOp → Store → Type 0
InTime options handlers [] s = Unit
InTime options handlers (op ∷ ops) s =
    EndsInTime op s × InTime options handlers ops (apply_job options handlers op s)

pub enqueue_all-rows : (ids : List Text) (s : Store) → (enqueue_all ids s).rows ≡ s.rows
enqueue_all-rows [] s = refl
enqueue_all-rows (id ∷ ids) s = enqueue_all-rows ids _
