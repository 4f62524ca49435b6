-- ===== src/Jobs/Terminal.antt =====
-- job-processor.ts: what can become of a row.
use mathlib.Core.Path.{subst}
use ikimetr.Prelude.{
  ℕ, ◌+◌, ◌≤◌, ◌<◌, ◌≡◌, refl, sym, ◌∙◌, ap, Bool, true, false, ◌&&◌, not, some, List, [], ◌∷◌,
  arith, leb, keep, take, if◌then◌else◌, ◌==◌, Text, text_Eq, text_eq_iff, inl, inr, Option-cases,
  map,
}
use ikimetr.Jobs.{
  JobStatus, JobRow, JobOptions, Outcome, Handlers, Store, is_queued, is_processing, is_terminal,
  find_row, update, claim, complete_job, bury_job, retry_job, schedule_retry, run_handler,
  finish_job, process_one, is_stale, ids_of, enqueue_all, recover_stale, requeue_pending, reset_job,
  reset_all, run_scheduler,
}
use ikimetr.Jobs.Rows.{
  change, find_row-update, find_row-id, JobOp, apply_job, run_jobs, EndsInTime, InTime,
  enqueue_all-rows,
}

-- The attempts are within the bound, and below it while the job has not ended.
abbrev pub IsBounded : JobRow → Type 0
IsBounded r =
    (r.attempts ≤ r.max_attempts) × (is_terminal r.status ≡ false → r.attempts < r.max_attempts)

pub record RowMove (r r' : JobRow) : Type 0 where
  pub final : is_terminal r.status ≡ true → r' ≡ r
  pub bounded : IsBounded r → IsBounded r'
  pub grows : r.attempts ≤ r'.attempts

RowMove-refl : (r : JobRow) → RowMove r r
RowMove-refl r = record { final = λ h. refl; bounded = λ b. b; grows = omega arith }

RowMove-trans : {a b c : JobRow} → RowMove a b → RowMove b c → RowMove a c
RowMove-trans m n = record {
  final =
      λ h. let e = m.final h in n.final (subst (λ x. is_terminal x.status ≡ true) (sym e) h) ∙ e;
  bounded = λ k. n.bounded (m.bounded k);
  grows = omega (arith, m.grows, n.grows);
}

-- Every row is found afterwards, and moved so.
abbrev pub RowsMove : List JobRow → List JobRow → Type 0
RowsMove rows rows' =
    (id : Text) (r : JobRow)
    → find_row id rows ≡ some r
    → (r' : JobRow) × (find_row id rows' ≡ some r') × RowMove r r'

abbrev pub StoreMove : Store → Store → Type 0
StoreMove s s' = RowsMove s.rows s'.rows

StoreMove-same : (s s' : Store) → s'.rows ≡ s.rows → StoreMove s s'
StoreMove-same s s' e id r h = (r, ap (find_row id) e ∙ h, RowMove-refl r)

RowsMove-trans : (a b c : List JobRow) → RowsMove a b → RowsMove b c → RowsMove a c
RowsMove-trans a b c m n id r h =
    let (r1, h1, m1) = m id r h in let (r2, h2, m2) = n id r1 h1 in (r2, h2, RowMove-trans m1 m2)

move_if : (b : Bool) (r x : JobRow) → (b ≡ true → RowMove r x) → RowMove r (if b then x else r)
move_if true r x h = h refl
move_if false r x h = RowMove-refl r

update-RowsMove :
    (rows : List JobRow) (p : JobRow → Bool) (f : JobRow → JobRow)
    → ((r : JobRow) → (f r).id ≡ r.id)
    → ((id : Text) (r : JobRow) → find_row id rows ≡ some r → p r ≡ true → RowMove r (f r))
    → RowsMove rows (update p f rows)
update-RowsMove rows p f same h id r found = (
  if p r then f r else r,
  find_row-update p f id rows same ∙ ap (change p f) found,
  move_if (p r) r (f r) (h id r found),
)

queued_of :
    (b : Bool) (status : JobStatus) → (b && is_queued status) ≡ true → is_queued status ≡ true
queued_of true status h = h
queued_of false status h = cc

open_of : (status : JobStatus) → is_queued status ≡ true → is_terminal status ≡ false
open_of JobStatus.queued h = refl
open_of JobStatus.processing h = cc
open_of JobStatus.completed h = cc
open_of JobStatus.dead h = cc

claim-StoreMove : (now : ℕ) (id : Text) (s : Store) → StoreMove s (claim now id s)
unfolding claim
claim-StoreMove now id s =
    update-RowsMove s.rows (λ r. r.id == id && is_queued r.status) _ (λ r. refl)
      (λ j r found h.
        let still = open_of r.status (queued_of (r.id == id) r.status h) in
        record {
          final = λ t. cc (still, t);
          bounded = λ b. (b.0, λ t. b.1 still);
          grows = omega arith;
        })

-- The row that a claim has taken.
abbrev pub claimed : ℕ → JobRow → JobRow
claimed now job = record job { status = JobStatus.processing; updated_at = now }

pub find_row-claim :
    (now : ℕ) (job : JobRow) (s : Store)
    → find_row job.id s.rows ≡ some job
    → is_queued job.status ≡ true
    → find_row job.id (claim now job.id s).rows ≡ some (claimed now job)
unfolding claim
find_row-claim now job s found queued =
    let here : (job.id == job.id && is_queued job.status) ≡ true =
      ground (arith, queued, text_eq_iff job.id job.id) in
    find_row-update (λ r. r.id == job.id && is_queued r.status)
      (λ r. record r { status = JobStatus.processing; updated_at = now }) job.id s.rows (λ r. refl)
    ∙ ap
        (change (λ r. r.id == job.id && is_queued r.status)
          (λ r. record r { status = JobStatus.processing; updated_at = now }))
        found
    ∙ ap (λ (b : Bool). some (if b then claimed now job else job)) here

-- An update of the claimed row.
finish-RowsMove :
    (now : ℕ) (job : JobRow) (rows : List JobRow) (f : JobRow → JobRow)
    → find_row job.id rows ≡ some (claimed now job)
    → ((r : JobRow) → (f r).id ≡ r.id)
    → RowMove (claimed now job) (f (claimed now job))
    → RowsMove rows (update (λ r. r.id == job.id) f rows)
finish-RowsMove now job rows f found same move =
    update-RowsMove rows (λ r. r.id == job.id) f same
      (λ id r at h.
        let e = sym (find_row-id id rows r at) ∙ (text_eq_iff r.id job.id).0 h in
        let there = subst (λ x. find_row x rows ≡ some r) e at in
        subst (λ x. RowMove x (f x)) (some_injective (sym found ∙ there)) move)
  where
    some_injective : {A : Type 0} {a b : A} → some a ≡ some b → a ≡ b
    some_injective h = cc

StoreMove-if :
    (b : Bool) (s x y : Store)
    → (b ≡ true → StoreMove s x)
    → (b ≡ false → StoreMove s y)
    → StoreMove s (if b then x else y)
StoreMove-if true s x y h k = h refl
StoreMove-if false s x y h k = k refl

finish_job-StoreMove :
    (options : JobOptions) (now at : ℕ) (job : JobRow) (outcome : Outcome) (s : Store)
    → find_row job.id s.rows ≡ some (claimed at job)
    → StoreMove s (finish_job options now job outcome s)
unfolding finish_job complete_job bury_job retry_job schedule_retry
finish_job-StoreMove options now at job Outcome.finished s found =
    finish-RowsMove at job s.rows _ found (λ r. refl)
      (record { final = λ t. cc; bounded = λ b. (b.0, λ t. cc); grows = omega arith })
finish_job-StoreMove options now at job (Outcome.permanent message) s found =
    finish-RowsMove at job s.rows _ found (λ r. refl)
      (record {
        final = λ t. cc;
        bounded = λ b. (omega (arith, b.1 refl), λ t. cc);
        grows = omega arith;
      })
finish_job-StoreMove options now at job (Outcome.failed message) s found =
    StoreMove-if (leb job.max_attempts (job.attempts + 1)) s _ _
      (λ e.
        finish-RowsMove at job s.rows _ found (λ r. refl)
          (record {
            final = λ t. cc;
            bounded = λ b. (omega (arith, b.1 refl), λ t. cc);
            grows = omega arith;
          }))
      (λ e.
        finish-RowsMove at job s.rows _ found (λ r. refl)
          (record {
            final = λ t. cc;
            bounded = λ b. (omega (arith, b.1 refl), λ t. ground (arith, e));
            grows = omega arith;
          }))

process_one-StoreMove :
    (options : JobOptions) (handlers : Handlers) (now : ℕ) (id : Text) (s : Store)
    → StoreMove s (process_one options handlers now id s)
unfolding process_one
process_one-StoreMove options handlers now id s = elim (Option-cases (find_row id s.rows)) [
  | inl none_there ↦ rw (none_there, process_one) (StoreMove-same s s refl)
  | inr (job, there) ↦
      let e = find_row-id id s.rows job there in
      let at = subst (λ x. find_row x s.rows ≡ some job) (sym e) there in
      rw (there, process_one)
        (StoreMove-if (is_terminal job.status) s s _ (λ t. StoreMove-same s s refl)
          (λ t.
            StoreMove-if (not (is_queued job.status)) s s _ (λ q. StoreMove-same s s refl)
              (λ q.
                RowsMove-trans s.rows (claim now job.id s).rows _ (claim-StoreMove now job.id s) (
                  finish_job-StoreMove options now now job (run_handler handlers job)
                    (claim now job.id s) (find_row-claim now job s at (not_false q))))))
]
  where
    not_false : {b : Bool} → not b ≡ false → b ≡ true
    not_false h = ground arith

processing_open :
    (status : JobStatus) (b : Bool)
    → (is_processing status && b) ≡ true
    → is_terminal status ≡ false
processing_open JobStatus.queued b h = cc
processing_open JobStatus.processing b h = refl
processing_open JobStatus.completed b h = cc
processing_open JobStatus.dead b h = cc

open_row : (b c : Bool) → (b && not c) ≡ true → c ≡ false
open_row b c h = ground arith

requeued :
    (now : ℕ) (r : JobRow)
    → is_terminal r.status ≡ false
    → RowMove r (record r { status = JobStatus.queued; updated_at = now })
requeued now r still = record {
  final = λ t. cc (still, t);
  bounded = λ b. (b.0, λ t. b.1 still);
  grows = omega arith;
}

enqueue_all-StoreMove :
    (ids : List Text) (s x : Store) → StoreMove s x → StoreMove s (enqueue_all ids x)
enqueue_all-StoreMove ids s x m = subst (λ y. RowsMove s.rows y) (sym (enqueue_all-rows ids x)) m

recover_stale-StoreMove :
    (options : JobOptions) (now : ℕ) (s : Store) → StoreMove s (recover_stale options now s)
unfolding recover_stale
recover_stale-StoreMove options now s =
    let stale : JobRow → Bool = λ r. is_processing r.status && is_stale options now r in
    enqueue_all-StoreMove (ids_of (keep stale s.rows)) s _ (
      update-RowsMove s.rows stale (λ r. record r { status = JobStatus.queued; updated_at = now })
        (λ r. refl)
        (λ id r found h. requeued now r (processing_open r.status (is_stale options now r) h)))

reset_job-StoreMove : (now : ℕ) (id : Text) (s : Store) → StoreMove s (reset_job now id s)
unfolding reset_job
reset_job-StoreMove now id s = elim (Option-cases (find_row id s.rows)) [
  | inl none_there ↦ rw (none_there, reset_job) (StoreMove-same s s refl)
  | inr (job, there) ↦
      rw (there, reset_job)
        (StoreMove-if (is_terminal job.status) s s _ (λ t. StoreMove-same s s refl)
          (λ t.
            update-RowsMove s.rows (λ r. r.id == id && not (is_terminal r.status))
              (λ r. record r { status = JobStatus.queued; updated_at = now }) (λ r. refl)
              (λ j r found h. requeued now r (open_row (r.id == id) (is_terminal r.status) h))))
]

reset_all-StoreMove : (now : ℕ) (ids : List Text) (s : Store) → StoreMove s (reset_all now ids s)
reset_all-StoreMove now [] s = StoreMove-same s s refl
reset_all-StoreMove now (id ∷ ids) s =
    RowsMove-trans s.rows (reset_job now id s).rows _ (reset_job-StoreMove now id s)
      (reset_all-StoreMove now ids (reset_job now id s))

apply_job-StoreMove :
    (options : JobOptions) (handlers : Handlers) (op : JobOp) (s : Store)
    → EndsInTime op s
    → StoreMove s (apply_job options handlers op s)
unfolding apply_job requeue_pending run_scheduler
apply_job-StoreMove options handlers (JobOp.process now id) s in_time =
    process_one-StoreMove options handlers now id s
apply_job-StoreMove options handlers (JobOp.claim_job now id) s in_time = claim-StoreMove now id s
apply_job-StoreMove options handlers (JobOp.end_job now job outcome) s (at, found) =
    finish_job-StoreMove options now at job outcome s found
apply_job-StoreMove options handlers (JobOp.recover now) s in_time =
    recover_stale-StoreMove options now s
apply_job-StoreMove options handlers (JobOp.requeue now pushed) s in_time =
    let pending =
      take 500 (keep (λ (r : JobRow). is_queued r.status && is_stale options now r) s.rows) in
    enqueue_all-StoreMove (keep pushed (ids_of pending)) s s (StoreMove-same s s refl)
apply_job-StoreMove options handlers (JobOp.schedule now) s in_time =
    reset_all-StoreMove now
      (map (λ (e : Text × ℕ). e.0) (keep (λ (e : Text × ℕ). leb e.1 now) s.retries))
      (record s { retries = keep (λ (e : Text × ℕ). not (leb e.1 now)) s.retries })

-- Over any calls of the processors, with claims and ends of jobs in any order, every row stays
-- in the table, one that is completed or dead is never changed, the attempts never fall, and a
-- row whose attempts were within its bound, and below it while it was open, stays so. Whenever a
-- job ends, its row is still as its claim left it.
pub run_jobs-StoreMove :
    (options : JobOptions) (handlers : Handlers) (ops : List JobOp) (s : Store)
    → InTime options handlers ops s
    → StoreMove s (run_jobs options handlers ops s)
unfolding run_jobs
run_jobs-StoreMove options handlers [] s in_time = StoreMove-same s s refl
run_jobs-StoreMove options handlers (op ∷ ops) s (now, later) =
    RowsMove-trans s.rows (apply_job options handlers op s).rows _
      (apply_job-StoreMove options handlers op s now)
      (run_jobs-StoreMove options handlers ops (apply_job options handlers op s) later)
