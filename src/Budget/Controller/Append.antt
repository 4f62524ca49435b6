-- ===== src/Budget/Controller/Append.antt =====
-- budget.ts: the two ways in which `appendAndApply` ends, and the methods up to it.
use ikimetr.Prelude.{
  ◌≡◌, refl, ◌∙◌, ap, Bool, true, false, ◌⊎◌, inl, inr, List, [], ◌∷◌, ◌++◌, arith, Text, Result,
  ok, err, Result-cases, ok_injective,
}
use ikimetr.LedgerEvents.{LedgerEvent, Schema, LedgerError, parse_ledger_event}
use ikimetr.Budget.Replay.{ReplayedBudgetState}
use ikimetr.Budget.Limits.{ErrorCode, BudgetError, Checked, fail}
use ikimetr.Budget.Prepare.{Setup, BudgetController}
use ikimetr.Budget.Controller.{
  AppendOutcome, ledger_append, append_and_apply, run_prepared, returning,
}

pub parse_ledger_event_lem :
    (schema : Schema) (e : LedgerEvent) {v : LedgerEvent}
    → parse_ledger_event schema e ≡ ok v
    → v ≡ e
unfolding parse_ledger_event
parse_ledger_event_lem schema e h = ground arith

-- The event was written, and the candidate became the state.
pub record Applied (e : LedgerEvent) (next_events : List LedgerEvent)
    (next_state : ReplayedBudgetState) (next_recovered : List Text) (c c' : BudgetController)
    : Type 0 where
  pub ledger : c'.ledger ≡ c.ledger ++ e ∷ []
  pub storage_failed : c'.storage_failed ≡ c.storage_failed
  pub events : c'.events ≡ next_events
  pub recovered_ids : c'.recovered_ids ≡ next_recovered
  pub state : c'.state ≡ next_state

-- The write failed: the controller is latched, and keeps its events and its state.
pub record Latched (e : LedgerEvent) (c c' : BudgetController) : Type 0 where
  pub ledger : (c'.ledger ≡ c.ledger) ⊎ (c'.ledger ≡ c.ledger ++ e ∷ [])
  pub storage_failed : c'.storage_failed ≡ true
  pub events : c'.events ≡ c.events
  pub recovered_ids : c'.recovered_ids ≡ c.recovered_ids
  pub state : c'.state ≡ c.state

-- The four ways in which the append of the ledger ends.
module _ (schema : Schema) (e : LedgerEvent) (file : List LedgerEvent) where
  ledger_append-parsed :
      (outcome : AppendOutcome)
      → parse_ledger_event schema e ≡ ok e
      → ledger_append schema outcome e file ≡ (elim outcome [
        | AppendOutcome.appended ↦ (file ++ e ∷ [], true)
        | AppendOutcome.lost ↦ (file, false)
        | AppendOutcome.unacknowledged ↦ (file ++ e ∷ [], false)
      ])
  unfolding ledger_append
  ledger_append-parsed outcome h = rw (h, ledger_append)

  ledger_append-refused :
      (outcome : AppendOutcome) {x : LedgerError}
      → parse_ledger_event schema e ≡ err x
      → ledger_append schema outcome e file ≡ (file, false)
  unfolding ledger_append
  ledger_append-refused outcome h = rw (h, ledger_append)

  -- It returns with the record at the end of the file, or throws with the file as it was or with
  -- the record at its end.
  abbrev pub Appended : List LedgerEvent × Bool → Type 0
  Appended p =
      (p ≡ (file ++ e ∷ [], true))
      ⊎ ((next : List LedgerEvent) × (p ≡ (next, false))
          × ((next ≡ file) ⊎ (next ≡ file ++ e ∷ [])))

  Appended-parsed :
      (outcome : AppendOutcome)
      → parse_ledger_event schema e ≡ ok e
      → Appended (ledger_append schema outcome e file)
  Appended-parsed AppendOutcome.appended h = inl (ledger_append-parsed AppendOutcome.appended h)
  Appended-parsed AppendOutcome.lost h =
      inr (file, ledger_append-parsed AppendOutcome.lost h, inl refl)
  Appended-parsed AppendOutcome.unacknowledged h =
      inr (file ++ e ∷ [], ledger_append-parsed AppendOutcome.unacknowledged h, inr refl)

  pub ledger_append-Appended :
      (outcome : AppendOutcome) → Appended (ledger_append schema outcome e file)
  ledger_append-Appended outcome = elim (Result-cases (parse_ledger_event schema e)) [
    | inl (v, h) ↦ Appended-parsed outcome (h ∙ ap ok (parse_ledger_event_lem schema e h))
    | inr (x, h) ↦ inr (file, ledger_append-refused outcome h, inl refl)
  ]

abbrev pub Ended :
    LedgerEvent
    → List LedgerEvent
    → ReplayedBudgetState
    → List Text
    → BudgetController
    → BudgetController × Checked
    → Type 0
Ended e events state recovered c p =
    (Applied e events state recovered c p.0 × (p.1 ≡ ok tt))
    ⊎ (Latched e c p.0 × (p.1 ≡ fail ErrorCode.storage_failure))

module _ (setup : Setup) (e : LedgerEvent) (events : List LedgerEvent) (state : ReplayedBudgetState)
    (recovered : List Text) (c : BudgetController) where
  Latched-same : Latched e c (record c { storage_failed = true })
  Latched-same = record {
    ledger = inl refl;
    storage_failed = refl;
    events = refl;
    recovered_ids = refl;
    state = refl;
  }

  Ended-parsed :
      (outcome : AppendOutcome)
      → parse_ledger_event setup.schema e ≡ ok e
      → Ended e events state recovered c (append_and_apply setup outcome e events state recovered c)
  unfolding append_and_apply
  Ended-parsed AppendOutcome.appended h =
      rw (ledger_append-parsed setup.schema e c.ledger AppendOutcome.appended h, append_and_apply)
        (inl (
          record {
            ledger = refl;
            storage_failed = refl;
            events = refl;
            recovered_ids = refl;
            state = refl;
          },
          refl,
        ))
  Ended-parsed AppendOutcome.lost h =
      rw (ledger_append-parsed setup.schema e c.ledger AppendOutcome.lost h, append_and_apply)
        (inr (Latched-same, refl))
  Ended-parsed AppendOutcome.unacknowledged h =
      rw
        (
          ledger_append-parsed setup.schema e c.ledger AppendOutcome.unacknowledged h,
          append_and_apply,
        )
        (inr (
          record {
            ledger = inr refl;
            storage_failed = refl;
            events = refl;
            recovered_ids = refl;
            state = refl;
          },
          refl,
        ))

  -- Whatever the write does, it ends in one of the two ways.
  pub append_and_apply-Ended :
      (outcome : AppendOutcome)
      → Ended e events state recovered c (append_and_apply setup outcome e events state recovered c)
  unfolding append_and_apply
  append_and_apply-Ended outcome = elim (Result-cases (parse_ledger_event setup.schema e)) [
    | inl (v, h) ↦ Ended-parsed outcome (h ∙ ap ok (parse_ledger_event_lem setup.schema e h))
    | inr (x, h) ↦
        rw (ledger_append-refused setup.schema e c.ledger outcome h, append_and_apply)
          (inr (Latched-same, refl))
  ]

-- A method that returned got through its preparation.
pub run_prepared-eq_ok :
    {P A : Type 0} (m : Result BudgetError P) (f : P → BudgetController × Result BudgetError A)
    (c : BudgetController) {a : A}
    → (run_prepared m f c).1 ≡ ok a
    → (p : P) × (m ≡ ok p) × (run_prepared m f c ≡ f p)
run_prepared-eq_ok (ok p) f c h = (p, refl, refl)
run_prepared-eq_ok (err e) f c h = cc

pub returning-eq_ok :
    {A : Type 0} (a : A) (r : BudgetController × Checked) {b : A}
    → (returning a r).1 ≡ ok b
    → (a ≡ b) × (r.1 ≡ ok tt) × ((returning a r).0 ≡ r.0)
returning-eq_ok a (c, ok u) h = (ok_injective h, refl, refl)
returning-eq_ok a (c, err e) h = cc

-- An append that returned was applied.
pub Ended-eq_ok :
    (e : LedgerEvent) (events : List LedgerEvent) (state : ReplayedBudgetState)
    (recovered : List Text) (c : BudgetController) (p : BudgetController × Checked)
    → Ended e events state recovered c p
    → p.1 ≡ ok tt
    → Applied e events state recovered c p.0
Ended-eq_ok e events state recovered c p (inl (a, h)) q = a
Ended-eq_ok e events state recovered c p (inr (a, h)) q = cc
