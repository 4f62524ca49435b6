-- ===== src/Budget/Controller/Steps.antt =====
-- budget.ts: every call of the controller as one of four kinds of step.
use mathlib.Core.Path.{subst}
use ikimetr.Prelude.{
  ◌≡◌, refl, sym, ◌∙◌, ◌⊎◌, inl, inr, Option, some, List, [], ◌∷◌, ◌++◌, Text, Result, ok, err,
  Result-cases, map_err,
}
use ikimetr.LedgerEvents.{BudgetReservation, BudgetSettlement, LedgerEvent}
use ikimetr.Budget.Replay.{ReplayedBudgetState, derive_budget_state}
use ikimetr.Budget.Limits.{BudgetError, Checked}
use ikimetr.Budget.Prepare.{BudgetReservationRequest, Setup, BudgetController}
use ikimetr.Budget.Controller.{
  AppendOutcome, BudgetSettlementRequest, BudgetReleaseRequest, append_and_apply, run_prepared,
  returning, plan_reserve, reserve, plan_settle, plan_release, append_settlement, remove_id, settle,
  release,
}
use ikimetr.Budget.Controller.Append.{Latched, Ended, append_and_apply-Ended}
use ikimetr.Budget.Controller.Reserve.{Made, reserve-Made}
use ikimetr.Budget.Controller.Settle.{Closed, settle-Closed, release-Closed}

-- A call, with the clock and the outcome of the write that it meets.
pub data Op : Type 0 where
  reserve_op : Option Text → AppendOutcome → BudgetReservationRequest → Op
  settle_op : Option Text → AppendOutcome → BudgetSettlementRequest → Op
  release_op : Option Text → AppendOutcome → BudgetReleaseRequest → Op

unfoldable pub apply : Setup → Op → BudgetController → BudgetController
apply setup (Op.reserve_op now outcome request) c = (reserve setup now outcome request c).0
apply setup (Op.settle_op now outcome request) c = (settle setup now outcome request c).0
apply setup (Op.release_op now outcome request) c = (release setup now outcome request c).0

unfoldable pub run : Setup → List Op → BudgetController → BudgetController
run setup [] c = c
run setup (op ∷ ops) c = run setup ops (apply setup op c)

-- Nothing changed; or the controller latched on a failed write; or a reservation was made; or one
-- was closed.
pub data Step (setup : Setup) (c c' : BudgetController) : Type 0 where
  rejected : c' ≡ c → Step setup c c'
  latched : (e : LedgerEvent) → Latched e c c' → Step setup c c'
  made :
      (request : BudgetReservationRequest) (r : BudgetReservation)
      → Made setup request r c c'
      → Step setup c c'
  closed :
      (event settlement id : Text) (s : BudgetSettlement)
      → Closed event settlement id s c c'
      → Step setup c c'

-- A call that threw changed nothing but, at most, the latch.
abbrev Unchanged : BudgetController → BudgetController → Type 0
Unchanged c c' = (c' ≡ c) ⊎ ((e : LedgerEvent) × Latched e c c')

run_prepared-eq_err :
    {P A : Type 0} (m : Result BudgetError P) (f : P → BudgetController × Result BudgetError A)
    (c : BudgetController)
    → ((p : P) → m ≡ ok p → (f p).1 ≡ (run_prepared m f c).1 → Unchanged c (f p).0)
    → Unchanged c (run_prepared m f c).0
run_prepared-eq_err (ok p) f c h = h p refl refl
run_prepared-eq_err (err e) f c h = inl refl

returning-eq_err :
    {A : Type 0} (a : A) (r : BudgetController × Checked) {x : BudgetError}
    → (returning a r).1 ≡ err x
    → (r.1 ≡ err x) × ((returning a r).0 ≡ r.0)
returning-eq_err a (c, ok u) h = cc
returning-eq_err a (c, err e) h = (cc, refl)

Ended-eq_err :
    (e : LedgerEvent) (events : List LedgerEvent) (state : ReplayedBudgetState)
    (recovered : List Text) (c : BudgetController) (p : BudgetController × Checked)
    {x : BudgetError}
    → Ended e events state recovered c p
    → p.1 ≡ err x
    → Unchanged c p.0
Ended-eq_err e events state recovered c p (inl (a, h)) q = cc
Ended-eq_err e events state recovered c p (inr (a, h)) q = inr (e, a)

append_settlement_err :
    (setup : Setup) (outcome : AppendOutcome) (s : BudgetSettlement) (c : BudgetController)
    {x : BudgetError}
    → (append_settlement setup outcome s c).1 ≡ err x
    → Unchanged c (append_settlement setup outcome s c).0
unfolding append_settlement
append_settlement_err setup outcome s c h =
    let events = c.events ++ LedgerEvent.budget_settlement s ∷ [] in
    let recovered = remove_id s.reservation_id c.recovered_ids in
    run_prepared-eq_err
      (map_err BudgetError.state_error (derive_budget_state events (some recovered)))
      (λ st. append_and_apply setup outcome (LedgerEvent.budget_settlement s) events st recovered c)
      c
      (λ st e same.
        Ended-eq_err (LedgerEvent.budget_settlement s) events st recovered c _
          (append_and_apply-Ended setup (LedgerEvent.budget_settlement s) events st recovered c
            outcome)
          (same ∙ h))

reserve_err :
    (setup : Setup) (now : Option Text) (outcome : AppendOutcome)
    (request : BudgetReservationRequest) (c : BudgetController) {x : BudgetError}
    → (reserve setup now outcome request c).1 ≡ err x
    → Unchanged c (reserve setup now outcome request c).0
unfolding reserve
reserve_err setup now outcome request c h =
    run_prepared-eq_err (plan_reserve setup now request c) _ c (λ p e same.
      let event = LedgerEvent.budget_reservation p.reservation in
      let q =
        append_and_apply setup outcome event p.candidate_events p.candidate_state c.recovered_ids
          c in
      let (failed, state) = returning-eq_err p.reservation q (same ∙ h) in
      subst (λ x. Unchanged c x) (sym state)
        (Ended-eq_err event p.candidate_events p.candidate_state c.recovered_ids c q
          (append_and_apply-Ended setup event p.candidate_events p.candidate_state c.recovered_ids c
            outcome)
          failed))

closing_err :
    (setup : Setup) (outcome : AppendOutcome) (m : Result BudgetError BudgetSettlement)
    (c : BudgetController) {x : BudgetError}
    → (run_prepared m (λ s. returning s (append_settlement setup outcome s c)) c).1 ≡ err x
    → Unchanged c (run_prepared m (λ s. returning s (append_settlement setup outcome s c)) c).0
closing_err setup outcome m c h = run_prepared-eq_err m _ c (λ s e same.
    let (failed, state) = returning-eq_err s (append_settlement setup outcome s c) (same ∙ h) in
    subst (λ x. Unchanged c x) (sym state) (append_settlement_err setup outcome s c failed))

Unchanged-Step : {setup : Setup} {c c' : BudgetController} → Unchanged c c' → Step setup c c'
Unchanged-Step (inl e) = Step.rejected e
Unchanged-Step (inr (e, l)) = Step.latched e l

-- Every call, whatever it returns or throws, leaves the controller as it is, or latches it on a
-- failed write with its events and state kept, or makes a reservation, or closes one.
pub apply-Step : (setup : Setup) (op : Op) (c : BudgetController) → Step setup c (apply setup op c)
unfolding apply settle release
apply-Step setup (Op.reserve_op now outcome request) c =
    elim (Result-cases (reserve setup now outcome request c).1) [
      | inl (r, h) ↦ Step.made request r (reserve-Made setup now outcome request c r h)
      | inr (x, h) ↦ Unchanged-Step (reserve_err setup now outcome request c h)
    ]
apply-Step setup (Op.settle_op now outcome request) c =
    elim (Result-cases (settle setup now outcome request c).1) [
      | inl (s, h) ↦ Step.closed _ _ _ s (settle-Closed setup now outcome request c s h)
      | inr (x, h) ↦
          Unchanged-Step (closing_err setup outcome (plan_settle setup now request c) c h)
    ]
apply-Step setup (Op.release_op now outcome request) c =
    elim (Result-cases (release setup now outcome request c).1) [
      | inl (s, h) ↦ Step.closed _ _ _ s (release-Closed setup now outcome request c s h)
      | inr (x, h) ↦
          Unchanged-Step (closing_err setup outcome (plan_release setup now request c) c h)
    ]
