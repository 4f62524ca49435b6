-- ===== src/Budget/Controller/Invariant.antt =====
-- budget.ts: the invariant of a controller, over any sequence of calls.
use mathlib.Core.Path.{subst}
use ikimetr.Prelude.{
  ◌≡◌, refl, sym, ◌∙◌, ap, true, false, not, ◌⊎◌, inl, inr, Option, none, some, List, [], ◌∷◌, ◌++◌,
  ◌==◌, text_Eq, Result, ok, err, Bool-cases, throw_if, >>=-eq-ok, ok_injective, map_err-eq_ok,
}
use ikimetr.Prelude.Dict.{keys}
use ikimetr.LedgerEvents.{LedgerEvent}
use ikimetr.Budget.Usage.{BudgetStateError}
use ikimetr.Budget.Replay.{derive_budget_state}
use ikimetr.Budget.Limits.{BudgetError}
use ikimetr.Budget.Prepare.{Setup, BudgetController, assert_storage_ready}
use ikimetr.Budget.Controller.{
  run_prepared, plan_reserve, reserve, plan_settle, plan_release, settle, release, initialize_from,
  initialize,
}
use ikimetr.Budget.Controller.Reserve.{plan_reserve-Admitted}
use ikimetr.Budget.Controller.Steps.{Op, apply, run, Step, apply-Step}

-- The state is derived from the events, and the file holds the events: all of them and no more, but
-- for one record whose write was not acknowledged.
pub record Consistent (c : BudgetController) : Type 0 where
  pub derived : derive_budget_state c.events (some c.recovered_ids) ≡ ok c.state
  pub ledger :
      (c.ledger ≡ c.events)
      ⊎ ((c.storage_failed ≡ true) × (e : LedgerEvent) × (c.ledger ≡ c.events ++ e ∷ []))

pub Consistent-file :
    (c : BudgetController) → Consistent c → c.storage_failed ≡ false → c.ledger ≡ c.events
Consistent-file c k h = elim k.ledger [ inl e ↦ e | inr (f, _, _) ↦ cc ]

run_prepared-err :
    {P A : Type 0} (m : Result BudgetError P) (f : P → BudgetController × Result BudgetError A)
    (c : BudgetController)
    → ((p : P) → m ≡ ok p → (run_prepared m f c).0 ≡ c)
    → (run_prepared m f c).0 ≡ c
run_prepared-err (ok p) f c h = h p refl
run_prepared-err (err e) f c h = refl

-- Once a write has failed, no call changes the controller or its ledger file.
pub apply-storage_failed :
    (setup : Setup) (op : Op) (c : BudgetController)
    → c.storage_failed ≡ true
    → apply setup op c ≡ c
unfolding apply reserve settle release plan_settle plan_release assert_storage_ready
apply-storage_failed setup (Op.reserve_op now outcome request) c h =
    run_prepared-err (plan_reserve setup now request c) _ c (λ p e.
      let admitted = plan_reserve-Admitted setup now request c p e in cc (admitted.storage, h))
apply-storage_failed setup (Op.settle_op now outcome request) c h = rw (h, run_prepared) refl
apply-storage_failed setup (Op.release_op now outcome request) c h = rw (h, run_prepared) refl

Step-Consistent :
    (setup : Setup) (c c' : BudgetController)
    → c.storage_failed ≡ false
    → Consistent c
    → Step setup c c'
    → Consistent c'
Step-Consistent setup c c' h k (Step.rejected e) = subst Consistent (sym e) k
Step-Consistent setup c c' h k (Step.latched e l) =
    let file = Consistent-file c k h in
    record {
      derived = rw (l.events, l.recovered_ids, l.state) k.derived;
      ledger = elim l.ledger [
        | inl same ↦ inl (same ∙ file ∙ sym l.events)
        | inr more ↦ inr (l.storage_failed, e, more ∙ ap (λ x. x ++ e ∷ []) (file ∙ sym l.events))
      ];
    }
Step-Consistent setup c c' h k (Step.made request r m) = record {
  derived = m.derived;
  ledger = inl (
      m.ledger
      ∙ ap (λ x. x ++ LedgerEvent.budget_reservation r ∷ []) (Consistent-file c k h)
      ∙ sym m.events);
}
Step-Consistent setup c c' h k (Step.closed event settlement id s m) = record {
  derived = m.derived;
  ledger = inl (
      m.ledger
      ∙ ap (λ x. x ++ LedgerEvent.budget_settlement s ∷ []) (Consistent-file c k h)
      ∙ sym m.events);
}

-- Every call keeps it, whatever the clock and the disk do.
pub apply-Consistent :
    (setup : Setup) (op : Op) (c : BudgetController) → Consistent c → Consistent (apply setup op c)
apply-Consistent setup op c k = elim (Bool-cases c.storage_failed) [
  | inl f ↦ subst Consistent (sym (apply-storage_failed setup op c f)) k
  | inr f ↦ Step-Consistent setup c (apply setup op c) f k (apply-Step setup op c)
]

-- Any sequence of calls, with any clocks and any outcomes of the writes, keeps a controller
-- consistent: its state is derived from its events, and the ledger file holds those events and
-- at most one unacknowledged record more, which only a latched controller has.
pub run-Consistent :
    (setup : Setup) (ops : List Op) (c : BudgetController)
    → Consistent c
    → Consistent (run setup ops c)
unfolding run
run-Consistent setup [] c k = k
run-Consistent setup (op ∷ ops) c k =
    run-Consistent setup ops (apply setup op c) (apply-Consistent setup op c k)

-- A controller that `initialize` returns is consistent, holds the events that the ledger
-- replayed, and has no failed write.
pub initialize-Consistent :
    (setup : Setup) (file : Option (List LedgerEvent)) (c : BudgetController)
    → initialize setup file ≡ ok c
    → Consistent c × (file ≡ some c.ledger) × (c.storage_failed ≡ false)
unfolding initialize initialize_from
initialize-Consistent setup none c h = cc
initialize-Consistent setup (some events) c h =
    let h1 = map_err-eq_ok _ _ _ h in
    let (_, _, h2) =
      >>=-eq-ok
        (throw_if (not (setup.pricing.config_hash == setup.config.config_hash))
          BudgetStateError.resolver_mismatch)
        _ h1 in
    let (first, _, h3) = >>=-eq-ok (derive_budget_state events none) _ h2 in
    let (state, h4, h5) =
      >>=-eq-ok (derive_budget_state events (some (keys first.active_reservations))) _ h3 in
    subst (λ x. Consistent x × (some events ≡ some x.ledger) × (x.storage_failed ≡ false))
      (ok_injective h5) (record { derived = h4; ledger = inl refl }, refl, refl)
