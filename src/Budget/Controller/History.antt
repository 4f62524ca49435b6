-- ===== src/Budget/Controller/History.antt =====
-- budget.ts: what holds of a controller for the rest of its life, and across a restart.
use mathlib.Core.List.{append_assoc, append-nil}
use ikimetr.Prelude.{
  ◌≡◌, refl, sym, ◌∙◌, ap, true, false, ◌||◌, not, inl, inr, Option, none, some, List, [], ◌∷◌,
  ◌++◌, ◌==◌, text_Eq, Text, ok, err, Result-cases, >>=-eq-ok, ok_injective,
}
use ikimetr.Prelude.Dict.{lookup, keys}
use ikimetr.LedgerEvents.{LedgerEvent, BudgetSettlement}
use ikimetr.Budget.Replay.{
  ReplayedBudgetState, has_id, replay_events, empty_replay, empty_summary, summarize,
  recovery_blocking, is_empty, derive_budget_state,
}
use ikimetr.Budget.Spec.{records_of, has_overrun}
use ikimetr.Budget.Spec.Extend.{
  has_overrun-append, settled_record-append, settled_record-snoc, lookup-records_of,
  open_record-some, open_record-settled,
}
use ikimetr.Budget.Derive.{Derived, derive_budget_state-Derived, settled_record}
use ikimetr.Budget.Limits.{ErrorCode, BudgetError, fail}
use ikimetr.Budget.Prepare.{BudgetReservationRequest, Setup, BudgetController, assert_storage_ready}
use ikimetr.Budget.Controller.{
  AppendOutcome, BudgetSettlementRequest, run_prepared, reserve, plan_settle, settle,
  require_active_reservation, initialize_from, initialize,
}
use ikimetr.Budget.Controller.Reserve.{reserve-Made}
use ikimetr.Budget.Controller.Settle.{Closed, settle-Closed}
use ikimetr.Budget.Controller.Steps.{Op, apply, run, Step, apply-Step}
use ikimetr.Budget.Controller.Invariant.{
  Consistent, Consistent-file, apply-Consistent, run-Consistent,
}

-- The events only grow.
Extends : BudgetController → BudgetController → Type 0
Extends c c' = (fs : List LedgerEvent) × (c'.events ≡ c.events ++ fs)

Step-Extends : (setup : Setup) (c c' : BudgetController) → Step setup c c' → Extends c c'
unfolding Extends
Step-Extends setup c c' (Step.rejected e) =
    ([], ap (λ (x : BudgetController). x.events) e ∙ sym (append-nil c.events))
Step-Extends setup c c' (Step.latched e l) = ([], l.events ∙ sym (append-nil c.events))
Step-Extends setup c c' (Step.made request r m) = (_, m.events)
Step-Extends setup c c' (Step.closed event settlement id s m) = (_, m.events)

-- No sequence of calls takes an event back: the events afterwards are the events before and some
-- more.
pub run-extends :
    (setup : Setup) (ops : List Op) (c : BudgetController)
    → (fs : List LedgerEvent) × ((run setup ops c).events ≡ c.events ++ fs)
unfolding run Extends
run-extends setup [] c = ([], sym (append-nil c.events))
run-extends setup (op ∷ ops) c =
    let (fs, e) = Step-Extends setup c (apply setup op c) (apply-Step setup op c) in
    let (gs, d) = run-extends setup ops (apply setup op c) in
    (fs ++ gs, d ∙ ap (λ x. x ++ gs) e ∙ append_assoc c.events fs gs)

Derived-of : (c : BudgetController) → Consistent c → Derived c.events (some c.recovered_ids) c.state
Derived-of c k = derive_budget_state-Derived c.events (some c.recovered_ids) c.state k.derived

-- An id that is settled stays settled.
run-settled :
    (setup : Setup) (ops : List Op) (c : BudgetController) (id : Text)
    → Consistent c
    → has_id id c.state.settled_ids ≡ true
    → has_id id (run setup ops c).state.settled_ids ≡ true
run-settled setup ops c id k h =
    let (fs, e) = run-extends setup ops c in
    let now = Derived-of c k in
    let after = Derived-of (run setup ops c) (run-Consistent setup ops c k) in
    after.settled id
    ∙ ap (λ x. settled_record (lookup id (records_of x))) e
    ∙ settled_record-append id c.events fs (sym (now.settled id) ∙ h)

-- A settled id is not active.
settled-inactive :
    (c : BudgetController) (id : Text)
    → Consistent c
    → has_id id c.state.settled_ids ≡ true
    → lookup id c.state.active_reservations ≡ none
settled-inactive c id k h =
    let d = Derived-of c k in d.active id ∙ open_record-settled _ (sym (d.settled id) ∙ h)

Closed-settled :
    (event settlement id : Text) (s : BudgetSettlement) (c c' : BudgetController)
    → Consistent c
    → Consistent c'
    → Closed event settlement id s c c'
    → has_id id c'.state.settled_ids ≡ true
Closed-settled event settlement id s c c' k k' m =
    let found = open_record-some _ m.rec (sym ((Derived-of c k).active id) ∙ m.active) in
    let named = m.of_reservation ∙ lookup-records_of id c.events m.rec found in
    (Derived-of c' k').settled id
    ∙ ap (λ x. settled_record (lookup id (records_of x))) m.events
    ∙ settled_record-snoc id c.events s m.rec found named

settled-refused :
    (setup : Setup) (now : Option Text) (outcome : AppendOutcome)
    (request : BudgetSettlementRequest) (c : BudgetController)
    → c.storage_failed ≡ false
    → lookup request.reservation_id c.state.active_reservations ≡ none
    → has_id request.reservation_id c.state.settled_ids ≡ true
    → settle setup now outcome request c ≡ (c, fail ErrorCode.already_settled)
unfolding settle plan_settle assert_storage_ready require_active_reservation
settled-refused setup now outcome request c f a s = rw (f, a, s, run_prepared) refl

-- After a consistent controller has settled a reservation, and whatever calls follow, a further
-- settlement of the same reservation leaves the controller as it is and fails with
-- ALREADY_SETTLED, where no write has failed meanwhile.
pub settle_once :
    (setup : Setup) (now later : Option Text) (outcome outcome' : AppendOutcome)
    (request again : BudgetSettlementRequest) (c : BudgetController) (s : BudgetSettlement)
    (ops : List Op)
    → Consistent c
    → (settle setup now outcome request c).1 ≡ ok s
    → again.reservation_id ≡ request.reservation_id
    → (run setup ops (settle setup now outcome request c).0).storage_failed ≡ false
    → settle setup later outcome' again (run setup ops (settle setup now outcome request c).0)
      ≡ (run setup ops (settle setup now outcome request c).0, fail ErrorCode.already_settled)
unfolding apply
settle_once setup now later outcome outcome' request again c s ops k h same f =
    let c' = (settle setup now outcome request c).0 in
    let k' : Consistent c' = apply-Consistent setup (Op.settle_op now outcome request) c k in
    let closed = settle-Closed setup now outcome request c s h in
    let settled = run-settled setup ops c' request.reservation_id k' (
      Closed-settled request.event_id request.settlement_id request.reservation_id s c c' k k'
        closed) in
    let there : has_id again.reservation_id (run setup ops c').state.settled_ids ≡ true =
      rw same settled in
    settled-refused setup later outcome' again (run setup ops c') f
      (settled-inactive (run setup ops c') again.reservation_id (run-Consistent setup ops c' k')
        there)
      there

-- The circuit stays open.
run-circuit :
    (setup : Setup) (ops : List Op) (c : BudgetController)
    → Consistent c
    → has_overrun c.events ≡ true
    → (run setup ops c).state.discrepancy_circuit_open ≡ true
run-circuit setup ops c k h =
    let (fs, e) = run-extends setup ops c in
    (Derived-of (run setup ops c) (run-Consistent setup ops c k)).circuit
    ∙ ap has_overrun e
    ∙ has_overrun-append c.events fs
    ∙ ap (λ x. x || has_overrun fs) h

-- Once the events of a consistent controller hold a settlement that overran its reservation, an
-- automatic reservation fails after any further calls.
pub overrun_blocks :
    (setup : Setup) (now : Option Text) (outcome : AppendOutcome)
    (request : BudgetReservationRequest) (c : BudgetController) (ops : List Op)
    → Consistent c
    → has_overrun c.events ≡ true
    → request.automatic ≡ true
    → (e : BudgetError) × ((reserve setup now outcome request (run setup ops c)).1 ≡ err e)
overrun_blocks setup now outcome request c ops k h a =
    elim (Result-cases (reserve setup now outcome request (run setup ops c)).1) [
      | inl (r, q) ↦
          let made = reserve-Made setup now outcome request (run setup ops c) r q in
          cc (made.admitted.circuit a, run-circuit setup ops c k h)
      | inr (e, q) ↦ (e, q)
    ]

-- The state without what depends on the recovery of open reservations.
abbrev SameButRecovery : ReplayedBudgetState → ReplayedBudgetState → Type 0
SameButRecovery s t =
    (s.totals ≡ t.totals)
    × (s.active_reservations ≡ t.active_reservations)
    × (s.settled_ids ≡ t.settled_ids)
    × (s.discrepancy_circuit_open ≡ t.discrepancy_circuit_open)

derive_again :
    (events : List LedgerEvent) (o p : Option (List Text)) (st : ReplayedBudgetState)
    → derive_budget_state events o ≡ ok st
    → (st' : ReplayedBudgetState) × (derive_budget_state events p ≡ ok st') × SameButRecovery st' st
unfolding derive_budget_state
derive_again events o p st h =
    let (rp, h1, h2) = >>=-eq-ok (replay_events events empty_replay) _ h in
    let (sum, h3, h4) = >>=-eq-ok (summarize rp.records empty_summary) _ h2 in
    let e = ok_injective h4 in
    let blocking = recovery_blocking p (keys sum.active) in
    (
      record {
        active_reservations = sum.active;
        recovery_blocking_ids = blocking;
        settled_ids = sum.settled;
        totals = sum.totals;
        discrepancy_circuit_open = rp.discrepancy_circuit;
        automatic_calls_blocked = rp.discrepancy_circuit || not (is_empty blocking);
      },
      rw (h1, h3) refl,
      (
        ap (λ (x : ReplayedBudgetState). x.totals) e,
        ap (λ (x : ReplayedBudgetState). x.active_reservations) e,
        ap (λ (x : ReplayedBudgetState). x.settled_ids) e,
        ap (λ (x : ReplayedBudgetState). x.discrepancy_circuit_open) e,
      ),
    )

-- A consistent controller whose writes never failed can be restarted on its ledger file, when
-- the resolver has the hash of the configuration: `initialize` succeeds, with the same totals,
-- active and settled reservations and circuit, and with the active reservations as the recovered
-- ones.
pub restart :
    (setup : Setup) (c : BudgetController)
    → Consistent c
    → c.storage_failed ≡ false
    → (setup.pricing.config_hash == setup.config.config_hash) ≡ true
    → (c' : BudgetController) × (initialize setup (some c.ledger) ≡ ok c')
      × (c'.state.totals ≡ c.state.totals)
      × (c'.state.active_reservations ≡ c.state.active_reservations)
      × (c'.state.settled_ids ≡ c.state.settled_ids)
      × (c'.state.discrepancy_circuit_open ≡ c.state.discrepancy_circuit_open)
      × (c'.recovered_ids ≡ keys c.state.active_reservations)
unfolding initialize initialize_from
restart setup c k f same =
    let file = Consistent-file c k f in
    let (first, h1, (t1, a1, s1, d1)) =
      derive_again c.events (some c.recovered_ids) none c.state k.derived in
    let (st, h2, (t2, a2, s2, d2)) =
      derive_again c.events none (some (keys first.active_reservations)) first h1 in
    (
      record {
        ledger = c.events;
        storage_failed = false;
        events = c.events;
        recovered_ids = keys first.active_reservations;
        state = st;
      },
      rw (file, same, h1, h2) refl,
      t2 ∙ t1,
      a2 ∙ a1,
      s2 ∙ s1,
      d2 ∙ d1,
      ap keys a1,
    )
