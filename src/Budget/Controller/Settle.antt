-- ===== src/Budget/Controller/Settle.antt =====
-- budget.ts: what a successful `settle` or `release` promises.
use mathlib.Core.Path.{subst, subst₂}
use ikimetr.Prelude.{
  ◌≡◌, refl, sym, ◌∙◌, ap, false, Option, some, [], ◌∷◌, ◌++◌, arith, any, ◌==◌, text_Eq, Text, ok,
  >>=-eq-ok, throw_if-eq_ok, map_err, map_err-eq_ok, ok_injective, inl, inr, Option-cases,
}
use ikimetr.Prelude.Dict.{lookup}
use ikimetr.LedgerEvents.{BudgetSettlement, LedgerEvent, event_id, parse_ledger_event}
use ikimetr.Pricing.{calculate_cost}
use ikimetr.Budget.Replay.{ReservationRecord, derive_budget_state}
use ikimetr.Budget.Limits.{ErrorCode, BudgetError}
use ikimetr.Budget.Prepare.{Setup, BudgetController, assert_storage_ready, current_timestamp}
use ikimetr.Budget.Controller.{
  AppendOutcome, BudgetSettlementRequest, BudgetReleaseRequest, is_settlement_called,
  assert_unique_event_id, assert_unique_settlement_id, require_active_reservation, append_and_apply,
  pricing_from_reservation, settlement_usage, settlement_event, release_event, validated,
  plan_settle, plan_release, remove_id, append_settlement, settle, release,
}
use ikimetr.Budget.Controller.Append.{
  Ended-eq_ok, append_and_apply-Ended, run_prepared-eq_ok, returning-eq_ok,
}

-- A reservation that was closed by the settlement `s`, which the request names by the ids.
pub record Closed (event : Text) (settlement : Text) (id : Text) (s : BudgetSettlement)
    (c c' : BudgetController) : Type 0 where
  pub storage : c.storage_failed ≡ false
  pub rec : ReservationRecord
  pub active : lookup id c.state.active_reservations ≡ some rec
  pub of_reservation : s.reservation_id ≡ rec.reservation.reservation_id
  pub named_event : s.event_id ≡ event
  pub named_settlement : s.settlement_id ≡ settlement
  pub unused_event : any (λ e. event_id e == event) c.events ≡ false
  pub unused_settlement : any (is_settlement_called settlement) c.events ≡ false
  pub ledger : c'.ledger ≡ c.ledger ++ LedgerEvent.budget_settlement s ∷ []
  pub events : c'.events ≡ c.events ++ LedgerEvent.budget_settlement s ∷ []
  pub storage_after : c'.storage_failed ≡ false
  pub recovered_ids : c'.recovered_ids ≡ remove_id s.reservation_id c.recovered_ids
  pub derived : derive_budget_state c'.events (some c'.recovered_ids) ≡ ok c'.state

-- What a plan found before the append.
record Planned (event : Text) (settlement : Text) (id : Text) (s : BudgetSettlement)
    (c : BudgetController) : Type 0 where
  storage : c.storage_failed ≡ false
  rec : ReservationRecord
  active : lookup id c.state.active_reservations ≡ some rec
  of_reservation : s.reservation_id ≡ rec.reservation.reservation_id
  named_event : s.event_id ≡ event
  named_settlement : s.settlement_id ≡ settlement
  unused_event : any (λ e. event_id e == event) c.events ≡ false
  unused_settlement : any (is_settlement_called settlement) c.events ≡ false

require_active_reservation_lem :
    (c : BudgetController) (id : Text) (rec : ReservationRecord)
    → require_active_reservation c id ≡ ok rec
    → lookup id c.state.active_reservations ≡ some rec
unfolding require_active_reservation
require_active_reservation_lem c id rec h =
    elim (Option-cases (lookup id c.state.active_reservations)) [
      | inl gone ↦ ground arith
      | inr (r, found) ↦ ground arith
    ]

stored :
    (c : BudgetController) {u : Unit {0}} → assert_storage_ready c ≡ ok u → c.storage_failed ≡ false
unfolding assert_storage_ready
stored c h = throw_if-eq_ok _ _ h

validated_lem : (setup : Setup) (s t : BudgetSettlement) → validated setup s ≡ ok t → s ≡ t
unfolding validated
validated_lem setup s t h =
    let (_, _, h1) =
      >>=-eq-ok
        (map_err BudgetError.event_error
          (parse_ledger_event setup.schema (LedgerEvent.budget_settlement s)))
        _ h in
    ok_injective h1

plan_settle-Planned :
    (setup : Setup) (now : Option Text) (request : BudgetSettlementRequest) (c : BudgetController)
    (s : BudgetSettlement)
    → plan_settle setup now request c ≡ ok s
    → Planned request.event_id request.settlement_id request.reservation_id s c
unfolding plan_settle settlement_event assert_unique_event_id assert_unique_settlement_id
plan_settle-Planned setup now request c s h =
    let (_, h0, h1) = >>=-eq-ok (assert_storage_ready c) _ h in
    let (rec, hr, h2) = >>=-eq-ok (require_active_reservation c request.reservation_id) _ h1 in
    let (_, he, h3) = >>=-eq-ok (assert_unique_event_id c request.event_id) _ h2 in
    let (_, hs, h4) = >>=-eq-ok (assert_unique_settlement_id c request.settlement_id) _ h3 in
    let (cost, _, h5) =
      >>=-eq-ok
        (map_err (λ _. BudgetError.controller_error ErrorCode.invalid_request)
          (calculate_cost (pricing_from_reservation rec.reservation) (settlement_usage request)))
        _ h4 in
    let (timestamp, _, h6) = >>=-eq-ok (current_timestamp now) _ h5 in
    subst (λ x. Planned request.event_id request.settlement_id request.reservation_id x c)
      (validated_lem setup (settlement_event request rec.reservation cost timestamp) s h6)
      (record {
        storage = stored c h0;
        rec = rec;
        active = require_active_reservation_lem c request.reservation_id rec hr;
        of_reservation = refl;
        named_event = refl;
        named_settlement = refl;
        unused_event = throw_if-eq_ok _ _ he;
        unused_settlement = throw_if-eq_ok _ _ hs;
      })

plan_release-Planned :
    (setup : Setup) (now : Option Text) (request : BudgetReleaseRequest) (c : BudgetController)
    (s : BudgetSettlement)
    → plan_release setup now request c ≡ ok s
    → Planned request.event_id request.settlement_id request.reservation_id s c
unfolding plan_release release_event
plan_release-Planned setup now request c s h =
    let (_, h0, h1) = >>=-eq-ok (assert_storage_ready c) _ h in
    let (rec, hr, h2) = >>=-eq-ok (require_active_reservation c request.reservation_id) _ h1 in
    let (_, he, h3) = >>=-eq-ok (assert_unique_event_id c request.event_id) _ h2 in
    let (_, hs, h4) = >>=-eq-ok (assert_unique_settlement_id c request.settlement_id) _ h3 in
    let (timestamp, _, h5) = >>=-eq-ok (current_timestamp now) _ h4 in
    subst (λ x. Planned request.event_id request.settlement_id request.reservation_id x c)
      (validated_lem setup (release_event request rec.reservation timestamp) s h5)
      (record {
        storage = stored c h0;
        rec = rec;
        active = require_active_reservation_lem c request.reservation_id rec hr;
        of_reservation = refl;
        named_event = refl;
        named_settlement = refl;
        unused_event = throw_if-eq_ok _ _ he;
        unused_settlement = throw_if-eq_ok _ _ hs;
      })

-- The append of a planned settlement, where it returned.
append_settlement-Closed :
    (setup : Setup) (outcome : AppendOutcome) (event settlement id : Text) (s : BudgetSettlement)
    (c : BudgetController)
    → Planned event settlement id s c
    → (append_settlement setup outcome s c).1 ≡ ok tt
    → Closed event settlement id s c (append_settlement setup outcome s c).0
unfolding append_settlement
append_settlement-Closed setup outcome event settlement id s c plan h =
    let events = c.events ++ LedgerEvent.budget_settlement s ∷ [] in
    let recovered = remove_id s.reservation_id c.recovered_ids in
    let (st, hs, e) =
      run_prepared-eq_ok
        (map_err BudgetError.state_error (derive_budget_state events (some recovered))) _ c h in
    let q =
      append_and_apply setup outcome (LedgerEvent.budget_settlement s) events st recovered c in
    let applied =
      Ended-eq_ok (LedgerEvent.budget_settlement s) events st recovered c q
        (append_and_apply-Ended setup (LedgerEvent.budget_settlement s) events st recovered c
          outcome)
        (ap (λ x. x.1) (sym e) ∙ h) in
    subst (λ x. Closed event settlement id s c x) (ap (λ x. x.0) (sym e))
      (record {
        storage = plan.storage;
        rec = plan.rec;
        active = plan.active;
        of_reservation = plan.of_reservation;
        named_event = plan.named_event;
        named_settlement = plan.named_settlement;
        unused_event = plan.unused_event;
        unused_settlement = plan.unused_settlement;
        ledger = applied.ledger;
        events = applied.events;
        storage_after = applied.storage_failed ∙ plan.storage;
        recovered_ids = applied.recovered_ids;
        derived =
            rw (applied.events, applied.recovered_ids, applied.state) (map_err-eq_ok _ _ _ hs);
      })

-- Whenever `settle` returns a settlement, the store was ready, the reservation that the request
-- names was active, the event and settlement ids were new, the settlement stands at the end of
-- the ledger and of the events, its reservation is no longer a recovered one, and the new state
-- is derived from the events.
pub settle-Closed :
    (setup : Setup) (now : Option Text) (outcome : AppendOutcome)
    (request : BudgetSettlementRequest) (c : BudgetController) (s : BudgetSettlement)
    → (settle setup now outcome request c).1 ≡ ok s
    → Closed request.event_id request.settlement_id request.reservation_id s c
        (settle setup now outcome request c).0
unfolding settle
settle-Closed setup now outcome request c s h =
    let (t, ht, e) = run_prepared-eq_ok (plan_settle setup now request c) _ c h in
    let q = append_settlement setup outcome t c in
    let (same, returned, state) = returning-eq_ok t q (ap (λ x. x.1) (sym e) ∙ h) in
    subst₂ (λ x y. Closed request.event_id request.settlement_id request.reservation_id x c y) same
      (sym (ap (λ x. x.0) e ∙ state))
      (append_settlement-Closed setup outcome _ _ _ t c
        (plan_settle-Planned setup now request c t ht) returned)

-- Whenever `release` returns a settlement, the store was ready, the reservation that the request
-- names was active, the event and settlement ids were new, the settlement stands at the end of
-- the ledger and of the events, its reservation is no longer a recovered one, and the new state
-- is derived from the events.
pub release-Closed :
    (setup : Setup) (now : Option Text) (outcome : AppendOutcome) (request : BudgetReleaseRequest)
    (c : BudgetController) (s : BudgetSettlement)
    → (release setup now outcome request c).1 ≡ ok s
    → Closed request.event_id request.settlement_id request.reservation_id s c
        (release setup now outcome request c).0
unfolding release
release-Closed setup now outcome request c s h =
    let (t, ht, e) = run_prepared-eq_ok (plan_release setup now request c) _ c h in
    let q = append_settlement setup outcome t c in
    let (same, returned, state) = returning-eq_ok t q (ap (λ x. x.1) (sym e) ∙ h) in
    subst₂ (λ x y. Closed request.event_id request.settlement_id request.reservation_id x c y) same
      (sym (ap (λ x. x.0) e ∙ state))
      (append_settlement-Closed setup outcome _ _ _ t c
        (plan_release-Planned setup now request c t ht) returned)
