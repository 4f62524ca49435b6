-- ===== src/Budget/Controller.antt =====
-- budget.ts: the methods of `BudgetController`. `serializeTransition` runs one method at a time, so
-- a method is a function from the controller to the controller and its result. The outcome of the
-- write to the ledger file is an argument.
pub mod Append
pub mod Reserve
pub mod Settle
pub mod Steps
pub mod Quote
pub mod Invariant
pub mod History
use ikimetr.Prelude.{
  ℕ, Bool, true, false, ◌&&◌, ◌||◌, not, Option, none, some, List, [], ◌∷◌, ◌++◌, if◌then◌else◌, Eq,
  ◌==◌, any, keep, length, Text, text, text_Eq, Result, ok, err, ◌>>=◌, ◌>>◌, throw_if, map_err,
}
use ikimetr.Prelude.Dict.{lookup, keys}
use ikimetr.Config.{ProviderId, DataClass, Route, PricingStatus, ConfigSnapshot}
use ikimetr.Money.{Money}
use ikimetr.Pricing.{TokenUsage, ResolvedPricing, calculate_cost}
use ikimetr.LedgerEvents.{
  BudgetReservation, BudgetSettlement, Disposition, LedgerEvent, event_id, Schema, LedgerError,
  parse_ledger_event,
}
use ikimetr.Budget.Usage.{BudgetStateError}
use ikimetr.Budget.Replay.{
  ReservationRecord, ReplayedBudgetState, exceeds, has_id, derive_budget_state,
}
use ikimetr.Budget.Limits.{ErrorCode, BudgetError, Checked, fail}
use ikimetr.Budget.Prepare.{
  BudgetReservationRequest, Setup, BudgetController, PreparedReservation, assert_storage_ready,
  current_timestamp, prepare_reservation,
}

pub record BudgetSettlementRequest : Type 0 where
  pub event_id : Text
  pub settlement_id : Text
  pub reservation_id : Text
  pub actual_input_tokens : ℕ
  pub actual_output_tokens : ℕ
  pub cache_read_tokens : ℕ
  pub cache_write_tokens : ℕ
  pub actual_local_wall_time_ms : ℕ
  pub reason_code : Text

pub record BudgetReleaseRequest : Type 0 where
  pub event_id : Text
  pub settlement_id : Text
  pub reservation_id : Text
  pub reason_code : Text

pub record BudgetQuoteRequest : Type 0 where
  pub task_id : Text
  pub provider : ProviderId
  pub model : Text
  pub route : Route
  pub data_class : DataClass
  pub automatic : Bool
  pub retry : Bool
  pub estimated_input_tokens : ℕ

-- How a write ended: acknowledged, or failed with the record absent or present in the file.
pub data AppendOutcome : Type 0 where
  appended lost unacknowledged : AppendOutcome

abbrev pub duplicate : BudgetError
duplicate = BudgetError.controller_error ErrorCode.duplicate_transition

unfoldable pub assert_unique_event_id : BudgetController → Text → Checked
assert_unique_event_id c id = throw_if (any (λ e. event_id e == id) c.events) duplicate

abbrev pub is_reservation_of : Text → LedgerEvent → Bool
is_reservation_of id (LedgerEvent.budget_reservation r) = r.reservation_id == id
is_reservation_of id _ = false

abbrev pub is_settlement_called : Text → LedgerEvent → Bool
is_settlement_called id (LedgerEvent.budget_settlement s) = s.settlement_id == id
is_settlement_called id _ = false

unfoldable pub assert_unique_settlement_id : BudgetController → Text → Checked
assert_unique_settlement_id c id = throw_if (any (is_settlement_called id) c.events) duplicate

unfoldable pub require_active_reservation :
    BudgetController → Text → Result BudgetError ReservationRecord
require_active_reservation c id = elim (lookup id c.state.active_reservations) [
  | some active ↦ ok active
  | none ↦
      if has_id id c.state.settled_ids
      then fail ErrorCode.already_settled
      else fail ErrorCode.unknown_reservation
]

-- `AccountingLedger.append`: the file afterwards, and whether the call returned.
unfoldable pub ledger_append :
    Schema → AppendOutcome → LedgerEvent → List LedgerEvent → List LedgerEvent × Bool
ledger_append schema outcome e file = elim (parse_ledger_event schema e) [
  | err _ ↦ (file, false)
  | ok valid ↦ elim outcome [
    | AppendOutcome.appended ↦ (file ++ valid ∷ [], true)
    | AppendOutcome.lost ↦ (file, false)
    | AppendOutcome.unacknowledged ↦ (file ++ valid ∷ [], false)
  ]
]

unfoldable pub append_and_apply :
    Setup
    → AppendOutcome
    → LedgerEvent
    → List LedgerEvent
    → ReplayedBudgetState
    → List Text
    → BudgetController
    → BudgetController × Checked
append_and_apply setup outcome e candidate_events candidate_state next_recovered c =
    let (file, returned) = ledger_append setup.schema outcome e c.ledger in
    if returned
    then (
      record {
        ledger = file;
        storage_failed = c.storage_failed;
        events = candidate_events;
        recovered_ids = next_recovered;
        state = candidate_state;
      },
      ok tt,
    )
    else (record c { ledger = file; storage_failed = true }, fail ErrorCode.storage_failure)

-- A method that throws before the append leaves the controller as it is.
abbrev pub run_prepared {ℓ} :
    {P : Type ℓ} {A : Type 0}
    → Result BudgetError P
    → (P → BudgetController × Result BudgetError A)
    → BudgetController
    → BudgetController × Result BudgetError A
run_prepared (ok p) f c = f p
run_prepared (err e) f c = (c, err e)

-- The value that a method returns after its append.
abbrev pub returning {ℓ} :
    {A : Type ℓ} → A → BudgetController × Checked → BudgetController × Result BudgetError A
returning a (c, ok _) = (c, ok a)
returning a (c, err e) = (c, err e)

unfoldable pub plan_reserve :
    Setup
    → Option Text
    → BudgetReservationRequest
    → BudgetController
    → Result BudgetError PreparedReservation
unfolding assert_unique_event_id
plan_reserve setup now request c = do
  assert_unique_event_id c request.event_id
  throw_if (any (is_reservation_of request.reservation_id) c.events) duplicate
  prepare_reservation setup now request c

-- `reserve`
unfoldable pub reserve :
    Setup
    → Option Text
    → AppendOutcome
    → BudgetReservationRequest
    → BudgetController
    → BudgetController × Result BudgetError BudgetReservation
reserve setup now outcome request c =
    run_prepared (plan_reserve setup now request c)
      (λ p. returning p.reservation (
        append_and_apply setup outcome (LedgerEvent.budget_reservation p.reservation)
          p.candidate_events p.candidate_state c.recovered_ids c))
      c

unfoldable pub pricing_from_reservation : BudgetReservation → ResolvedPricing
pricing_from_reservation r = record {
  pricing_version = r.pricing_version;
  provider = r.provider;
  model = r.model;
  currency = r.reserved_cost.currency;
  input_rate = r.input_rate;
  output_rate = r.output_rate;
  cache_read_rate = r.cache_read_rate;
  cache_write_rate = r.cache_write_rate;
  status = PricingStatus.known;
}

unfoldable pub settlement_usage : BudgetSettlementRequest → TokenUsage
settlement_usage request = record {
  input_tokens = request.actual_input_tokens;
  output_tokens = request.actual_output_tokens;
  cache_read_tokens = request.cache_read_tokens;
  cache_write_tokens = request.cache_write_tokens;
}

unfoldable pub settlement_event :
    BudgetSettlementRequest → BudgetReservation → Money → Text → BudgetSettlement
unfolding exceeds
settlement_event request r cost now = record {
  event_id = request.event_id;
  occurred_at = now;
  settlement_id = request.settlement_id;
  reservation_id = r.reservation_id;
  task_id = r.task_id;
  attempt_id = r.attempt_id;
  provider = r.provider;
  disposition = Disposition.settled;
  actual_input_tokens = request.actual_input_tokens;
  actual_output_tokens = request.actual_output_tokens;
  cache_read_tokens = request.cache_read_tokens;
  cache_write_tokens = request.cache_write_tokens;
  actual_cost = cost;
  actual_local_wall_time_ms = request.actual_local_wall_time_ms;
  overrun =
      exceeds r request.actual_input_tokens request.actual_output_tokens cost.amount_micros
        request.actual_local_wall_time_ms;
  reason_code = request.reason_code;
}

unfoldable pub release_event : BudgetReleaseRequest → BudgetReservation → Text → BudgetSettlement
release_event request r now = record {
  event_id = request.event_id;
  occurred_at = now;
  settlement_id = request.settlement_id;
  reservation_id = r.reservation_id;
  task_id = r.task_id;
  attempt_id = r.attempt_id;
  provider = r.provider;
  disposition = Disposition.released;
  actual_input_tokens = 0;
  actual_output_tokens = 0;
  cache_read_tokens = 0;
  cache_write_tokens = 0;
  actual_cost = record { currency = r.reserved_cost.currency; amount_micros = 0 };
  actual_local_wall_time_ms = 0;
  overrun = false;
  reason_code = request.reason_code;
}

unfoldable pub validated : Setup → BudgetSettlement → Result BudgetError BudgetSettlement
validated setup s =
    map_err BudgetError.event_error
      (parse_ledger_event setup.schema (LedgerEvent.budget_settlement s))
    >>= λ _. ok s

unfoldable pub plan_settle :
    Setup
    → Option Text
    → BudgetSettlementRequest
    → BudgetController
    → Result BudgetError BudgetSettlement
unfolding assert_unique_event_id assert_unique_settlement_id validated
plan_settle setup now request c = do
  assert_storage_ready c
  rec ← require_active_reservation c request.reservation_id
  assert_unique_event_id c request.event_id
  assert_unique_settlement_id c request.settlement_id
  cost ←
      map_err (λ _. BudgetError.controller_error ErrorCode.invalid_request)
        (calculate_cost (pricing_from_reservation rec.reservation) (settlement_usage request))
  timestamp ← current_timestamp now
  validated setup (settlement_event request rec.reservation cost timestamp)

unfoldable pub plan_release :
    Setup
    → Option Text
    → BudgetReleaseRequest
    → BudgetController
    → Result BudgetError BudgetSettlement
unfolding assert_unique_event_id assert_unique_settlement_id validated
plan_release setup now request c = do
  assert_storage_ready c
  rec ← require_active_reservation c request.reservation_id
  assert_unique_event_id c request.event_id
  assert_unique_settlement_id c request.settlement_id
  timestamp ← current_timestamp now
  validated setup (release_event request rec.reservation timestamp)

-- `nextRecovered.delete(id)`
abbrev pub remove_id : Text → List Text → List Text
remove_id id ids = keep (λ j. not (j == id)) ids

unfoldable pub append_settlement :
    Setup → AppendOutcome → BudgetSettlement → BudgetController → BudgetController × Checked
append_settlement setup outcome s c =
    let candidate_events = c.events ++ LedgerEvent.budget_settlement s ∷ [] in
    let next_recovered = remove_id s.reservation_id c.recovered_ids in
    run_prepared
      (map_err BudgetError.state_error (derive_budget_state candidate_events (some next_recovered)))
      (λ candidate.
        append_and_apply setup outcome (LedgerEvent.budget_settlement s) candidate_events candidate
          next_recovered c)
      c

-- `settle`; the status SETTLED or DISCREPANCY is the event's `overrun`.
unfoldable pub settle :
    Setup
    → Option Text
    → AppendOutcome
    → BudgetSettlementRequest
    → BudgetController
    → BudgetController × Result BudgetError BudgetSettlement
settle setup now outcome request c =
    run_prepared (plan_settle setup now request c)
      (λ s. returning s (append_settlement setup outcome s c)) c

-- `release`
unfoldable pub release :
    Setup
    → Option Text
    → AppendOutcome
    → BudgetReleaseRequest
    → BudgetController
    → BudgetController × Result BudgetError BudgetSettlement
release setup now outcome request c =
    run_prepared (plan_release setup now request c)
      (λ s. returning s (append_settlement setup outcome s c)) c

-- The body of `initialize` once the ledger has been read.
unfoldable pub initialize_from : Setup → List LedgerEvent → Result BudgetStateError BudgetController
initialize_from setup events = do
  first ← derive_budget_state events none
  let recovered = keys first.active_reservations
  state ← derive_budget_state events (some recovered)
  ok (record {
    ledger = events;
    storage_failed = false;
    events = events;
    recovered_ids = recovered;
    state = state;
  })

-- `initialize`, on the events that the ledger replays or `none` where the replay throws. Whatever
-- is thrown is reported as one code.
unfoldable pub initialize : Setup → Option (List LedgerEvent) → Result BudgetError BudgetController
unfolding initialize_from
initialize setup none = fail ErrorCode.replay_failed
initialize setup (some events) =
    map_err (λ _. BudgetError.controller_error ErrorCode.replay_failed)
      (throw_if (not (setup.pricing.config_hash == setup.config.config_hash))
          BudgetStateError.resolver_mismatch
        >> initialize_from setup events)
