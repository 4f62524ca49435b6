-- ===== src/Budget/Replay.antt =====
-- budget.ts: `deriveBudgetState`, the state that a list of ledger events stands for.
use ikimetr.Prelude.{
  ℕ, Bool, true, false, ◌&&◌, ◌||◌, not, Option, none, some, List, [], ◌∷◌, ◌++◌, ltb, nat_eq,
  if◌then◌else◌, ◌==◌, any, keep, Text, text_Eq, Result, ok, err, ◌>>=◌, ◌>>◌, throw_if, map_err,
}
use ikimetr.Prelude.Dict.{Dict, lookup, contains, insert, keys}
use ikimetr.Config.{ProviderId, provider_id_Eq}
use ikimetr.Money.{Money, MoneyError, create_money, add_money, calculate_micros_for_tokens}
use ikimetr.LedgerEvents.{BudgetReservation, BudgetSettlement, Disposition, LedgerEvent}
use ikimetr.Budget.Usage.{BudgetTotals, BudgetStateError, create_empty_totals, add_record_to_totals}

pub record ReservationRecord : Type 0 where
  pub reservation : BudgetReservation
  pub settlement : Option BudgetSettlement

pub record ReplayedBudgetState : Type 0 where
  pub active_reservations : Dict Text ReservationRecord
  pub recovery_blocking_ids : List Text
  pub settled_ids : List Text
  pub totals : BudgetTotals
  pub discrepancy_circuit_open : Bool
  pub automatic_calls_blocked : Bool

abbrev pub is_local : ProviderId → Bool
is_local ProviderId.local_ai = true
is_local _ = false

-- The cost that the rates of a reservation give, inside the `try`.
unfoldable pub expected_cost : BudgetReservation → Result MoneyError Money
expected_cost r = do
  input ← calculate_micros_for_tokens r.estimated_input_tokens r.input_rate
  input_cost ← create_money r.reserved_cost.currency input
  output ← calculate_micros_for_tokens r.reserved_output_tokens r.output_rate
  output_cost ← create_money r.reserved_cost.currency output
  add_money input_cost output_cost

unfoldable pub validate_reservation : BudgetReservation → Result BudgetStateError (Unit {0})
validate_reservation r = do
  throw_if (r.cloud && is_local r.provider || not r.cloud && not (is_local r.provider))
      BudgetStateError.cloud_classification
  throw_if (r.cloud && not (nat_eq r.reserved_local_wall_time_ms 0))
      BudgetStateError.cloud_wall_time
  expected ← map_err (λ _. BudgetStateError.cost_invalid) (expected_cost r)
  throw_if (not (nat_eq expected.amount_micros r.reserved_cost.amount_micros))
      BudgetStateError.cost_mismatch

unfoldable pub exceeds : BudgetReservation → ℕ → ℕ → ℕ → ℕ → Bool
exceeds r input output micros wall_time =
    ltb r.estimated_input_tokens input
    || ltb r.reserved_output_tokens output
    || ltb r.reserved_cost.amount_micros micros
    || ltb r.reserved_local_wall_time_ms wall_time

unfoldable pub computed_overrun : BudgetReservation → BudgetSettlement → Bool
unfolding exceeds
computed_overrun r s =
    exceeds r s.actual_input_tokens s.actual_output_tokens s.actual_cost.amount_micros
      s.actual_local_wall_time_ms

unfoldable pub has_usage : BudgetSettlement → Bool
has_usage s =
    not (nat_eq s.actual_input_tokens 0)
    || not (nat_eq s.actual_output_tokens 0)
    || not (nat_eq s.cache_read_tokens 0)
    || not (nat_eq s.cache_write_tokens 0)
    || not (nat_eq s.actual_cost.amount_micros 0)
    || not (nat_eq s.actual_local_wall_time_ms 0)
    || s.overrun

abbrev pub same_bool : Bool → Bool → Bool
same_bool true b = b
same_bool false b = not b

-- The checks that differ by disposition.
unfoldable pub validate_disposition :
    Disposition → BudgetReservation → BudgetSettlement → Result BudgetStateError (Unit {0})
unfolding has_usage computed_overrun
validate_disposition Disposition.released r s =
    throw_if (has_usage s) BudgetStateError.released_usage
validate_disposition Disposition.settled r s =
    throw_if (not (same_bool s.overrun (computed_overrun r s))) BudgetStateError.overrun_flag

unfoldable pub validate_settlement :
    BudgetReservation → BudgetSettlement → Result BudgetStateError (Unit {0})
unfolding validate_disposition
validate_settlement r s = do
  throw_if
      (not (s.task_id == r.task_id)
        || not (s.attempt_id == r.attempt_id)
        || not (s.provider == r.provider))
      BudgetStateError.settlement_scope
  throw_if (not (s.actual_cost.currency == r.reserved_cost.currency))
      BudgetStateError.settlement_currency
  validate_disposition s.disposition r s

-- The variables of the first loop of `deriveBudgetState`.
pub record Replay : Type 0 where
  pub records : Dict Text ReservationRecord
  pub discrepancy_circuit : Bool

unfoldable pub add_reservation : BudgetReservation → Replay → Result BudgetStateError Replay
add_reservation r st = do
  throw_if (contains r.reservation_id st.records) BudgetStateError.duplicate_reservation
  validate_reservation r
  ok (record st {
    records = insert r.reservation_id (record { reservation = r; settlement = none }) st.records;
  })

-- `record.settlement !== null`
abbrev pub is_settled : ReservationRecord → Bool
is_settled rec = elim rec.settlement [ none ↦ false | some _ ↦ true ]

unfoldable pub apply_settlement :
    BudgetSettlement → ReservationRecord → Replay → Result BudgetStateError Replay
apply_settlement s rec st = do
  throw_if (is_settled rec) BudgetStateError.already_settled
  validate_settlement rec.reservation s
  ok (record {
    records =
        insert s.reservation_id (record { reservation = rec.reservation; settlement = some s })
          st.records;
    discrepancy_circuit = st.discrepancy_circuit || s.overrun;
  })

unfoldable pub add_settlement : BudgetSettlement → Replay → Result BudgetStateError Replay
add_settlement s st = elim (lookup s.reservation_id st.records) [
  | none ↦ err BudgetStateError.unknown_reservation
  | some rec ↦ apply_settlement s rec st
]

-- One round of the first loop; events of other kinds are passed over.
unfoldable pub replay_event : LedgerEvent → Replay → Result BudgetStateError Replay
replay_event (LedgerEvent.budget_reservation r) st = add_reservation r st
replay_event (LedgerEvent.budget_settlement s) st = add_settlement s st
replay_event _ st = ok st

unfoldable pub replay_events : List LedgerEvent → Replay → Result BudgetStateError Replay
replay_events [] st = ok st
replay_events (e ∷ events) st = replay_event e st >>= λ st'. replay_events events st'

-- The variables of the second loop.
pub record Summary : Type 0 where
  pub active : Dict Text ReservationRecord
  pub settled : List Text
  pub totals : BudgetTotals

-- `totals` after one record: a released reservation counts for nothing.
unfoldable pub count_record :
    ReservationRecord → BudgetTotals → Result BudgetStateError BudgetTotals
count_record rec t = elim rec.settlement [
  | none ↦ add_record_to_totals t rec.reservation none
  | some s ↦ elim s.disposition [
    | Disposition.settled ↦ add_record_to_totals t rec.reservation (some s)
    | Disposition.released ↦ ok t
  ]
]

-- `Set.add`
abbrev pub add_id : Text → List Text → List Text
add_id id ids = if any (λ j. j == id) ids then ids else ids ++ id ∷ []

unfoldable pub summarize_record :
    Text → ReservationRecord → Summary → Result BudgetStateError Summary
summarize_record id rec s = count_record rec s.totals >>= λ totals. ok (
    if is_settled rec
    then record s { settled = add_id id s.settled; totals = totals }
    else record s { active = insert id rec s.active; totals = totals })

unfoldable pub summarize : Dict Text ReservationRecord → Summary → Result BudgetStateError Summary
summarize [] s = ok s
summarize ((id, rec) ∷ records) s = summarize_record id rec s >>= λ s'. summarize records s'

abbrev pub has_id : Text → List Text → Bool
has_id id ids = any (λ j. j == id) ids

-- The active reservations that were there at start-up; all of them while the set is not given.
unfoldable pub recovery_blocking : Option (List Text) → List Text → List Text
recovery_blocking none active = active
recovery_blocking (some recovered) active = keep (λ id. has_id id recovered) active

abbrev pub is_empty {ℓ} : {A : Type ℓ} → List A → Bool
is_empty [] = true
is_empty (_ ∷ _) = false

unfoldable pub empty_summary : Summary
empty_summary = record { active = []; settled = []; totals = create_empty_totals }

unfoldable pub empty_replay : Replay
empty_replay = record { records = []; discrepancy_circuit = false }

unfoldable pub derive_budget_state :
    List LedgerEvent → Option (List Text) → Result BudgetStateError ReplayedBudgetState
unfolding recovery_blocking empty_summary empty_replay
derive_budget_state events recovered = do
  st ← replay_events events empty_replay
  sum ← summarize st.records empty_summary
  let blocking = recovery_blocking recovered (keys sum.active)
  ok (record {
    active_reservations = sum.active;
    recovery_blocking_ids = blocking;
    settled_ids = sum.settled;
    totals = sum.totals;
    discrepancy_circuit_open = st.discrepancy_circuit;
    automatic_calls_blocked = st.discrepancy_circuit || not (is_empty blocking);
  })
