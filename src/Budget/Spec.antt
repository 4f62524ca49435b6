-- ===== src/Budget/Spec.antt =====
-- What a ledger stands for, said without the controller's maps: every reservation is held to its
-- settlement where one follows, and to its reserved amounts until then; a released one to nothing.
pub mod Sums
pub mod Records
pub mod Extend
use ikimetr.Prelude.{
  ℕ, ◌+◌, ◌≡◌, refl, Bool, true, false, ◌||◌, Option, none, some, List, [], ◌∷◌, arith,
  if◌then◌else◌, Eq, ◌==◌, Text, text_Eq, Result, ok, err,
}
use ikimetr.Prelude.Dict.{Dict}
use ikimetr.LedgerEvents.{BudgetReservation, BudgetSettlement, Disposition, LedgerEvent}
use ikimetr.Budget.Usage.{BudgetUsage, settlement_to_usage}
use ikimetr.Budget.Replay.{ReservationRecord}
use ikimetr.Budget.Totals.{when}

-- The first settlement of the reservation `id`.
abbrev pub settlement_of : Text → List LedgerEvent → Option BudgetSettlement
settlement_of id [] = none
settlement_of id (LedgerEvent.budget_settlement s ∷ events) =
    let rest = settlement_of id events in if s.reservation_id == id then some s else rest
settlement_of id (_ ∷ events) = settlement_of id events

-- Each reservation in order, with the settlement that follows it.
abbrev pub records_of : List LedgerEvent → Dict Text ReservationRecord
records_of [] = []
records_of (LedgerEvent.budget_reservation r ∷ events) =
    (
      r.reservation_id,
      record { reservation = r; settlement = settlement_of r.reservation_id events },
    )
    ∷ records_of events
records_of (_ ∷ events) = records_of events

-- What a record is held to.
abbrev pub counted : ReservationRecord → (BudgetUsage → ℕ) → ℕ
counted rec f = elim rec.settlement [
  | none ↦ f (settlement_to_usage rec.reservation none)
  | some s ↦ elim s.disposition [
    | Disposition.settled ↦ f (settlement_to_usage rec.reservation (some s))
    | Disposition.released ↦ 0
  ]
]

-- The sum of a counter over the records whose reservation is in a scope.
abbrev pub spent : Dict Text ReservationRecord → (BudgetUsage → ℕ) → (BudgetReservation → Bool) → ℕ
spent [] f p = 0
spent ((_, rec) ∷ records) f p = when (p rec.reservation) (counted rec f) + spent records f p

-- Some settlement in the ledger exceeded its reservation.
abbrev pub has_overrun : List LedgerEvent → Bool
has_overrun [] = false
has_overrun (LedgerEvent.budget_settlement s ∷ events) = s.overrun || has_overrun events
has_overrun (_ ∷ events) = has_overrun events
