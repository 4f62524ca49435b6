-- ===== src/Budget/Spec/Extend.antt =====
-- What a ledger keeps when events are appended to it.
use ikimetr.Prelude.{
  ◌≡◌, refl, sym, ◌∙◌, ap, Bool, true, false, ◌||◌, Option, none, some, List, [], ◌∷◌, ◌++◌, arith,
  ◌==◌, Text, text_Eq, text_eq_iff, inl, inr, Bool-cases,
}
use ikimetr.Prelude.Dict.{lookup}
use ikimetr.LedgerEvents.{BudgetReservation, BudgetSettlement, LedgerEvent}
use ikimetr.Budget.Replay.{ReservationRecord, is_settled}
use ikimetr.Budget.Spec.{settlement_of, records_of, has_overrun}
use ikimetr.Budget.Derive.{open_record, settled_record}

pub has_overrun-append :
    (es fs : List LedgerEvent) → has_overrun (es ++ fs) ≡ (has_overrun es || has_overrun fs)
has_overrun-append [] fs = refl
has_overrun-append (LedgerEvent.budget_settlement s ∷ es) fs =
    ground (arith, has_overrun-append es fs)
has_overrun-append (LedgerEvent.budget_reservation r ∷ es) fs = has_overrun-append es fs
has_overrun-append (_ ∷ es) fs = has_overrun-append es fs

abbrev pub has_settlement : Option BudgetSettlement → Bool
has_settlement none = false
has_settlement (some s) = true

settlement_of-append :
    (id : Text) (es fs : List LedgerEvent)
    → has_settlement (settlement_of id es) ≡ true
    → has_settlement (settlement_of id (es ++ fs)) ≡ true
settlement_of-append id [] fs h = cc
settlement_of-append id (LedgerEvent.budget_settlement s ∷ es) fs h =
    elim (Bool-cases (s.reservation_id == id)) [
      | inl e ↦ rw e refl
      | inr e ↦ rw e (settlement_of-append id es fs (rw e at h))
    ]
settlement_of-append id (_ ∷ es) fs h = settlement_of-append id es fs h

is_settled_lem :
    (r : BudgetReservation) (o : Option BudgetSettlement)
    → is_settled (record { reservation = r; settlement = o }) ≡ has_settlement o
is_settled_lem r none = refl
is_settled_lem r (some s) = refl

settlement_of-snoc :
    (id : Text) (es : List LedgerEvent) (s : BudgetSettlement)
    → s.reservation_id ≡ id
    → has_settlement (settlement_of id (es ++ LedgerEvent.budget_settlement s ∷ [])) ≡ true
settlement_of-snoc id [] s h = rw ((text_eq_iff s.reservation_id id).1 h) refl
settlement_of-snoc id (LedgerEvent.budget_settlement t ∷ es) s h =
    elim (Bool-cases (t.reservation_id == id)) [
      | inl e ↦ rw e refl
      | inr e ↦ rw e (settlement_of-snoc id es s h)
    ]
settlement_of-snoc id (_ ∷ es) s h = settlement_of-snoc id es s h

-- A reservation that is closed stays closed.
pub settled_record-append :
    (id : Text) (es fs : List LedgerEvent)
    → settled_record (lookup id (records_of es)) ≡ true
    → settled_record (lookup id (records_of (es ++ fs))) ≡ true
unfolding lookup
settled_record-append id [] fs h = cc
settled_record-append id (LedgerEvent.budget_reservation r ∷ es) fs h =
    elim (Bool-cases (r.reservation_id == id)) [
      | inl e ↦
          let closed = is_settled_lem r (settlement_of r.reservation_id es) in
          let now : settled_record
                (some (record { reservation = r; settlement = settlement_of r.reservation_id es }))
              ≡ true =
            rw e at h in
          rw e (
            is_settled_lem r (settlement_of r.reservation_id (es ++ fs))
            ∙ settlement_of-append r.reservation_id es fs (sym closed ∙ now))
      | inr e ↦ rw e (settled_record-append id es fs (rw e at h))
    ]
settled_record-append id (_ ∷ es) fs h = settled_record-append id es fs h

pub lookup-records_of :
    (id : Text) (es : List LedgerEvent) (rec : ReservationRecord)
    → lookup id (records_of es) ≡ some rec
    → rec.reservation.reservation_id ≡ id
unfolding lookup
lookup-records_of id [] rec h = cc
lookup-records_of id (LedgerEvent.budget_reservation r ∷ es) rec h =
    elim (Bool-cases (r.reservation_id == id)) [
      | inl e ↦
          let same : some
                (record { reservation = r; settlement = settlement_of r.reservation_id es })
              ≡ some rec =
            rw e at h in
          ap
            (λ (x : Option ReservationRecord). elim x [
              | none ↦ r.reservation_id
              | some y ↦ y.reservation.reservation_id
            ])
            (sym same)
          ∙ (text_eq_iff r.reservation_id id).0 e
      | inr e ↦ lookup-records_of id es rec (rw e at h)
    ]
lookup-records_of id (_ ∷ es) rec h = lookup-records_of id es rec h

-- The settlement of a reservation closes it.
pub settled_record-snoc :
    (id : Text) (es : List LedgerEvent) (s : BudgetSettlement) (rec : ReservationRecord)
    → lookup id (records_of es) ≡ some rec
    → s.reservation_id ≡ id
    → settled_record (lookup id (records_of (es ++ LedgerEvent.budget_settlement s ∷ []))) ≡ true
unfolding lookup
settled_record-snoc id [] s rec h q = cc
settled_record-snoc id (LedgerEvent.budget_reservation r ∷ es) s rec h q =
    elim (Bool-cases (r.reservation_id == id)) [
      | inl e ↦ rw e (
          is_settled_lem r
            (settlement_of r.reservation_id (es ++ LedgerEvent.budget_settlement s ∷ []))
          ∙ settlement_of-snoc r.reservation_id es s
              (q ∙ sym ((text_eq_iff r.reservation_id id).0 e)))
      | inr e ↦ rw e (settled_record-snoc id es s rec (rw e at h) q)
    ]
settled_record-snoc id (_ ∷ es) s rec h q = settled_record-snoc id es s rec h q

pub open_record-some :
    (o : Option ReservationRecord) (rec : ReservationRecord)
    → open_record o ≡ some rec
    → o ≡ some rec
open_record-some none rec h = cc
open_record-some (some r) rec h = ground arith

-- A closed reservation is not open.
pub open_record-settled :
    (o : Option ReservationRecord) → settled_record o ≡ true → open_record o ≡ none
open_record-settled none h = cc
open_record-settled (some r) h = rw h refl
