-- ===== src/Budget/Spec/Records.antt =====
-- budget.ts: the first loop of `deriveBudgetState` pairs each reservation with its settlement.
use mathlib.Core.Path.{subst}
use mathlib.Core.List.{append_assoc, append-nil}
use ikimetr.Prelude.{
  ◌≡◌, refl, sym, ◌∙◌, ap, ◌||◌, Option, none, some, List, [], ◌∷◌, ◌++◌, arith, ◌==◌, Text,
  text_Eq, text_eq_iff, Result, ok, >>=-eq-ok, ok_injective, inl, inr, Bool-cases, Option-cases,
  throw_if, throw_if-eq_ok,
}
use ikimetr.Prelude.Dict.{Dict, lookup, insert, contains, Distinct, insert_new, insert-Distinct}
use ikimetr.LedgerEvents.{BudgetReservation, BudgetSettlement, LedgerEvent}
use ikimetr.Budget.Usage.{BudgetStateError}
use ikimetr.Budget.Replay.{
  ReservationRecord, Replay, is_settled, validate_reservation, validate_settlement, add_reservation,
  add_settlement, apply_settlement, replay_event, replay_events,
}
use ikimetr.Budget.Spec.{settlement_of, records_of, has_overrun}

abbrev first_of_two : {A : Type 0} → Option A → Option A → Option A
first_of_two none o = o
first_of_two (some a) _ = some a

-- Records after later events: an open one takes the first settlement that follows.
abbrev pub settle_all : List LedgerEvent → Dict Text ReservationRecord → Dict Text ReservationRecord
settle_all events [] = []
settle_all events ((id, rec) ∷ m) =
    (id, record rec { settlement = first_of_two rec.settlement (settlement_of id events) })
    ∷ settle_all events m

settle_all-none : (m : Dict Text ReservationRecord) → settle_all [] m ≡ m
settle_all-none [] = refl
settle_all-none ((id, rec) ∷ m) = ground (arith, settle_all-none m)

settle_all-append :
    (events : List LedgerEvent) (m n : Dict Text ReservationRecord)
    → settle_all events (m ++ n) ≡ settle_all events m ++ settle_all events n
settle_all-append events [] n = refl
settle_all-append events ((id, rec) ∷ m) n = cc (settle_all-append events m n)

-- A settlement of an id that has no record changes none.
settle_all-absent :
    (s : BudgetSettlement) (events : List LedgerEvent) (m : Dict Text ReservationRecord)
    → lookup s.reservation_id m ≡ none
    → settle_all (LedgerEvent.budget_settlement s ∷ events) m ≡ settle_all events m
unfolding lookup
settle_all-absent s events [] h = refl
settle_all-absent s events ((id, rec) ∷ m) h = ground (
  arith,
  settle_all-absent s events m,
  text_eq_iff s.reservation_id id,
  text_eq_iff id s.reservation_id,
)

settle_all-insert :
    (s : BudgetSettlement) (events : List LedgerEvent) (rec : ReservationRecord)
    (m : Dict Text ReservationRecord)
    → Distinct m
    → lookup s.reservation_id m ≡ some rec
    → rec.settlement ≡ none
    → settle_all events
        (insert s.reservation_id (record { reservation = rec.reservation; settlement = some s }) m)
      ≡ settle_all (LedgerEvent.budget_settlement s ∷ events) m
unfolding lookup insert
settle_all-insert s events rec [] d h e = cc
settle_all-insert s events rec ((id, w) ∷ m) d h e = elim (Bool-cases (id == s.reservation_id)) [
  | inl same ↦
      let e1 : id ≡ s.reservation_id = (text_eq_iff id s.reservation_id).0 same in
      ground (arith, settle_all-absent s events m, text_eq_iff s.reservation_id id)
  | inr other ↦ ground (
    arith,
    settle_all-insert s events rec m,
    text_eq_iff s.reservation_id id,
    text_eq_iff id s.reservation_id,
  )
]

-- An event that settles nothing changes no record.
settle_all-skip :
    (e : LedgerEvent) (events : List LedgerEvent) (m : Dict Text ReservationRecord)
    → ((id : Text) → settlement_of id (e ∷ events) ≡ settlement_of id events)
    → settle_all (e ∷ events) m ≡ settle_all events m
settle_all-skip e events [] h = refl
settle_all-skip e events ((id, rec) ∷ m) h = cc (h id, settle_all-skip e events m h)

-- What a replayed reservation and a replayed settlement do.
pub record Reserved (r : BudgetReservation) (st st' : Replay) : Type 0 where
  pub fresh : lookup r.reservation_id st.records ≡ none
  pub valid : validate_reservation r ≡ ok tt
  pub records :
      st'.records
      ≡ insert r.reservation_id (record { reservation = r; settlement = none }) st.records
  pub circuit : st'.discrepancy_circuit ≡ st.discrepancy_circuit

pub record Settled (s : BudgetSettlement) (st st' : Replay) : Type 0 where
  pub rec : ReservationRecord
  pub found : lookup s.reservation_id st.records ≡ some rec
  pub open_record : rec.settlement ≡ none
  pub valid : validate_settlement rec.reservation s ≡ ok tt
  pub records :
      st'.records
      ≡ insert s.reservation_id
          (record { reservation = rec.reservation; settlement = some s })
          st.records
  pub circuit : st'.discrepancy_circuit ≡ (st.discrepancy_circuit || s.overrun)

pub add_reservation-Reserved :
    (r : BudgetReservation) (st st' : Replay) → add_reservation r st ≡ ok st' → Reserved r st st'
unfolding add_reservation contains
add_reservation-Reserved r st st' h =
    let (_, h0, h1) =
      >>=-eq-ok
        (throw_if (contains r.reservation_id st.records) BudgetStateError.duplicate_reservation) _
        h in
    let (u, h2, h3) = >>=-eq-ok (validate_reservation r) _ h1 in
    let e = ok_injective h3 in
    let absent =
      throw_if-eq_ok (contains r.reservation_id st.records) BudgetStateError.duplicate_reservation
        h0 in
    record {
      fresh = ground arith;
      valid = h2;
      records = sym (ap (λ (x : Replay). x.records) e);
      circuit = sym (ap (λ (x : Replay). x.discrepancy_circuit) e);
    }

apply_settlement-Settled :
    (s : BudgetSettlement) (rec : ReservationRecord) (st st' : Replay)
    → lookup s.reservation_id st.records ≡ some rec
    → apply_settlement s rec st ≡ ok st'
    → Settled s st st'
unfolding apply_settlement
apply_settlement-Settled s rec st st' found h =
    let (_, h0, h1) = >>=-eq-ok (throw_if (is_settled rec) BudgetStateError.already_settled) _ h in
    let (u, h2, h3) = >>=-eq-ok (validate_settlement rec.reservation s) _ h1 in
    let e = ok_injective h3 in
    let not_settled = throw_if-eq_ok (is_settled rec) BudgetStateError.already_settled h0 in
    record {
      rec = rec;
      found = found;
      open_record = ground arith;
      valid = h2;
      records = sym (ap (λ (x : Replay). x.records) e);
      circuit = sym (ap (λ (x : Replay). x.discrepancy_circuit) e);
    }

pub add_settlement-Settled :
    (s : BudgetSettlement) (st st' : Replay) → add_settlement s st ≡ ok st' → Settled s st st'
unfolding add_settlement
add_settlement-Settled s st st' h = elim (Option-cases (lookup s.reservation_id st.records)) [
  | inl missing ↦ absurd (cc (rw (missing, add_settlement) at h))
  | inr (rec, found) ↦ apply_settlement-Settled s rec st st' found (rw (found, add_settlement) at h)
]

-- What the first loop makes of its variables.
pub record Replays (events : List LedgerEvent) (st st' : Replay) : Type 0 where
  pub records : st'.records ≡ settle_all events st.records ++ records_of events
  pub circuit : st'.discrepancy_circuit ≡ (st.discrepancy_circuit || has_overrun events)
  pub distinct : Distinct st'.records

abbrev Skipped : LedgerEvent → List LedgerEvent → Type 0
Skipped e events =
    ((id : Text) → settlement_of id (e ∷ events) ≡ settlement_of id events)
    × (records_of (e ∷ events) ≡ records_of events)
    × (has_overrun (e ∷ events) ≡ has_overrun events)

Replays-skip :
    (e : LedgerEvent) (events : List LedgerEvent) (st st' : Replay)
    → Skipped e events
    → Replays events st st'
    → Replays (e ∷ events) st st'
Replays-skip e events st st' (a, b, c) r = record {
  records = rw (settle_all-skip e events st.records a, b) r.records;
  circuit = rw c r.circuit;
  distinct = r.distinct;
}

Replays-reservation :
    (r : BudgetReservation) (events : List LedgerEvent) (st st1 st' : Replay)
    → Reserved r st st1
    → Replays events st1 st'
    → Replays (LedgerEvent.budget_reservation r ∷ events) st st'
Replays-reservation r events st st1 st' a b =
    let new : Dict Text ReservationRecord =
      (r.reservation_id, record { reservation = r; settlement = none }) ∷ [] in
    let grown : st1.records ≡ st.records ++ new =
      a.records
      ∙ insert_new r.reservation_id (record { reservation = r; settlement = none }) st.records
          a.fresh in
    record {
      records =
          b.records
          ∙ ap (λ m. settle_all events m ++ records_of events) grown
          ∙ ap (λ m. m ++ records_of events) (settle_all-append events st.records new)
          ∙ append_assoc (settle_all events st.records) (settle_all events new) (records_of events)
          ∙ ap (λ m. m ++ records_of (LedgerEvent.budget_reservation r ∷ events))
              (sym (
                settle_all-skip (LedgerEvent.budget_reservation r) events st.records (λ id. refl)));
      circuit = cc (a.circuit, b.circuit);
      distinct = b.distinct;
    }

Replays-settlement :
    (s : BudgetSettlement) (events : List LedgerEvent) (st st1 st' : Replay)
    → Distinct st.records
    → Settled s st st1
    → Replays events st1 st'
    → Replays (LedgerEvent.budget_settlement s ∷ events) st st'
Replays-settlement s events st st1 st' d a b = record {
  records =
      b.records
      ∙ ap (λ m. settle_all events m ++ records_of events) a.records
      ∙ ap (λ m. m ++ records_of events)
          (settle_all-insert s events a.rec st.records d a.found a.open_record);
  circuit = ground (arith, a.circuit, b.circuit);
  distinct = b.distinct;
}

other_Replays :
    (e : LedgerEvent) (events : List LedgerEvent) (st st1 st' : Replay)
    → Skipped e events
    → ◌≡◌ {A = Result BudgetStateError Replay} (ok st) (ok st1)
    → (Distinct st1.records → Replays events st1 st')
    → Distinct st.records
    → Replays (e ∷ events) st st'
other_Replays e events st st1 st' s h ih d = Replays-skip e events st st' s (
    subst (λ x. Replays events x st') (sym (ok_injective h))
      (ih (subst (λ (x : Replay). Distinct x.records) (ok_injective h) d)))

-- The replay loop, from any variables with distinct keys, ends with the records it had, settled
-- by the events, followed by the reservations of the events with their settlements; the circuit
-- is open if it was or if some settlement overran; the keys stay distinct.
pub replay_events-Replays :
    (events : List LedgerEvent) (st st' : Replay)
    → Distinct st.records
    → replay_events events st ≡ ok st'
    → Replays events st st'
unfolding replay_events replay_event
replay_events-Replays [] st st' d h =
    subst (λ x. Replays [] st x) (ok_injective h)
      (record {
        records = sym (append-nil (settle_all [] st.records) ∙ settle_all-none st.records);
        circuit = ground arith;
        distinct = d;
      })
replay_events-Replays (e ∷ events) st st' d h =
    let (st1, h1, h2) = >>=-eq-ok (replay_event e st) _ h in
    by_event e st1 h1 (λ d1. replay_events-Replays events st1 st' d1 h2)
  where
    by_event :
        (e : LedgerEvent) (st1 : Replay)
        → replay_event e st ≡ ok st1
        → (Distinct st1.records → Replays events st1 st')
        → Replays (e ∷ events) st st'
    by_event (LedgerEvent.budget_reservation r) st1 h1 ih =
        let a = add_reservation-Reserved r st st1 h1 in
        Replays-reservation r events st st1 st' a
          (ih (rw a.records (insert-Distinct r.reservation_id _ st.records d)))
    by_event (LedgerEvent.budget_settlement s) st1 h1 ih =
        let a = add_settlement-Settled s st st1 h1 in
        Replays-settlement s events st st1 st' d a
          (ih (rw a.records (insert-Distinct s.reservation_id _ st.records d)))
    by_event e st1 h1 ih = other_Replays e events st st1 st' ((λ id. refl), refl, refl) h1 ih d
