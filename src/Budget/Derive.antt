-- ===== src/Budget/Derive.antt =====
-- budget.ts: what `deriveBudgetState` makes of a ledger, in the terms of Spec.
use mathlib.Core.Path.{subst}
use ikimetr.Prelude.{
  ◌≡◌, refl, sym, ◌∙◌, ap, Bool, true, false, ◌||◌, Option, none, some, List, [], ◌∷◌, arith,
  if◌then◌else◌, ◌==◌, any-append, Text, text_Eq, text_eq_iff, ok, >>=-eq-ok, ok_injective, inl,
  inr, Bool-cases, ap-if,
}
use ikimetr.Prelude.Dict.{Dict, lookup, insert, keys, Distinct, lookup-insert}
use ikimetr.LedgerEvents.{LedgerEvent}
use ikimetr.Budget.Usage.{create_empty_totals}
use ikimetr.Budget.Totals.Record.{Grows}
use ikimetr.Budget.Replay.{
  ReservationRecord, ReplayedBudgetState, Summary, is_settled, add_id, has_id, replay_events,
  empty_replay, empty_summary, summarize, summarize_record, recovery_blocking, derive_budget_state,
}
use ikimetr.Budget.Spec.{records_of, has_overrun, spent}
use ikimetr.Budget.Spec.Records.{replay_events-Replays}
use ikimetr.Budget.Spec.Sums.{summarize_record-Summarized, summarize-Grows}

-- The record of an id that is still open, and whether it has a settled one.
abbrev pub open_record : Option ReservationRecord → Option ReservationRecord
open_record none = none
open_record (some rec) = if is_settled rec then none else some rec

abbrev pub settled_record : Option ReservationRecord → Bool
settled_record none = false
settled_record (some rec) = is_settled rec

abbrev or_else : {A : Type 0} → Option A → Option A → Option A
or_else none o = o
or_else (some a) _ = some a

has_id-add_id : (id k : Text) (l : List Text) → has_id id (add_id k l) ≡ (k == id || has_id id l)
has_id-add_id id k l =
    ground (arith, any-append (λ j. j == id) l (k ∷ []), same_member (has_id k l) refl)
  where
    member : (m : List Text) → k ≡ id → has_id k m ≡ true → has_id id m ≡ true
    member m e h = rw (← e) h

    same_member : (b : Bool) → has_id k l ≡ b → (k == id) ≡ true → b ≡ true → has_id id l ≡ true
    same_member b e q t = member l ((text_eq_iff k id).0 q) (e ∙ t)

active_same :
    (b : Bool) (rec : ReservationRecord) (o : Option ReservationRecord)
    → (if b then o else some rec) ≡ or_else (if b then none else some rec) o
active_same true rec o = refl
active_same false rec o = refl

active_other :
    (b : Bool) (a o : Option ReservationRecord) → or_else a (if b then o else o) ≡ or_else a o
active_other true a o = refl
active_other false a o = refl

settled_same : (b c : Bool) → (if b then true else c) ≡ (b || c)
settled_same true c = refl
settled_same false c = refl

settled_other : (b a c : Bool) → (a || (if b then c else c)) ≡ (a || c)
settled_other true a c = refl
settled_other false a c = refl

summarize-active :
    (records : Dict Text ReservationRecord) (s s' : Summary) (id : Text)
    → Distinct records
    → summarize records s ≡ ok s'
    → lookup id s'.active ≡ or_else (open_record (lookup id records)) (lookup id s.active)
unfolding summarize lookup
summarize-active [] s s' id d h = ap (λ (x : Summary). lookup id x.active) (sym (ok_injective h))
summarize-active ((k, rec) ∷ records) s s' id d h =
    let (s1, h1, h2) = >>=-eq-ok (summarize_record k rec s) _ h in
    let one = summarize_record-Summarized k rec s s1 h1 in
    let ih = summarize-active records s1 s' id d.1 h2 in
    let grown = lookup-insert k id rec s.active in
    let here =
      ap (lookup id) one.active
      ∙ ap-if (lookup id) (is_settled rec) s.active (insert k rec s.active) in
    let absent : k ≡ id → lookup id records ≡ none =
      λ e. subst (λ x. lookup x records ≡ none) e d.0 in
    elim (Bool-cases (k == id)) [
      | inl same ↦
          let gone = absent ((text_eq_iff k id).0 same) in
          rw (ih, here, grown, gone, same) (active_same (is_settled rec) rec (lookup id s.active))
      | inr other ↦
          rw (ih, here, grown, other) (active_other (is_settled rec) _ (lookup id s.active))
    ]

summarize-settled :
    (records : Dict Text ReservationRecord) (s s' : Summary) (id : Text)
    → Distinct records
    → summarize records s ≡ ok s'
    → has_id id s'.settled ≡ (settled_record (lookup id records) || has_id id s.settled)
unfolding summarize lookup
summarize-settled [] s s' id d h = ap (λ (x : Summary). has_id id x.settled) (sym (ok_injective h))
summarize-settled ((k, rec) ∷ records) s s' id d h =
    let (s1, h1, h2) = >>=-eq-ok (summarize_record k rec s) _ h in
    let one = summarize_record-Summarized k rec s s1 h1 in
    let ih = summarize-settled records s1 s' id d.1 h2 in
    let here =
      ap (has_id id) one.settled
      ∙ ap-if (has_id id) (is_settled rec) (add_id k s.settled) s.settled in
    let added = has_id-add_id id k s.settled in
    let absent : k ≡ id → lookup id records ≡ none =
      λ e. subst (λ x. lookup x records ≡ none) e d.0 in
    elim (Bool-cases (k == id)) [
      | inl same ↦
          let gone = absent ((text_eq_iff k id).0 same) in
          rw (ih, here, added, gone, same) (settled_same (is_settled rec) (has_id id s.settled))
      | inr other ↦
          rw (ih, here, added, other) (settled_other (is_settled rec) _ (has_id id s.settled))
    ]

-- A derived state, in the terms of the ledger.
pub record Derived (events : List LedgerEvent) (recovered : Option (List Text))
    (st : ReplayedBudgetState) : Type 0 where
  pub totals : Grows (spent (records_of events)) create_empty_totals st.totals
  pub circuit : st.discrepancy_circuit_open ≡ has_overrun events
  pub active :
      (id : Text) → lookup id st.active_reservations ≡ open_record (lookup id (records_of events))
  pub settled :
      (id : Text) → has_id id st.settled_ids ≡ settled_record (lookup id (records_of events))
  pub blocking :
      st.recovery_blocking_ids ≡ recovery_blocking recovered (keys st.active_reservations)
  pub distinct : Distinct (records_of events)

or_else-none : (o : Option ReservationRecord) → or_else o none ≡ o
or_else-none none = refl
or_else-none (some r) = refl

or-false : (b : Bool) → (b || false) ≡ b
or-false true = refl
or-false false = refl

-- Whenever the replay of a ledger succeeds, the state is what the ledger stands for: every
-- counter of every total, the cost in each currency among them, is the sum over its scope of
-- what the reservations are held to, an id is active while its reservation is open and settled
-- once it is closed, the circuit is open exactly when some settlement overran, and the blocking
-- ids are those of the recovered open reservations.
pub derive_budget_state-Derived :
    (events : List LedgerEvent) (recovered : Option (List Text)) (st : ReplayedBudgetState)
    → derive_budget_state events recovered ≡ ok st
    → Derived events recovered st
unfolding derive_budget_state lookup
derive_budget_state-Derived events recovered st h =
    let (rp, h1, h2) = >>=-eq-ok (replay_events events empty_replay) _ h in
    let (sum, h3, h4) = >>=-eq-ok (summarize rp.records empty_summary) _ h2 in
    let e = ok_injective h4 in
    let replays = replay_events-Replays events empty_replay rp tt h1 in
    let on = subst (λ m. summarize m empty_summary ≡ ok sum) replays.records h3 in
    let distinct =
      subst (λ (m : Dict Text ReservationRecord). Distinct m) replays.records replays.distinct in
    subst (λ x. Derived events recovered x) e
      (record {
        totals = summarize-Grows (records_of events) empty_summary sum on;
        circuit = replays.circuit;
        active = λ id.
            summarize-active (records_of events) empty_summary sum id distinct on
            ∙ or_else-none (open_record (lookup id (records_of events)));
        settled = λ id.
            summarize-settled (records_of events) empty_summary sum id distinct on
            ∙ or-false (settled_record (lookup id (records_of events)));
        blocking = refl;
        distinct = distinct;
      })
