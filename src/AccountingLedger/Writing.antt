-- ===== src/AccountingLedger/Writing.antt =====
-- ledger.ts: what `replay` finds after an append, whether it returned or not.
use mathlib.Core.List.{append-nil}
use ikimetr.Prelude.{
  ℕ, zero, suc, ◌≡◌, refl, sym, ap, ◌∙◌, ◌⊎◌, inl, inr, Bool, true, false, ◌&&◌, Option, none, some,
  List, [], ◌∷◌, ◌++◌, take, Text, Bool-cases, Result-cases, ok, err,
}
use ikimetr.LedgerEvents.{LedgerEvent, Schema, parse_ledger_event}
use ikimetr.Budget.Controller.Append.{parse_ledger_event_lem}
use ikimetr.AccountingLedger.{
  newline, ends_with_newline, LineFormat, Printable, ReplayError, nothing_seen, read_event,
  is_empty_line, replay, AppendCalls, drop, write_all, write_record, append,
}
use ikimetr.AccountingLedger.Lines.{
  ends_with_newline-append, ends_with_newline_none, has_newline-part,
}
use ikimetr.AccountingLedger.Reading.{ids_after, Fresh, read_source-append, read_source_partial}

-- What the writes leave: all of the record, or a proper part of it.
pub data Written (record_text : Text) : Text × Bool → Type 0 where
  whole : (b : Bool) → Written record_text (record_text, b)
  part : (w : Text) (c : ℕ) (u : Text) → (record_text ≡ w ++ c ∷ u) → Written record_text (w, false)

take-drop : (n : ℕ) (t : Text) → take n t ++ drop n t ≡ t
take-drop zero t = refl
take-drop (suc n) [] = refl
take-drop (suc n) (c ∷ t) = ap (λ r. c ∷ r) (take-drop n t)

append_part : (s w u : Text) (c : ℕ) → s ++ (w ++ c ∷ u) ≡ (s ++ w) ++ c ∷ u
append_part [] w u c = refl
append_part (a ∷ s) w u c = ap (λ r. a ∷ r) (append_part s w u c)

append_cons : (s : Text) (a : ℕ) (w : Text) → (d : ℕ) × (rest : Text) × (s ++ a ∷ w ≡ d ∷ rest)
append_cons [] a w = (a, w, refl)
append_cons (b ∷ s) a w = (b, s ++ a ∷ w, refl)

after_write :
    (c : ℕ) (n : ℕ) (rest : Text) (p : Text × Bool)
    → Written (drop n rest) p
    → Written (c ∷ rest) (c ∷ (take n rest ++ p.0), p.1)
after_write c n rest _ (Written.whole b) = rw (take-drop n rest) (Written.whole b)
after_write c n rest _ (Written.part w d u e) = Written.part (c ∷ (take n rest ++ w)) d u (
    ap (λ r. c ∷ r)
      (sym (take-drop n rest) ∙ ap (λ r. take n rest ++ r) e ∙ append_part (take n rest) w u d))

write_all-Written : (answers : List (Option ℕ)) (t : Text) → Written t (write_all answers t)
unfolding write_all
write_all-Written answers [] = Written.whole true
write_all-Written [] (c ∷ rest) = Written.part [] c rest refl
write_all-Written (none ∷ answers) (c ∷ rest) = Written.part [] c rest refl
write_all-Written (some zero ∷ answers) (c ∷ rest) = Written.part [] c rest refl
write_all-Written (some (suc n) ∷ answers) (c ∷ rest) =
    after_write c n rest _ (write_all-Written answers (drop n rest))

module _ (schema : Schema) (format : LineFormat) (e : LedgerEvent) (file : Text)
    (events : List LedgerEvent) (there : replay schema format true (some file) ≡ ok events)
    (printable : Printable format e) (fresh : Fresh (ids_after nothing_seen events) e) where
  -- What is read after an append.
  abbrev AfterAppend : Text × Bool → Type 0
  AfterAppend p =
      (replay schema format true (some p.0) ≡ ok (events ++ e ∷ []))
      ⊎ ((p.1 ≡ false)
          × ((replay schema format true (some p.0) ≡ ok events)
              ⊎ (replay schema format true (some p.0) ≡ err ReplayError.partial_record)))

  whole-AfterAppend :
      (b : Bool)
      → parse_ledger_event schema e ≡ ok e
      → AfterAppend (file ++ (format.print e ++ newline ∷ []), b)
  unfolding replay read_event
  whole-AfterAppend b valid =
      let read : read_event schema format (format.print e) ≡ ok e =
        rw (printable.read_back, valid) refl in
      let (c, rest, some_text) = printable.some_text in
      let full : is_empty_line (format.print e) ≡ false = rw (some_text) refl in
      inl (
        read_source-append schema format file (format.print e) events e there printable.one_line
          full read fresh)

  part-AfterAppend :
      (w : Text) (c : ℕ) (u : Text)
      → parse_ledger_event schema e ≡ ok e
      → format.print e ++ newline ∷ [] ≡ w ++ c ∷ u
      → AfterAppend (file ++ w, false)
  unfolding replay
  part-AfterAppend [] c u valid same = inr (refl, inl (rw (append-nil file) there))
  part-AfterAppend (a ∷ w) c u valid same =
      let none_inside = has_newline-part (format.print e) (a ∷ w) c u same printable.one_line in
      let unended : ends_with_newline (file ++ a ∷ w) ≡ false =
        ends_with_newline-append file a w ∙ ends_with_newline_none (a ∷ w) none_inside in
      let (d, rest, cons) = append_cons file a w in
      inr (refl, inr (read_source_partial schema format (file ++ a ∷ w) d rest cons unended))

  Written-AfterAppend :
      (calls : AppendCalls) (p : Text × Bool)
      → parse_ledger_event schema e ≡ ok e
      → Written (format.print e ++ newline ∷ []) p
      → AfterAppend (file ++ p.0, p.1 && calls.synced)
  Written-AfterAppend calls _ valid (Written.whole b) = whole-AfterAppend _ valid
  Written-AfterAppend calls _ valid (Written.part w c u same) = part-AfterAppend w c u valid same

  append-AfterAppend : (calls : AppendCalls) → AfterAppend (append schema format calls e file)
  unfolding append write_record
  append-AfterAppend calls = elim (Result-cases (parse_ledger_event schema e)) [
    | inr (x, h) ↦ rw (h, append) (inr (refl, inl there))
    | inl (v, h) ↦
        let valid = h ∙ ap ok (parse_ledger_event_lem schema e h) in
        elim (Bool-cases (calls.bounded && calls.opened)) [
          | inr f ↦ rw (valid, append, f) (inr (refl, inl there))
          | inl f ↦
              rw (valid, append, f)
                (Written-AfterAppend calls _ valid
                  (write_all-Written calls.writes (format.print e ++ newline ∷ [])))
        ]
  ]

  -- An append that returns, in however many writes, is read back: a replay of the file gives the
  -- events that it gave before and then the event. The event is written on one line that reads
  -- back as the event, and its identifiers are new.
  pub append-replay :
      (calls : AppendCalls)
      → (append schema format calls e file).1 ≡ true
      → replay schema format true (some (append schema format calls e file).0)
        ≡ ok (events ++ e ∷ [])
  append-replay calls h = elim (append-AfterAppend calls) [
    | inl read ↦ read
    | inr (failed, _) ↦ absurd (cc (h, failed))
  ]

  -- After an append that does not return, wherever its writes stop, a replay of the file gives
  -- the events as before, or with the event at the end, or refuses the file for its partial
  -- final record. The event is written on one line that reads back as the event, and its
  -- identifiers are new.
  pub append-failed :
      (calls : AppendCalls)
      → (append schema format calls e file).1 ≡ false
      → (replay schema format true (some (append schema format calls e file).0) ≡ ok events)
        ⊎ ((replay schema format true (some (append schema format calls e file).0)
              ≡ ok (events ++ e ∷ []))
            ⊎ (replay schema format true (some (append schema format calls e file).0)
                ≡ err ReplayError.partial_record))
  append-failed calls h = elim (append-AfterAppend calls) [
    | inl read ↦ inr (inl read)
    | inr (_, inl same) ↦ inl same
    | inr (_, inr partial) ↦ inr (inr partial)
  ]
