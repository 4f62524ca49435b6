-- ===== src/AccountingLedger/Reading.antt =====
-- ledger.ts: `replay` on a file to which a line is added.
use ikimetr.Prelude.{
  ℕ, ◌⊎◌, ◌≡◌, refl, sym, ap, ◌∙◌, arith, inl, inr, Bool, true, false, not, List, [], ◌∷◌, ◌++◌,
  any, any-append, Text, text_Eq, ◌==◌, Bool-cases, ok, err, >>=-eq-ok, ok_injective, if-else_eq,
  if-then_eq,
}
use mathlib.Core.Path.{subst}
use ikimetr.LedgerEvents.{LedgerEvent, Schema, event_id}
use ikimetr.AccountingLedger.{
  newline, has_newline, ends_with_newline, drop_last, split_lines, LineFormat, ReplayError, Seen,
  nothing_seen, reject_duplicate, see_kind, see_event, read_event, read_lines, is_empty_line,
  read_source,
}
use ikimetr.AccountingLedger.Lines.{
  drop_last-append, ends_with_newline-append, drop_last-newline, split_lines-line,
  split_lines-append,
}

abbrev reservation_ids : LedgerEvent → List Text
reservation_ids (LedgerEvent.budget_reservation e) = e.reservation_id ∷ []
reservation_ids _ = []

abbrev settlement_ids : LedgerEvent → List Text
settlement_ids (LedgerEvent.budget_settlement e) = e.settlement_id ∷ []
settlement_ids _ = []

abbrev approval_ids : LedgerEvent → List Text
approval_ids (LedgerEvent.approval e) = e.approval_id ∷ []
approval_ids _ = []

abbrev with_kind : Seen → LedgerEvent → Seen
with_kind seen (LedgerEvent.budget_reservation e) = record seen {
  reservations = seen.reservations ++ e.reservation_id ∷ [];
}
with_kind seen (LedgerEvent.budget_settlement e) = record seen {
  settlements = seen.settlements ++ e.settlement_id ∷ [];
}
with_kind seen (LedgerEvent.approval e) = record seen {
  approvals = seen.approvals ++ e.approval_id ∷ [];
}
with_kind seen _ = seen

-- The identifiers of the events so far, of every kind.
abbrev with_ids : Seen → LedgerEvent → Seen
with_ids seen e = with_kind (record seen { events = seen.events ++ event_id e ∷ [] }) e

unfoldable pub ids_after : Seen → List LedgerEvent → Seen
ids_after seen [] = seen
ids_after seen (e ∷ events) = ids_after (with_ids seen e) events

-- None of the identifiers of an event is among the ones so far.
abbrev pub unused : List Text → List Text → Bool
unused ids [] = true
unused ids (id ∷ rest) = not (any (λ s. s == id) ids)

pub record Fresh (seen : Seen) (e : LedgerEvent) : Type 0 where
  pub event : any (λ s. s == event_id e) seen.events ≡ false
  pub reservation : unused seen.reservations (reservation_ids e) ≡ true
  pub settlement : unused seen.settlements (settlement_ids e) ≡ true
  pub approval : unused seen.approvals (approval_ids e) ≡ true

reject_duplicate-eq_ok :
    (seen : List Text) (id : Text) (next : List Text)
    → reject_duplicate seen id ≡ ok next
    → next ≡ seen ++ id ∷ []
unfolding reject_duplicate
reject_duplicate-eq_ok seen id next h = elim (Bool-cases (any (λ s. s == id) seen)) [
  | inl e ↦ absurd (cc (if-then_eq _ _ _ e h))
  | inr e ↦ sym (ok_injective (if-else_eq _ _ _ e h))
]

reject_duplicate_fresh :
    (seen : List Text) (id : Text)
    → any (λ s. s == id) seen ≡ false
    → reject_duplicate seen id ≡ ok (seen ++ id ∷ [])
unfolding reject_duplicate
reject_duplicate_fresh seen id h = rw (h) refl

see_kind-eq_ok :
    (seen : Seen) (e : LedgerEvent) (next : Seen)
    → see_kind seen e ≡ ok next
    → next ≡ with_kind seen e
unfolding see_kind
see_kind-eq_ok seen (LedgerEvent.budget_reservation e) next h =
    let (ids, p, q) = >>=-eq-ok (reject_duplicate seen.reservations e.reservation_id) _ h in
    sym (ok_injective q)
    ∙ ap (λ (x : List Text). record seen { reservations = x }) (reject_duplicate-eq_ok _ _ ids p)
see_kind-eq_ok seen (LedgerEvent.budget_settlement e) next h =
    let (ids, p, q) = >>=-eq-ok (reject_duplicate seen.settlements e.settlement_id) _ h in
    sym (ok_injective q)
    ∙ ap (λ (x : List Text). record seen { settlements = x }) (reject_duplicate-eq_ok _ _ ids p)
see_kind-eq_ok seen (LedgerEvent.approval e) next h =
    let (ids, p, q) = >>=-eq-ok (reject_duplicate seen.approvals e.approval_id) _ h in
    sym (ok_injective q)
    ∙ ap (λ (x : List Text). record seen { approvals = x }) (reject_duplicate-eq_ok _ _ ids p)
see_kind-eq_ok seen (LedgerEvent.attempt_started e) next h = sym (ok_injective h)
see_kind-eq_ok seen (LedgerEvent.attempt_completed e) next h = sym (ok_injective h)
see_kind-eq_ok seen (LedgerEvent.provider_health e) next h = sym (ok_injective h)
see_kind-eq_ok seen (LedgerEvent.verification e) next h = sym (ok_injective h)
see_kind-eq_ok seen (LedgerEvent.cache e) next h = sym (ok_injective h)
see_kind-eq_ok seen (LedgerEvent.routing_decision e) next h = sym (ok_injective h)

see_event-eq_ok :
    (seen : Seen) (e : LedgerEvent) (next : Seen)
    → see_event seen e ≡ ok next
    → next ≡ with_ids seen e
unfolding see_event
see_event-eq_ok seen e next h =
    let (ids, p, q) = >>=-eq-ok (reject_duplicate seen.events (event_id e)) _ h in
    see_kind-eq_ok (record seen { events = ids }) e next q
    ∙ ap (λ (x : List Text). with_kind (record seen { events = x }) e)
        (reject_duplicate-eq_ok seen.events (event_id e) ids p)

of_unused :
    (ids : List Text) (id : Text) → unused ids (id ∷ []) ≡ true → any (λ s. s == id) ids ≡ false
of_unused ids id h = ground arith

see_kind_fresh :
    (seen : Seen) (e : LedgerEvent)
    → unused seen.reservations (reservation_ids e) ≡ true
    → unused seen.settlements (settlement_ids e) ≡ true
    → unused seen.approvals (approval_ids e) ≡ true
    → see_kind seen e ≡ ok (with_kind seen e)
unfolding see_kind
see_kind_fresh seen (LedgerEvent.budget_reservation e) r s a =
    rw (reject_duplicate_fresh seen.reservations e.reservation_id (of_unused _ _ r)) refl
see_kind_fresh seen (LedgerEvent.budget_settlement e) r s a =
    rw (reject_duplicate_fresh seen.settlements e.settlement_id (of_unused _ _ s)) refl
see_kind_fresh seen (LedgerEvent.approval e) r s a =
    rw (reject_duplicate_fresh seen.approvals e.approval_id (of_unused _ _ a)) refl
see_kind_fresh seen (LedgerEvent.attempt_started e) r s a = refl
see_kind_fresh seen (LedgerEvent.attempt_completed e) r s a = refl
see_kind_fresh seen (LedgerEvent.provider_health e) r s a = refl
see_kind_fresh seen (LedgerEvent.verification e) r s a = refl
see_kind_fresh seen (LedgerEvent.cache e) r s a = refl
see_kind_fresh seen (LedgerEvent.routing_decision e) r s a = refl

see_event-Fresh :
    (seen : Seen) (e : LedgerEvent) → Fresh seen e → see_event seen e ≡ ok (with_ids seen e)
unfolding see_event
see_event-Fresh seen e f = rw (reject_duplicate_fresh seen.events (event_id e) f.event) (
    see_kind_fresh (record seen { events = seen.events ++ event_id e ∷ [] }) e f.reservation
      f.settlement f.approval)

regroup :
    (body line : Text)
    → (body ++ newline ∷ []) ++ (line ++ newline ∷ []) ≡ (body ++ newline ∷ line) ++ newline ∷ []
regroup [] line = refl
regroup (c ∷ body) line = ap (λ r. c ∷ r) (regroup body line)

module _ (schema : Schema) (format : LineFormat) where
  -- A line read after the others.
  read_lines-append :
      (lines : List Text) (line : Text) (seen : Seen) (events : List LedgerEvent) (e : LedgerEvent)
      → read_lines schema format seen lines ≡ ok events
      → read_event schema format line ≡ ok e
      → Fresh (ids_after seen events) e
      → read_lines schema format seen (lines ++ line ∷ []) ≡ ok (events ++ e ∷ [])
  unfolding read_lines ids_after
  read_lines-append [] line seen events e h p f =
      let none_read : [] ≡ events = ok_injective h in
      let fresh = subst (λ x. Fresh (ids_after seen x) e) (sym none_read) f in
      rw (p, see_event-Fresh seen e fresh) (ap (λ x. ok (x ++ e ∷ [])) none_read)
  read_lines-append (l ∷ lines) line seen events e h p f =
      let (x, hx, r0) = >>=-eq-ok (read_event schema format l) _ h in
      let (next, hn, r1) = >>=-eq-ok (see_event seen x) _ r0 in
      let (rest, hr, r2) = >>=-eq-ok (read_lines schema format next lines) _ r1 in
      let all : x ∷ rest ≡ events = ok_injective r2 in
      let fresh =
        subst (λ s. Fresh (ids_after s rest) e) (sym (see_event-eq_ok seen x next hn))
          (subst (λ y. Fresh (ids_after seen y) e) (sym all) f) in
      rw (hx, hn, read_lines-append lines line next rest e hr p fresh)
        (ap (λ y. ok (y ++ e ∷ [])) all)

  any_empty-append :
      (lines : List Text) (line : Text)
      → any is_empty_line lines ≡ false
      → is_empty_line line ≡ false
      → any is_empty_line (lines ++ line ∷ []) ≡ false
  any_empty-append lines line h g = ground (arith, any-append is_empty_line lines (line ∷ []))

  read_source-newline :
      (body : Text)
      → any is_empty_line (split_lines body) ≡ false
      → read_source schema format (body ++ newline ∷ [])
        ≡ read_lines schema format nothing_seen (split_lines body)
  unfolding read_source
  read_source-newline [] h = rw (h) refl
  read_source-newline (c ∷ body) h =
      rw (ends_with_newline-append (c ∷ body) newline [], drop_last-append (c ∷ body) newline, h)
        refl

  -- A file that is read is empty, or its lines are.
  read_source-eq_ok :
      (file : Text) (events : List LedgerEvent)
      → read_source schema format file ≡ ok events
      → ((file ≡ []) × (events ≡ []))
        ⊎ ((body : Text) × (file ≡ body ++ newline ∷ [])
            × (any is_empty_line (split_lines body) ≡ false)
            × (read_lines schema format nothing_seen (split_lines body) ≡ ok events))
  unfolding read_source
  read_source-eq_ok [] events h = inl (refl, sym (ok_injective h))
  read_source-eq_ok (c ∷ rest) events h = elim (Bool-cases (ends_with_newline (c ∷ rest))) [
    | inr e ↦ absurd (cc (rw (e) at h))
    | inl e ↦ elim (Bool-cases (any is_empty_line (split_lines (drop_last (c ∷ rest))))) [
      | inl f ↦ absurd (cc (rw (e, f) at h))
      | inr f ↦ inr (drop_last (c ∷ rest), drop_last-newline (c ∷ rest) e, f, rw (e, f) at h)
    ]
  ]

  pub read_source-append :
      (file line : Text) (events : List LedgerEvent) (e : LedgerEvent)
      → read_source schema format file ≡ ok events
      → has_newline line ≡ false
      → is_empty_line line ≡ false
      → read_event schema format line ≡ ok e
      → Fresh (ids_after nothing_seen events) e
      → read_source schema format (file ++ (line ++ newline ∷ [])) ≡ ok (events ++ e ∷ [])
  unfolding read_lines
  read_source-append file line events e h one some_text p f =
      elim (read_source-eq_ok file events h) [
        | inl (none_there, nothing) ↦
            let alone : any is_empty_line (split_lines line) ≡ false =
              rw (split_lines-line line one) (ground arith) in
            rw (none_there, read_source-newline line alone, split_lines-line line one)
              (read_lines-append [] line nothing_seen events e (rw (nothing) refl) p f)
        | inr (body, same, full, lines) ↦
            let full_after : any is_empty_line (split_lines (body ++ newline ∷ line)) ≡ false =
              rw (split_lines-append body line one)
                (any_empty-append (split_lines body) line full some_text) in
            rw
              (
                same,
                regroup body line,
                read_source-newline (body ++ newline ∷ line) full_after,
                split_lines-append body line one,
              )
              (read_lines-append (split_lines body) line nothing_seen events e lines p f)
      ]

  pub read_source_partial :
      (source : Text) (c : ℕ) (rest : Text)
      → source ≡ c ∷ rest
      → ends_with_newline source ≡ false
      → read_source schema format source ≡ err ReplayError.partial_record
  unfolding read_source
  read_source_partial source c rest same h =
      let open_end = ap ends_with_newline (sym same) ∙ h in rw (same, open_end) refl
