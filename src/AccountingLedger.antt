-- ===== src/AccountingLedger.antt =====
-- ledger.ts: the file of the accounting ledger, as the text that it holds. A line is the JSON text of
-- an event; how it is written and read is the record `LineFormat`.

pub mod Lines
pub mod Reading
pub mod Writing
use ikimetr.Prelude.{
  ℕ, zero, suc, ◌≡◌, Bool, true, false, ◌&&◌, not, Option, none, some, List, [], ◌∷◌, ◌++◌, nat_eq,
  any, take, if◌then◌else◌, Eq, ◌==◌, Text, text_Eq, Result, ok, err, ◌>>=◌, ◌>>◌, throw_if,
  map_err,
}
use ikimetr.LedgerEvents.{LedgerEvent, Schema, LedgerError, parse_ledger_event, event_id}

abbrev pub newline : ℕ
newline = 10

abbrev pub has_newline : Text → Bool
has_newline t = any (λ c. nat_eq c newline) t

-- `canonicalize(event)`, and `parseJsonStrict(line)` with the shape of an event.
pub record LineFormat : Type 0 where
  pub print : LedgerEvent → Text
  pub parse : Text → Option LedgerEvent

-- What the ledger relies on for an event: it is written on one line, and the line reads back.
pub record Printable (format : LineFormat) (e : LedgerEvent) : Type 0 where
  pub one_line : has_newline (format.print e) ≡ false
  pub some_text : (c : ℕ) × (rest : Text) × (format.print e ≡ c ∷ rest)
  pub read_back : format.parse (format.print e) ≡ some e

pub data ReplayError : Type 0 where
  storage partial_record empty_record invalid_json duplicate : ReplayError
  invalid : LedgerError → ReplayError

-- `source.endsWith('\n')`
abbrev pub ends_with_newline : Text → Bool
ends_with_newline [] = false
ends_with_newline (c ∷ []) = nat_eq c newline
ends_with_newline (c ∷ d ∷ rest) = ends_with_newline (d ∷ rest)

-- `source.slice(0, -1)`
abbrev pub drop_last : Text → Text
drop_last [] = []
drop_last (c ∷ []) = []
drop_last (c ∷ d ∷ rest) = c ∷ drop_last (d ∷ rest)

abbrev pub add_to_first : ℕ → List Text → List Text
add_to_first c [] = (c ∷ []) ∷ []
add_to_first c (line ∷ lines) = (c ∷ line) ∷ lines

-- `source.split('\n')`
unfoldable pub split_lines : Text → List Text
split_lines [] = [] ∷ []
split_lines (c ∷ rest) =
    let lines = split_lines rest in if nat_eq c newline then [] ∷ lines else add_to_first c lines

-- The four sets of `replay`.
pub record Seen : Type 0 where
  pub events : List Text
  pub reservations : List Text
  pub settlements : List Text
  pub approvals : List Text

abbrev pub nothing_seen : Seen
nothing_seen = record { events = []; reservations = []; settlements = []; approvals = [] }

-- `rejectDuplicate`: the set with the identifier.
unfoldable pub reject_duplicate : List Text → Text → Result ReplayError (List Text)
reject_duplicate seen id =
    if any (λ s. s == id) seen then err ReplayError.duplicate else ok (seen ++ id ∷ [])

-- The identifier of the event's own kind.
unfoldable pub see_kind : Seen → LedgerEvent → Result ReplayError Seen
see_kind seen (LedgerEvent.budget_reservation e) =
    reject_duplicate seen.reservations e.reservation_id >>= λ ids.
    ok (record seen { reservations = ids })
see_kind seen (LedgerEvent.budget_settlement e) =
    reject_duplicate seen.settlements e.settlement_id >>= λ ids.
    ok (record seen { settlements = ids })
see_kind seen (LedgerEvent.approval e) =
    reject_duplicate seen.approvals e.approval_id >>= λ ids. ok (record seen { approvals = ids })
see_kind seen _ = ok seen

unfoldable pub see_event : Seen → LedgerEvent → Result ReplayError Seen
see_event seen e =
    reject_duplicate seen.events (event_id e) >>= λ ids. see_kind (record seen { events = ids }) e

abbrev pub or_invalid_json : Option LedgerEvent → Result ReplayError LedgerEvent
or_invalid_json none = err ReplayError.invalid_json
or_invalid_json (some e) = ok e

abbrev pub is_empty_line : Text → Bool
is_empty_line [] = true
is_empty_line (c ∷ rest) = false

-- The calls of one append: whether the storage boundary holds and the file opens, what each write
-- returns, `none` when it throws, and whether the file syncs. After the last of the answers the process
-- has ended.
pub record AppendCalls : Type 0 where
  pub bounded : Bool
  pub opened : Bool
  pub writes : List (Option ℕ)
  pub synced : Bool

abbrev pub drop {ℓ} : {A : Type ℓ} → ℕ → List A → List A
drop zero l = l
drop (suc n) [] = []
drop (suc n) (x ∷ l) = drop n l

-- The loop of the writes on what is left of the record: what was written, and whether the loop
-- ended with all of it.
unfoldable pub write_all : List (Option ℕ) → Text → Text × Bool
write_all answers [] = ([], true)
write_all [] (c ∷ rest) = ([], false)
write_all (none ∷ answers) (c ∷ rest) = ([], false)
write_all (some zero ∷ answers) (c ∷ rest) = ([], false)
write_all (some (suc n) ∷ answers) (c ∷ rest) =
    let (written, finished) = write_all answers (drop n rest) in
    (c ∷ (take n rest ++ written), finished)

unfoldable pub write_record : AppendCalls → Text → Text → Text × Bool
write_record calls line file =
    let (written, finished) = write_all calls.writes (line ++ newline ∷ []) in
    (file ++ written, finished && calls.synced)

module _ (schema : Schema) (format : LineFormat) where
  unfoldable pub read_event : Text → Result ReplayError LedgerEvent
  read_event line = or_invalid_json (format.parse line) >>= λ parsed.
      map_err ReplayError.invalid (parse_ledger_event schema parsed)

  -- The loop of `replay`.
  unfoldable pub read_lines : Seen → List Text → Result ReplayError (List LedgerEvent)
  read_lines seen [] = ok []
  read_lines seen (line ∷ lines) = read_event line >>= λ e.
      see_event seen e >>= λ next. read_lines next lines >>= λ events. ok (e ∷ events)

  -- What `replay` makes of the text of the file.
  unfoldable pub read_source : Text → Result ReplayError (List LedgerEvent)
  read_source [] = ok []
  read_source (c ∷ rest) =
      let source = c ∷ rest in
      let lines = split_lines (drop_last source) in
      if not (ends_with_newline source)
      then err ReplayError.partial_record
      else if any is_empty_line lines
      then err ReplayError.empty_record
      else read_lines nothing_seen lines

  -- `replay`: whether the storage boundary holds, and the file, if there is one.
  unfoldable pub replay : Bool → Option Text → Result ReplayError (List LedgerEvent)
  replay false file = err ReplayError.storage
  replay true none = ok []
  replay true (some source) = read_source source

  -- `append`: the file after it, and whether it returned.
  unfoldable pub append : AppendCalls → LedgerEvent → Text → Text × Bool
  append calls e file = elim (parse_ledger_event schema e) [
    | err _ ↦ (file, false)
    | ok valid ↦
        if calls.bounded && calls.opened
        then write_record calls (format.print valid) file
        else (file, false)
  ]
