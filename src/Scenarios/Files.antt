-- ===== src/Scenarios/Files.antt =====
-- The theorems on the file of the ledger, applied to a file with one event. A line is the name of its
-- event here.
use ikimetr.Prelude.{
  ◌≡◌, refl, ◌⊎◌, true, none, some, List, [], ◌∷◌, ◌++◌, Text, text, text_Eq, text_eq, ok, err,
}
use ikimetr.Config.{ProviderId}
use ikimetr.LedgerEvents.{
  HealthStatus, LedgerEvent, event_id, parse_ledger_event, valid_event, valid_provider_health,
  event_strings, is_identifier, is_reason_code, is_sha256_hex, ends_with_z,
}
use ikimetr.AccountingLedger.{
  newline, LineFormat, Printable, ReplayError, nothing_seen, reject_duplicate, see_kind, see_event,
  read_event, read_lines, read_source, split_lines, replay, AppendCalls, write_all, write_record,
  append,
}
use ikimetr.AccountingLedger.Reading.{ids_after, Fresh}
use ikimetr.AccountingLedger.Writing.{append-replay, append-failed}
use ikimetr.Scenarios.{demo}

abbrev probe : Text → LedgerEvent
probe id = LedgerEvent.provider_health (record {
  event_id = id;
  occurred_at = text "2026-01-02T03:04:05Z";
  provider = ProviderId.deepseek;
  model = text "chat";
  status = HealthStatus.healthy;
  latency_ms = none;
  reason_code = text "probe";
})

abbrev names : LineFormat
names = record { print = event_id; parse = λ line. some (probe line) }

abbrev first_file : Text
first_file = text "e1" ++ newline ∷ []

abbrev one_event : List LedgerEvent
one_event = probe (text "e1") ∷ []

first_ok : replay demo.schema names true (some first_file) ≡ ok one_event
unfolding replay read_source read_lines read_event see_event see_kind reject_duplicate split_lines
    parse_ledger_event valid_event valid_provider_health event_strings is_identifier is_reason_code
    is_sha256_hex ends_with_z text_eq
first_ok = refl

second_Printable : Printable names (probe (text "e2"))
second_Printable = record { one_line = refl; some_text = (b'e', text "2", refl); read_back = refl }

second_Fresh : Fresh (ids_after nothing_seen one_event) (probe (text "e2"))
unfolding ids_after text_eq
second_Fresh = record { event = refl; reservation = refl; settlement = refl; approval = refl }

-- Two writes, of one character and of the rest.
abbrev in_two : AppendCalls
in_two = record { bounded = true; opened = true; writes = some 1 ∷ some 2 ∷ []; synced = true }

-- The process ends after the first of them.
abbrev cut_off : AppendCalls
cut_off = record { bounded = true; opened = true; writes = some 1 ∷ []; synced = true }

append-replay_example :
    replay demo.schema names true
      (some (append demo.schema names in_two (probe (text "e2")) first_file).0)
    ≡ ok (probe (text "e1") ∷ probe (text "e2") ∷ [])
unfolding append write_record write_all parse_ledger_event valid_event valid_provider_health
    event_strings is_identifier is_reason_code is_sha256_hex ends_with_z text_eq
append-replay_example =
    append-replay demo.schema names (probe (text "e2")) first_file one_event first_ok
      second_Printable second_Fresh in_two refl

append-failed_example :
    (replay demo.schema names true
        (some (append demo.schema names cut_off (probe (text "e2")) first_file).0)
      ≡ ok one_event)
    ⊎ ((replay demo.schema names true
            (some (append demo.schema names cut_off (probe (text "e2")) first_file).0)
          ≡ ok (one_event ++ probe (text "e2") ∷ []))
        ⊎ (replay demo.schema names true
              (some (append demo.schema names cut_off (probe (text "e2")) first_file).0)
            ≡ err ReplayError.partial_record))
unfolding append write_record write_all parse_ledger_event valid_event valid_provider_health
    event_strings is_identifier is_reason_code is_sha256_hex ends_with_z text_eq
append-failed_example =
    append-failed demo.schema names (probe (text "e2")) first_file one_event first_ok
      second_Printable second_Fresh cut_off refl
