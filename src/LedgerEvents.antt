-- ===== src/LedgerEvents.antt =====
-- The events of the accounting ledger and their strict validation:
-- packages/ai-cost-system/src/ledger-events.ts. The schema library's date-time format and the
-- secret patterns of json.ts are the parameters of `parse_ledger_event`.
mod Types
mod Formats
unfoldable pub use Types.*
unfoldable pub use Formats.*
use ikimetr.Prelude.{
  Bool, true, ◌&&◌, Option, none, some, List, any, Text, not, Result, ok, err, ◌>>=◌, ◌>>◌,
  throw_if,
}
use ikimetr.Money.{Money}

-- `z.iso.datetime()` of zod, and whether a string matches a pattern of json.ts for secrets.
pub record Schema : Type 0 where
  pub is_iso_datetime : Text → Bool
  pub is_secret_like : Text → Bool

pub data LedgerError : Type 0 where
  secret_like invalid_event duplicate_id : LedgerError

-- `schema.nullable()`
abbrev pub nullable : {A : Type 0} → (A → Bool) → Option A → Bool
nullable p none = true
nullable p (some a) = p a

abbrev pub is_utc_timestamp : Schema → Text → Bool
is_utc_timestamp schema t = schema.is_iso_datetime t && ends_with_z t

abbrev pub is_money : Money → Bool
is_money m = is_currency_code m.currency && is_safe m.amount_micros

unfoldable pub valid_attempt_started : Schema → AttemptStarted → Bool
valid_attempt_started schema e =
    is_identifier e.event_id
    && is_utc_timestamp schema e.occurred_at
    && is_identifier e.task_id
    && is_identifier e.attempt_id
    && nullable is_identifier e.parent_attempt_id
    && nullable is_identifier e.model
    && is_reason_code e.purpose
    && is_sha256_hex e.request_fingerprint
    && is_sha256_hex e.input_hash
    && is_identifier e.prompt_version
    && is_sha256_hex e.config_hash
    && is_identifier e.pricing_version
    && nullable is_money e.estimated_cost

unfoldable pub valid_attempt_completed : Schema → AttemptCompleted → Bool
valid_attempt_completed schema e =
    is_identifier e.event_id
    && is_utc_timestamp schema e.occurred_at
    && is_identifier e.task_id
    && is_identifier e.attempt_id
    && is_safe e.input_tokens
    && is_safe e.output_tokens
    && nullable is_money e.actual_cost
    && is_safe e.latency_ms
    && nullable is_sha256_hex e.result_hash
    && nullable is_sha256_hex e.patch_hash
    && nullable is_sha256_hex e.error_fingerprint
    && nullable is_reason_code e.verification_result
    && nullable is_reason_code e.escalation_reason

unfoldable pub valid_reservation : Schema → BudgetReservation → Bool
valid_reservation schema e =
    is_identifier e.event_id
    && is_utc_timestamp schema e.occurred_at
    && is_identifier e.reservation_id
    && is_identifier e.task_id
    && is_identifier e.attempt_id
    && is_identifier e.model
    && is_safe e.estimated_input_tokens
    && is_safe e.reserved_output_tokens
    && is_money e.reserved_cost
    && is_safe e.reserved_local_wall_time_ms
    && is_identifier e.pricing_version
    && is_safe e.input_rate
    && is_safe e.output_rate
    && nullable is_safe e.cache_read_rate
    && nullable is_safe e.cache_write_rate
    && is_sha256_hex e.config_hash

unfoldable pub valid_settlement : Schema → BudgetSettlement → Bool
valid_settlement schema e =
    is_identifier e.event_id
    && is_utc_timestamp schema e.occurred_at
    && is_identifier e.settlement_id
    && is_identifier e.reservation_id
    && is_identifier e.task_id
    && is_identifier e.attempt_id
    && is_safe e.actual_input_tokens
    && is_safe e.actual_output_tokens
    && is_safe e.cache_read_tokens
    && is_safe e.cache_write_tokens
    && is_money e.actual_cost
    && is_safe e.actual_local_wall_time_ms
    && is_reason_code e.reason_code

unfoldable pub valid_provider_health : Schema → ProviderHealthEvent → Bool
valid_provider_health schema e =
    is_identifier e.event_id
    && is_utc_timestamp schema e.occurred_at
    && is_identifier e.model
    && nullable is_safe e.latency_ms
    && is_reason_code e.reason_code

unfoldable pub valid_approval : Schema → ApprovalEvent → Bool
valid_approval schema e =
    is_identifier e.event_id
    && is_utc_timestamp schema e.occurred_at
    && is_identifier e.approval_id
    && is_identifier e.task_id
    && is_reason_code e.scope
    && is_sha256_hex e.approver_hash
    && is_reason_code e.reason_code

unfoldable pub valid_verification : Schema → VerificationEvent → Bool
valid_verification schema e =
    is_identifier e.event_id
    && is_utc_timestamp schema e.occurred_at
    && is_identifier e.attempt_id
    && is_sha256_hex e.evidence_hash
    && is_safe e.duration_ms

unfoldable pub valid_cache_event : Schema → CacheEvent → Bool
valid_cache_event schema e =
    is_identifier e.event_id
    && is_utc_timestamp schema e.occurred_at
    && is_sha256_hex e.cache_key
    && nullable is_sha256_hex e.entry_hash
    && nullable is_sha256_hex e.result_hash
    && nullable is_reason_code e.reason_code

unfoldable pub valid_routing_decision : Schema → RoutingDecisionEvent → Bool
valid_routing_decision schema e =
    is_identifier e.event_id
    && is_utc_timestamp schema e.occurred_at
    && is_identifier e.task_id
    && is_sha256_hex e.request_hash
    && is_sha256_hex e.decision_hash
    && is_sha256_hex e.config_hash
    && is_sha256_hex e.transition_trace_hash

unfoldable pub valid_event : Schema → LedgerEvent → Bool
valid_event schema (LedgerEvent.attempt_started e) = valid_attempt_started schema e
valid_event schema (LedgerEvent.attempt_completed e) = valid_attempt_completed schema e
valid_event schema (LedgerEvent.budget_reservation e) = valid_reservation schema e
valid_event schema (LedgerEvent.budget_settlement e) = valid_settlement schema e
valid_event schema (LedgerEvent.provider_health e) = valid_provider_health schema e
valid_event schema (LedgerEvent.approval e) = valid_approval schema e
valid_event schema (LedgerEvent.verification e) = valid_verification schema e
valid_event schema (LedgerEvent.cache e) = valid_cache_event schema e
valid_event schema (LedgerEvent.routing_decision e) = valid_routing_decision schema e

-- `parseLedgerEvent`: the event itself, or the refusal.
unfoldable pub parse_ledger_event : Schema → LedgerEvent → Result LedgerError LedgerEvent
parse_ledger_event schema event = do
  throw_if (any schema.is_secret_like (event_strings event)) LedgerError.secret_like
  throw_if (not (valid_event schema event)) LedgerError.invalid_event
  ok event
