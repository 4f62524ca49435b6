-- ===== src/Scenarios.antt =====
-- Concrete controllers: one enabled cloud provider with prices and limits, and the calls on it that
-- the theorems are applied to.
pub mod Runs
mod Witnesses
mod Requests
mod Routes
mod Files
mod Jobs
mod Caches
use ikimetr.Prelude.{
  ℕ, ◌≡◌, refl, Bool, true, false, Option, none, some, List, [], ◌∷◌, Eq, ◌==◌, Text, text, text_Eq,
  text_eq, Result, ok, err,
}
use ikimetr.Prelude.Dict.{lookup, contains, insert}
use ikimetr.Money.{
  Money, assert_non_negative_safe_integer, safe_bigint_to_number, create_money, add_money, round_up,
  calculate_micros_for_tokens,
}
use ikimetr.Config.{
  ProviderConfig, RouteConfig, UsageLimits, BudgetLimits, PricingSnapshot, ConfigSnapshot,
  ProviderId, RiskClass, CapabilityId, DataClass, Route, InvocationMode, BudgetClass, PricingStatus,
  provider_id_index, provider_id_eq_iff, provider_id_Eq, risk_class_index, risk_class_eq_iff,
  risk_class_Eq, capability_id_index, capability_id_eq_iff, capability_id_Eq, data_class_index,
  data_class_eq_iff, data_class_Eq, route_index, route_eq_iff, route_Eq, provider_name,
}
use ikimetr.Pricing.{
  TokenUsage, ResolvedPricing, PricingRequest, PricingError, find_snapshot, is_known, is_unknown,
  complete, resolve_snapshot, resolve, charge, calculate_cost,
}
use ikimetr.LedgerEvents.{
  Schema, LedgerError, nullable, is_utc_timestamp, is_money, valid_attempt_started,
  valid_attempt_completed, valid_reservation, valid_settlement, valid_provider_health,
  valid_approval, valid_verification, valid_cache_event, valid_routing_decision, valid_event,
  parse_ledger_event, AttemptStatus, Disposition, HealthStatus, ApprovalDecision,
  VerificationCommand, VerificationResult, AttemptStarted, AttemptCompleted, BudgetReservation,
  BudgetSettlement, ProviderHealthEvent, ApprovalEvent, VerificationEvent, CacheAction,
  CacheNamespace, CacheState, CacheEvent, RoutingDecisionEvent, LedgerEvent, event_id,
  event_strings, is_identifier_char, is_identifier, is_reason_code, is_sha256_hex, ends_with_z,
  is_currency_code, is_safe,
}
use ikimetr.Budget.Usage.{
  BudgetUsage, BudgetTotals, BudgetStateError, has_delimiter, join, budget_scope_key, safe_add, bit,
  settlement_to_usage, merge_usage, add_usage, count_at, add_number, utc_day, utc_month, add_cloud,
  add_common, add_record_to_totals, create_empty_totals,
}
use ikimetr.Budget.Replay.{
  ReservationRecord, ReplayedBudgetState, is_local, expected_cost, validate_reservation, exceeds,
  computed_overrun, has_usage, same_bool, validate_disposition, validate_settlement, Replay,
  add_reservation, is_settled, apply_settlement, add_settlement, replay_event, replay_events,
  Summary, count_record, add_id, summarize_record, summarize, has_id, recovery_blocking, is_empty,
  empty_summary, empty_replay, derive_budget_state,
}
use ikimetr.Budget.Limits.{
  ErrorCode, BudgetError, Checked, fail, check_number_limit, check_money_limit, check_usage_limits,
  required_usage, check_scope, scope_key, check_provider_limits, check_cloud_limits,
  check_retry_limits, check_when, validate_candidate_limits,
}
use ikimetr.Budget.Prepare.{
  BudgetReservationRequest, Setup, BudgetController, PreparedReservation, assert_storage_ready,
  current_timestamp, class_routes, includes, is_automatic, is_model, validate_provider_request,
  check_admission, resolve_pricing, reservation_limits, reserved_usage, reservation_event,
  build_reservation, prepare_reservation,
}
use ikimetr.Budget.Controller.{
  BudgetSettlementRequest, BudgetReleaseRequest, BudgetQuoteRequest, AppendOutcome, duplicate,
  assert_unique_event_id, is_reservation_of, is_settlement_called, assert_unique_settlement_id,
  require_active_reservation, ledger_append, append_and_apply, run_prepared, returning,
  plan_reserve, reserve, pricing_from_reservation, settlement_usage, settlement_event,
  release_event, validated, plan_settle, plan_release, remove_id, append_settlement, settle,
  release, initialize_from, initialize,
}
use ikimetr.Budget.Controller.Steps.{Op, apply, run}

abbrev pub hash : Text
hash = text "aaaaaaaaaaaaaaaaaaaaaaaaaaaaaaaaaaaaaaaaaaaaaaaaaaaaaaaaaaaaaaaa"

abbrev pub usd : ℕ → Money
usd n = record { currency = text "USD"; amount_micros = n }

abbrev pub cloud_provider : ProviderConfig
cloud_provider = record {
  enabled = true;
  model = some (text "chat");
  invocation_mode = InvocationMode.automatic;
  allowed_data_classes = DataClass.public ∷ DataClass.internal ∷ [];
  allowed_risk_classes = RiskClass.low ∷ [];
  allowed_capabilities = CapabilityId.documentation ∷ [];
  max_input_tokens = some 1000;
  max_output_tokens = some 500;
  max_calls_per_task = some 2;
  max_cost_per_task = some (usd 10000);
  timeout_ms = some 1000;
  max_retries = some 1;
}

abbrev pub disabled_provider : ProviderConfig
disabled_provider = record cloud_provider { enabled = false }

abbrev pub demo_providers : ProviderId → ProviderConfig
demo_providers ProviderId.deepseek = cloud_provider
demo_providers _ = disabled_provider

abbrev pub demo_routes : Route → RouteConfig
demo_routes Route.cheap_cloud = record {
  providers = ProviderId.deepseek ∷ [];
  approval_required = false;
}
demo_routes _ = record { providers = []; approval_required = true }

abbrev pub limits : UsageLimits
limits = record {
  max_input_tokens = some 2000;
  max_output_tokens = some 1000;
  max_calls = some 2;
  max_cost = some (usd 20000);
}

abbrev pub demo_config : ConfigSnapshot
demo_config = record {
  config_hash = hash;
  policy_version = text "1.0.0";
  verification_hash = hash;
  routes = demo_routes;
  providers = demo_providers;
  budget_class = BudgetClass.cheap_allowed;
  limits = record {
    per_task = limits;
    provider_task = limits;
    cloud_calls_task = some 2;
    provider_day = limits;
    cloud_day = limits;
    provider_month = limits;
    cloud_month = limits;
    max_retries_per_task = some 1;
    max_retries_per_provider_task = some 1;
    local_wall_time = some 1000;
  };
  pricing_version = text "1.0.0";
  pricing_snapshots =
      record {
        provider = ProviderId.deepseek;
        model = some (text "chat");
        currency = some (text "USD");
        input_rate = some 2000000;
        output_rate = some 4000000;
        cache_read_rate = none;
        cache_write_rate = none;
        status = PricingStatus.known;
      }
      ∷ [];
}

abbrev pub demo : Setup
demo = record {
  config = demo_config;
  pricing = demo_config;
  schema = record { is_iso_datetime = λ t. true; is_secret_like = λ t. false };
}

abbrev pub clock : Option Text
clock = some (text "2026-01-02T03:04:05Z")

abbrev pub request : BudgetReservationRequest
request = record {
  event_id = text "e1";
  reservation_id = text "r1";
  task_id = text "t1";
  attempt_id = text "a1";
  provider = ProviderId.deepseek;
  model = text "chat";
  route = Route.cheap_cloud;
  data_class = DataClass.public;
  automatic = true;
  retry = false;
  estimated_input_tokens = 100;
}

abbrev pub booked : BudgetReservation
booked = record {
  event_id = text "e1";
  occurred_at = text "2026-01-02T03:04:05Z";
  reservation_id = text "r1";
  task_id = text "t1";
  attempt_id = text "a1";
  provider = ProviderId.deepseek;
  model = text "chat";
  route = Route.cheap_cloud;
  data_class = DataClass.public;
  automatic = true;
  cloud = true;
  retry = false;
  estimated_input_tokens = 100;
  reserved_output_tokens = 500;
  reserved_cost = usd 2200;
  reserved_local_wall_time_ms = 0;
  pricing_version = text "1.0.0";
  input_rate = 2000000;
  output_rate = 4000000;
  cache_read_rate = none;
  cache_write_rate = none;
  config_hash = hash;
}

abbrev pub state_of : Result BudgetStateError ReplayedBudgetState → ReplayedBudgetState
state_of (ok st) = st
state_of (err e) = record {
  active_reservations = [];
  recovery_blocking_ids = [];
  settled_ids = [];
  totals = create_empty_totals;
  discrepancy_circuit_open = false;
  automatic_calls_blocked = false;
}

-- A controller over a ledger file that it has just replayed.
unfoldable pub controller : List LedgerEvent → BudgetController
controller events = record {
  ledger = events;
  storage_failed = false;
  events = events;
  recovered_ids = [];
  state = state_of (derive_budget_state events (some []));
}

abbrev pub settling : ℕ → BudgetSettlementRequest
settling n = record {
  event_id = text "e2";
  settlement_id = text "s1";
  reservation_id = text "r1";
  actual_input_tokens = n;
  actual_output_tokens = 10;
  cache_read_tokens = 0;
  cache_write_tokens = 0;
  actual_local_wall_time_ms = 0;
  reason_code = text "done";
}

abbrev pub releasing : BudgetReleaseRequest
releasing = record {
  event_id = text "e2";
  settlement_id = text "s1";
  reservation_id = text "r1";
  reason_code = text "cancelled";
}

abbrev pub booking : LedgerEvent
booking = LedgerEvent.budget_reservation booked

abbrev pub settlement : BudgetSettlement
settlement = record {
  event_id = text "e2";
  occurred_at = text "2026-01-02T03:04:05Z";
  settlement_id = text "s1";
  reservation_id = text "r1";
  task_id = text "t1";
  attempt_id = text "a1";
  provider = ProviderId.deepseek;
  disposition = Disposition.settled;
  actual_input_tokens = 50;
  actual_output_tokens = 10;
  cache_read_tokens = 0;
  cache_write_tokens = 0;
  actual_cost = usd 140;
  actual_local_wall_time_ms = 0;
  overrun = false;
  reason_code = text "done";
}

-- More input tokens than were reserved.
abbrev pub overrun : BudgetSettlement
overrun = record settlement { actual_input_tokens = 150; actual_cost = usd 340; overrun = true }

abbrev pub release_record : BudgetSettlement
release_record = record settlement {
  disposition = Disposition.released;
  actual_input_tokens = 0;
  actual_output_tokens = 0;
  actual_cost = usd 0;
  reason_code = text "cancelled";
}

-- The controller that starts on a ledger with one open reservation.
unfoldable pub restarted : BudgetController
restarted = record {
  ledger = booking ∷ [];
  storage_failed = false;
  events = booking ∷ [];
  recovered_ids = text "r1" ∷ [];
  state = state_of (derive_budget_state (booking ∷ []) (some (text "r1" ∷ [])));
}
