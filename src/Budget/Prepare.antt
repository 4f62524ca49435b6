-- ===== src/Budget/Prepare.antt =====
-- budget.ts: requests, the checks of a request against the configuration, and the reservation
-- event that a request would add (`prepareReservation`). The clock is an argument: `none` is an
-- invalid date.
use ikimetr.Prelude.{
  ℕ, Bool, true, false, ◌&&◌, not, Option, none, some, List, [], ◌∷◌, ◌++◌, if◌then◌else◌, Eq, ◌==◌,
  any, Text, text_Eq, Result, ok, ◌>>=◌, ◌>>◌, throw_if, map_err,
}
use ikimetr.Config.{
  ProviderId, provider_id_Eq, DataClass, data_class_Eq, Route, route_Eq, InvocationMode,
  BudgetClass, ProviderConfig, ConfigSnapshot,
}
use ikimetr.Money.{Money}
use ikimetr.Pricing.{TokenUsage, ResolvedPricing, resolve, calculate_cost}
use ikimetr.LedgerEvents.{BudgetReservation, LedgerEvent, Schema, parse_ledger_event}
use ikimetr.Budget.Replay.{ReplayedBudgetState, is_local, is_empty, derive_budget_state}
use ikimetr.Budget.Limits.{ErrorCode, BudgetError, Checked, fail, validate_candidate_limits}

pub record BudgetReservationRequest : Type 0 where
  pub event_id : Text
  pub reservation_id : Text
  pub task_id : Text
  pub attempt_id : Text
  pub provider : ProviderId
  pub model : Text
  pub route : Route
  pub data_class : DataClass
  pub automatic : Bool
  pub retry : Bool
  pub estimated_input_tokens : ℕ

-- What a controller is built over, and does not change: the configuration, the snapshot that the
-- pricing resolver holds, and the event schema.
pub record Setup : Type 0 where
  pub config : ConfigSnapshot
  pub pricing : ConfigSnapshot
  pub schema : Schema

-- `ledger` holds the records that the ledger file has.
pub record BudgetController : Type 0 where
  pub ledger : List LedgerEvent
  pub storage_failed : Bool
  pub events : List LedgerEvent
  pub recovered_ids : List Text
  pub state : ReplayedBudgetState

pub record PreparedReservation : Type 0 where
  pub reservation : BudgetReservation
  pub candidate_events : List LedgerEvent
  pub candidate_state : ReplayedBudgetState

unfoldable pub assert_storage_ready : BudgetController → Checked
assert_storage_ready c =
    throw_if c.storage_failed (BudgetError.controller_error ErrorCode.storage_failure)

unfoldable pub current_timestamp : Option Text → Result BudgetError Text
current_timestamp none = fail ErrorCode.invalid_request
current_timestamp (some t) = ok t

-- The routes that each budget class allows.
abbrev pub class_routes : BudgetClass → List Route
class_routes BudgetClass.none = []
class_routes BudgetClass.local_only = Route.local ∷ []
class_routes BudgetClass.cheap_allowed = Route.local ∷ Route.cheap_cloud ∷ []
class_routes BudgetClass.strong_allowed = Route.local ∷ Route.cheap_cloud ∷ Route.strong ∷ []
class_routes BudgetClass.incident_override = Route.local ∷ Route.cheap_cloud ∷ Route.strong ∷ []

-- `list.includes(value)`
abbrev pub includes {ℓ} : {A : Type ℓ} ⦃e : Eq A⦄ → A → List A → Bool
includes a xs = any (λ x. x == a) xs

abbrev pub is_automatic : InvocationMode → Bool
is_automatic InvocationMode.automatic = true
is_automatic InvocationMode.manual_handoff = false

-- `provider.model === model`, for a nullable model
abbrev pub is_model : Option Text → Text → Bool
is_model none model = false
is_model (some m) model = m == model

unfoldable pub validate_provider_request :
    ConfigSnapshot → BudgetReservationRequest → ProviderConfig → Checked
validate_provider_request config request provider = do
  throw_if (not (includes request.provider (config.routes request.route).providers))
      (BudgetError.controller_error ErrorCode.invalid_request)
  throw_if (not (includes request.data_class provider.allowed_data_classes))
      (BudgetError.controller_error ErrorCode.invalid_request)
  throw_if (request.automatic && not (is_automatic provider.invocation_mode))
      (BudgetError.controller_error ErrorCode.invalid_request)
  throw_if (not (is_model provider.model request.model))
      (BudgetError.controller_error ErrorCode.invalid_request)
  throw_if (not (includes request.route (class_routes config.budget_class)))
      (BudgetError.controller_error ErrorCode.not_configured)

-- The guards of `prepareReservation` before the price is resolved.
unfoldable pub check_admission : Setup → BudgetController → BudgetReservationRequest → Checked
unfolding assert_storage_ready
check_admission setup c request = do
  assert_storage_ready c
  throw_if (request.automatic && c.state.discrepancy_circuit_open)
      (BudgetError.controller_error ErrorCode.discrepancy_block)
  throw_if (request.automatic && not (is_empty c.state.recovery_blocking_ids))
      (BudgetError.controller_error ErrorCode.recovery_required)
  throw_if (not (setup.config.providers request.provider).enabled)
      (BudgetError.controller_error ErrorCode.provider_disabled)
  validate_provider_request setup.config request (setup.config.providers request.provider)

unfoldable pub resolve_pricing :
    Setup → BudgetReservationRequest → Result BudgetError ResolvedPricing
resolve_pricing setup request =
    map_err (λ _. BudgetError.controller_error ErrorCode.not_configured)
      (resolve setup.pricing (record {
        provider = request.provider;
        model = request.model;
        automatic = request.automatic;
        cloud = not (is_local request.provider);
      }))

-- `maxOutputTokens` and `timeoutMs`, neither of which may be null
unfoldable pub reservation_limits : Option ℕ → Option ℕ → Result BudgetError (ℕ × ℕ)
reservation_limits (some output) (some timeout) = ok (output, timeout)
reservation_limits _ _ = fail ErrorCode.not_configured

unfoldable pub reserved_usage : BudgetReservationRequest → ℕ → TokenUsage
reserved_usage request output = record {
  input_tokens = request.estimated_input_tokens;
  output_tokens = output;
  cache_read_tokens = 0;
  cache_write_tokens = 0;
}

unfoldable pub reservation_event :
    Setup → BudgetReservationRequest → ResolvedPricing → ℕ → ℕ → Money → Text → BudgetReservation
reservation_event setup request pricing output wall_time cost now = record {
  event_id = request.event_id;
  occurred_at = now;
  reservation_id = request.reservation_id;
  task_id = request.task_id;
  attempt_id = request.attempt_id;
  provider = request.provider;
  model = request.model;
  route = request.route;
  data_class = request.data_class;
  automatic = request.automatic;
  cloud = not (is_local request.provider);
  retry = request.retry;
  estimated_input_tokens = request.estimated_input_tokens;
  reserved_output_tokens = output;
  reserved_cost = cost;
  reserved_local_wall_time_ms = wall_time;
  pricing_version = pricing.pricing_version;
  input_rate = pricing.input_rate;
  output_rate = pricing.output_rate;
  cache_read_rate = pricing.cache_read_rate;
  cache_write_rate = pricing.cache_write_rate;
  config_hash = setup.config.config_hash;
}

-- From the price to the validated event.
unfoldable pub build_reservation :
    Setup → Option Text → BudgetReservationRequest → Result BudgetError BudgetReservation
build_reservation setup now request = do
  pricing ← resolve_pricing setup request
  let provider = setup.config.providers request.provider
  limits ← reservation_limits provider.max_output_tokens provider.timeout_ms
  cost ←
      map_err (λ _. BudgetError.controller_error ErrorCode.invalid_request)
        (calculate_cost pricing (reserved_usage request limits.0))
  timestamp ← current_timestamp now
  let event =
      reservation_event setup request pricing limits.0
        (if is_local request.provider then limits.1 else 0) cost timestamp
  _ ←
      map_err BudgetError.event_error
        (parse_ledger_event setup.schema (LedgerEvent.budget_reservation event))
  ok event

unfoldable pub prepare_reservation :
    Setup
    → Option Text
    → BudgetReservationRequest
    → BudgetController
    → Result BudgetError PreparedReservation
unfolding check_admission build_reservation
prepare_reservation setup now request c = do
  check_admission setup c request
  event ← build_reservation setup now request
  let candidate_events = c.events ++ LedgerEvent.budget_reservation event ∷ []
  candidate ←
      map_err BudgetError.state_error (derive_budget_state candidate_events (some c.recovered_ids))
  validate_candidate_limits setup.config event (setup.config.providers request.provider)
      candidate.totals
  ok (record {
    reservation = event;
    candidate_events = candidate_events;
    candidate_state = candidate;
  })
