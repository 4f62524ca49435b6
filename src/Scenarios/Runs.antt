-- ===== src/Scenarios/Runs.antt =====
-- The runs of the concrete controllers.
use ikimetr.Prelude.{true, text, none, ◌≡◌, refl, false, some, [], ◌∷◌, text_Eq, text_eq, ok}
use ikimetr.Prelude.Dict.{lookup, contains, insert}
use ikimetr.Money.{
  assert_non_negative_safe_integer, safe_bigint_to_number, create_money, add_money, round_up,
  calculate_micros_for_tokens,
}
use ikimetr.Config.{provider_id_Eq, risk_class_Eq, capability_id_Eq, data_class_Eq, route_Eq}
use ikimetr.Pricing.{find_snapshot, resolve_snapshot, resolve, charge, calculate_cost}
use ikimetr.LedgerEvents.{
  valid_reservation, valid_settlement, valid_event, parse_ledger_event, LedgerEvent, event_strings,
  is_identifier, is_reason_code, is_sha256_hex, ends_with_z,
}
use ikimetr.Budget.Usage.{
  join, budget_scope_key, safe_add, settlement_to_usage, merge_usage, add_usage, add_number,
  add_cloud, add_common, add_record_to_totals, create_empty_totals,
}
use ikimetr.Budget.Replay.{
  Summary, expected_cost, validate_reservation, exceeds, computed_overrun, has_usage,
  validate_disposition, validate_settlement, add_reservation, apply_settlement, add_settlement,
  replay_event, replay_events, count_record, summarize_record, summarize, recovery_blocking,
  empty_summary, empty_replay, derive_budget_state,
}
use ikimetr.Budget.Limits.{
  check_number_limit, check_money_limit, check_usage_limits, required_usage, check_scope,
  check_provider_limits, check_cloud_limits, check_retry_limits, validate_candidate_limits,
}
use ikimetr.Budget.Prepare.{
  assert_storage_ready, current_timestamp, validate_provider_request, check_admission,
  resolve_pricing, reservation_limits, reserved_usage, reservation_event, build_reservation,
  prepare_reservation,
}
use ikimetr.Budget.Controller.{
  AppendOutcome, assert_unique_event_id, assert_unique_settlement_id, require_active_reservation,
  ledger_append, append_and_apply, plan_reserve, reserve, pricing_from_reservation,
  settlement_usage, settlement_event, release_event, validated, plan_settle, plan_release,
  append_settlement, settle, release, initialize_from, initialize,
}
use ikimetr.Budget.Spec.{records_of}
use ikimetr.Config.{ProviderId, Route, DataClass}
use ikimetr.Budget.Controller.{BudgetQuoteRequest}
use ikimetr.Budget.Controller.Quote.{
  QuoteHash, BudgetQuoteResult, quote, quote_of, quote_internal, quote_request,
}
use ikimetr.Scenarios.{
  demo, clock, request, booked, controller, settling, releasing, booking, settlement, overrun,
  release_record, restarted,
}

-- A request that is within the limits is made.
pub booked_ok : (reserve demo clock AppendOutcome.appended request (controller [])).1 ≡ ok booked
unfolding assert_non_negative_safe_integer safe_bigint_to_number create_money add_money round_up
    calculate_micros_for_tokens find_snapshot resolve_snapshot resolve charge calculate_cost
    valid_reservation valid_settlement valid_event parse_ledger_event event_strings is_identifier
    is_reason_code is_sha256_hex ends_with_z join budget_scope_key safe_add settlement_to_usage
    merge_usage add_usage add_number add_cloud add_common add_record_to_totals create_empty_totals
    expected_cost validate_reservation exceeds computed_overrun has_usage validate_disposition
    validate_settlement add_reservation apply_settlement add_settlement replay_event replay_events
    count_record summarize_record summarize recovery_blocking empty_summary empty_replay
    derive_budget_state check_number_limit check_money_limit check_usage_limits required_usage
    check_scope check_provider_limits check_cloud_limits check_retry_limits
    validate_candidate_limits assert_storage_ready current_timestamp validate_provider_request
    check_admission resolve_pricing reservation_limits reserved_usage reservation_event
    build_reservation prepare_reservation assert_unique_event_id assert_unique_settlement_id
    require_active_reservation ledger_append append_and_apply plan_reserve reserve
    pricing_from_reservation settlement_usage settlement_event release_event validated plan_settle
    plan_release append_settlement settle release initialize_from initialize lookup contains insert
    controller text_eq
booked_ok = refl

-- A settlement within the reservation.
pub settled_ok :
    (settle demo clock AppendOutcome.appended (settling 50) (controller (booking ∷ []))).1
    ≡ ok settlement
unfolding assert_non_negative_safe_integer safe_bigint_to_number create_money add_money round_up
    calculate_micros_for_tokens find_snapshot resolve_snapshot resolve charge calculate_cost
    valid_reservation valid_settlement valid_event parse_ledger_event event_strings is_identifier
    is_reason_code is_sha256_hex ends_with_z join budget_scope_key safe_add settlement_to_usage
    merge_usage add_usage add_number add_cloud add_common add_record_to_totals create_empty_totals
    expected_cost validate_reservation exceeds computed_overrun has_usage validate_disposition
    validate_settlement add_reservation apply_settlement add_settlement replay_event replay_events
    count_record summarize_record summarize recovery_blocking empty_summary empty_replay
    derive_budget_state check_number_limit check_money_limit check_usage_limits required_usage
    check_scope check_provider_limits check_cloud_limits check_retry_limits
    validate_candidate_limits assert_storage_ready current_timestamp validate_provider_request
    check_admission resolve_pricing reservation_limits reserved_usage reservation_event
    build_reservation prepare_reservation assert_unique_event_id assert_unique_settlement_id
    require_active_reservation ledger_append append_and_apply plan_reserve reserve
    pricing_from_reservation settlement_usage settlement_event release_event validated plan_settle
    plan_release append_settlement settle release initialize_from initialize lookup contains insert
    controller text_eq
settled_ok = refl

-- A settlement beyond it.
pub overrun_ok :
    (settle demo clock AppendOutcome.appended (settling 150) (controller (booking ∷ []))).1
    ≡ ok overrun
unfolding assert_non_negative_safe_integer safe_bigint_to_number create_money add_money round_up
    calculate_micros_for_tokens find_snapshot resolve_snapshot resolve charge calculate_cost
    valid_reservation valid_settlement valid_event parse_ledger_event event_strings is_identifier
    is_reason_code is_sha256_hex ends_with_z join budget_scope_key safe_add settlement_to_usage
    merge_usage add_usage add_number add_cloud add_common add_record_to_totals create_empty_totals
    expected_cost validate_reservation exceeds computed_overrun has_usage validate_disposition
    validate_settlement add_reservation apply_settlement add_settlement replay_event replay_events
    count_record summarize_record summarize recovery_blocking empty_summary empty_replay
    derive_budget_state check_number_limit check_money_limit check_usage_limits required_usage
    check_scope check_provider_limits check_cloud_limits check_retry_limits
    validate_candidate_limits assert_storage_ready current_timestamp validate_provider_request
    check_admission resolve_pricing reservation_limits reserved_usage reservation_event
    build_reservation prepare_reservation assert_unique_event_id assert_unique_settlement_id
    require_active_reservation ledger_append append_and_apply plan_reserve reserve
    pricing_from_reservation settlement_usage settlement_event release_event validated plan_settle
    plan_release append_settlement settle release initialize_from initialize lookup contains insert
    controller text_eq
overrun_ok = refl

-- The store is ready afterwards.
pub settled_storage :
    (settle demo clock AppendOutcome.appended
      (settling 50)
      (controller (booking ∷ []))).0.storage_failed
    ≡ false
unfolding assert_non_negative_safe_integer safe_bigint_to_number create_money add_money round_up
    calculate_micros_for_tokens find_snapshot resolve_snapshot resolve charge calculate_cost
    valid_reservation valid_settlement valid_event parse_ledger_event event_strings is_identifier
    is_reason_code is_sha256_hex ends_with_z join budget_scope_key safe_add settlement_to_usage
    merge_usage add_usage add_number add_cloud add_common add_record_to_totals create_empty_totals
    expected_cost validate_reservation exceeds computed_overrun has_usage validate_disposition
    validate_settlement add_reservation apply_settlement add_settlement replay_event replay_events
    count_record summarize_record summarize recovery_blocking empty_summary empty_replay
    derive_budget_state check_number_limit check_money_limit check_usage_limits required_usage
    check_scope check_provider_limits check_cloud_limits check_retry_limits
    validate_candidate_limits assert_storage_ready current_timestamp validate_provider_request
    check_admission resolve_pricing reservation_limits reserved_usage reservation_event
    build_reservation prepare_reservation assert_unique_event_id assert_unique_settlement_id
    require_active_reservation ledger_append append_and_apply plan_reserve reserve
    pricing_from_reservation settlement_usage settlement_event release_event validated plan_settle
    plan_release append_settlement settle release initialize_from initialize lookup contains insert
    controller text_eq
settled_storage = refl

-- A release.
pub released_ok :
    (release demo clock AppendOutcome.appended releasing (controller (booking ∷ []))).1
    ≡ ok release_record
unfolding assert_non_negative_safe_integer safe_bigint_to_number create_money add_money round_up
    calculate_micros_for_tokens find_snapshot resolve_snapshot resolve charge calculate_cost
    valid_reservation valid_settlement valid_event parse_ledger_event event_strings is_identifier
    is_reason_code is_sha256_hex ends_with_z join budget_scope_key safe_add settlement_to_usage
    merge_usage add_usage add_number add_cloud add_common add_record_to_totals create_empty_totals
    expected_cost validate_reservation exceeds computed_overrun has_usage validate_disposition
    validate_settlement add_reservation apply_settlement add_settlement replay_event replay_events
    count_record summarize_record summarize recovery_blocking empty_summary empty_replay
    derive_budget_state check_number_limit check_money_limit check_usage_limits required_usage
    check_scope check_provider_limits check_cloud_limits check_retry_limits
    validate_candidate_limits assert_storage_ready current_timestamp validate_provider_request
    check_admission resolve_pricing reservation_limits reserved_usage reservation_event
    build_reservation prepare_reservation assert_unique_event_id assert_unique_settlement_id
    require_active_reservation ledger_append append_and_apply plan_reserve reserve
    pricing_from_reservation settlement_usage settlement_event release_event validated plan_settle
    plan_release append_settlement settle release initialize_from initialize lookup contains insert
    controller text_eq
released_ok = refl

-- The states of the controllers.
pub derived_empty : derive_budget_state [] (some []) ≡ ok (controller []).state
unfolding assert_non_negative_safe_integer safe_bigint_to_number create_money add_money round_up
    calculate_micros_for_tokens find_snapshot resolve_snapshot resolve charge calculate_cost
    valid_reservation valid_settlement valid_event parse_ledger_event event_strings is_identifier
    is_reason_code is_sha256_hex ends_with_z join budget_scope_key safe_add settlement_to_usage
    merge_usage add_usage add_number add_cloud add_common add_record_to_totals create_empty_totals
    expected_cost validate_reservation exceeds computed_overrun has_usage validate_disposition
    validate_settlement add_reservation apply_settlement add_settlement replay_event replay_events
    count_record summarize_record summarize recovery_blocking empty_summary empty_replay
    derive_budget_state check_number_limit check_money_limit check_usage_limits required_usage
    check_scope check_provider_limits check_cloud_limits check_retry_limits
    validate_candidate_limits assert_storage_ready current_timestamp validate_provider_request
    check_admission resolve_pricing reservation_limits reserved_usage reservation_event
    build_reservation prepare_reservation assert_unique_event_id assert_unique_settlement_id
    require_active_reservation ledger_append append_and_apply plan_reserve reserve
    pricing_from_reservation settlement_usage settlement_event release_event validated plan_settle
    plan_release append_settlement settle release initialize_from initialize lookup contains insert
    controller text_eq
derived_empty = refl

pub derived_booking :
    derive_budget_state (booking ∷ []) (some []) ≡ ok (controller (booking ∷ [])).state
unfolding assert_non_negative_safe_integer safe_bigint_to_number create_money add_money round_up
    calculate_micros_for_tokens find_snapshot resolve_snapshot resolve charge calculate_cost
    valid_reservation valid_settlement valid_event parse_ledger_event event_strings is_identifier
    is_reason_code is_sha256_hex ends_with_z join budget_scope_key safe_add settlement_to_usage
    merge_usage add_usage add_number add_cloud add_common add_record_to_totals create_empty_totals
    expected_cost validate_reservation exceeds computed_overrun has_usage validate_disposition
    validate_settlement add_reservation apply_settlement add_settlement replay_event replay_events
    count_record summarize_record summarize recovery_blocking empty_summary empty_replay
    derive_budget_state check_number_limit check_money_limit check_usage_limits required_usage
    check_scope check_provider_limits check_cloud_limits check_retry_limits
    validate_candidate_limits assert_storage_ready current_timestamp validate_provider_request
    check_admission resolve_pricing reservation_limits reserved_usage reservation_event
    build_reservation prepare_reservation assert_unique_event_id assert_unique_settlement_id
    require_active_reservation ledger_append append_and_apply plan_reserve reserve
    pricing_from_reservation settlement_usage settlement_event release_event validated plan_settle
    plan_release append_settlement settle release initialize_from initialize lookup contains insert
    controller text_eq
derived_booking = refl

pub derived_overrun :
    derive_budget_state (booking ∷ LedgerEvent.budget_settlement overrun ∷ []) (some [])
    ≡ ok (controller (booking ∷ LedgerEvent.budget_settlement overrun ∷ [])).state
unfolding assert_non_negative_safe_integer safe_bigint_to_number create_money add_money round_up
    calculate_micros_for_tokens find_snapshot resolve_snapshot resolve charge calculate_cost
    valid_reservation valid_settlement valid_event parse_ledger_event event_strings is_identifier
    is_reason_code is_sha256_hex ends_with_z join budget_scope_key safe_add settlement_to_usage
    merge_usage add_usage add_number add_cloud add_common add_record_to_totals create_empty_totals
    expected_cost validate_reservation exceeds computed_overrun has_usage validate_disposition
    validate_settlement add_reservation apply_settlement add_settlement replay_event replay_events
    count_record summarize_record summarize recovery_blocking empty_summary empty_replay
    derive_budget_state check_number_limit check_money_limit check_usage_limits required_usage
    check_scope check_provider_limits check_cloud_limits check_retry_limits
    validate_candidate_limits assert_storage_ready current_timestamp validate_provider_request
    check_admission resolve_pricing reservation_limits reserved_usage reservation_event
    build_reservation prepare_reservation assert_unique_event_id assert_unique_settlement_id
    require_active_reservation ledger_append append_and_apply plan_reserve reserve
    pricing_from_reservation settlement_usage settlement_event release_event validated plan_settle
    plan_release append_settlement settle release initialize_from initialize lookup contains insert
    controller text_eq
derived_overrun = refl

pub restarted_ok : initialize demo (some (booking ∷ [])) ≡ ok restarted
unfolding assert_non_negative_safe_integer safe_bigint_to_number create_money add_money round_up
    calculate_micros_for_tokens find_snapshot resolve_snapshot resolve charge calculate_cost
    valid_reservation valid_settlement valid_event parse_ledger_event event_strings is_identifier
    is_reason_code is_sha256_hex ends_with_z join budget_scope_key safe_add settlement_to_usage
    merge_usage add_usage add_number add_cloud add_common add_record_to_totals create_empty_totals
    expected_cost validate_reservation exceeds computed_overrun has_usage validate_disposition
    validate_settlement add_reservation apply_settlement add_settlement replay_event replay_events
    count_record summarize_record summarize recovery_blocking empty_summary empty_replay
    derive_budget_state check_number_limit check_money_limit check_usage_limits required_usage
    check_scope check_provider_limits check_cloud_limits check_retry_limits
    validate_candidate_limits assert_storage_ready current_timestamp validate_provider_request
    check_admission resolve_pricing reservation_limits reserved_usage reservation_event
    build_reservation prepare_reservation assert_unique_event_id assert_unique_settlement_id
    require_active_reservation ledger_append append_and_apply plan_reserve reserve
    pricing_from_reservation settlement_usage settlement_event release_event validated plan_settle
    plan_release append_settlement settle release initialize_from initialize lookup contains insert
    controller text_eq restarted
restarted_ok = refl

-- The loops of the replay.
abbrev pub summary : Summary
summary = record {
  active = records_of (booking ∷ []);
  settled = [];
  totals = (controller (booking ∷ [])).state.totals;
}

pub counted_ok :
    add_record_to_totals create_empty_totals booked none
    ≡ ok (controller (booking ∷ [])).state.totals
unfolding assert_non_negative_safe_integer safe_bigint_to_number create_money add_money round_up
    calculate_micros_for_tokens find_snapshot resolve_snapshot resolve charge calculate_cost
    valid_reservation valid_settlement valid_event parse_ledger_event event_strings is_identifier
    is_reason_code is_sha256_hex ends_with_z join budget_scope_key safe_add settlement_to_usage
    merge_usage add_usage add_number add_cloud add_common add_record_to_totals create_empty_totals
    expected_cost validate_reservation exceeds computed_overrun has_usage validate_disposition
    validate_settlement add_reservation apply_settlement add_settlement replay_event replay_events
    count_record summarize_record summarize recovery_blocking empty_summary empty_replay
    derive_budget_state check_number_limit check_money_limit check_usage_limits required_usage
    check_scope check_provider_limits check_cloud_limits check_retry_limits
    validate_candidate_limits assert_storage_ready current_timestamp validate_provider_request
    check_admission resolve_pricing reservation_limits reserved_usage reservation_event
    build_reservation prepare_reservation assert_unique_event_id assert_unique_settlement_id
    require_active_reservation ledger_append append_and_apply plan_reserve reserve
    pricing_from_reservation settlement_usage settlement_event release_event validated plan_settle
    plan_release append_settlement settle release initialize_from initialize lookup contains insert
    controller text_eq
counted_ok = refl

pub summarized_ok : summarize (records_of (booking ∷ [])) empty_summary ≡ ok summary
unfolding assert_non_negative_safe_integer safe_bigint_to_number create_money add_money round_up
    calculate_micros_for_tokens find_snapshot resolve_snapshot resolve charge calculate_cost
    valid_reservation valid_settlement valid_event parse_ledger_event event_strings is_identifier
    is_reason_code is_sha256_hex ends_with_z join budget_scope_key safe_add settlement_to_usage
    merge_usage add_usage add_number add_cloud add_common add_record_to_totals create_empty_totals
    expected_cost validate_reservation exceeds computed_overrun has_usage validate_disposition
    validate_settlement add_reservation apply_settlement add_settlement replay_event replay_events
    count_record summarize_record summarize recovery_blocking empty_summary empty_replay
    derive_budget_state check_number_limit check_money_limit check_usage_limits required_usage
    check_scope check_provider_limits check_cloud_limits check_retry_limits
    validate_candidate_limits assert_storage_ready current_timestamp validate_provider_request
    check_admission resolve_pricing reservation_limits reserved_usage reservation_event
    build_reservation prepare_reservation assert_unique_event_id assert_unique_settlement_id
    require_active_reservation ledger_append append_and_apply plan_reserve reserve
    pricing_from_reservation settlement_usage settlement_event release_event validated plan_settle
    plan_release append_settlement settle release initialize_from initialize lookup contains insert
    controller text_eq
summarized_ok = refl

pub replayed_ok :
    replay_events (booking ∷ LedgerEvent.budget_settlement settlement ∷ []) empty_replay
    ≡ ok (record {
      records = records_of (booking ∷ LedgerEvent.budget_settlement settlement ∷ []);
      discrepancy_circuit = false;
    })
unfolding assert_non_negative_safe_integer safe_bigint_to_number create_money add_money round_up
    calculate_micros_for_tokens find_snapshot resolve_snapshot resolve charge calculate_cost
    valid_reservation valid_settlement valid_event parse_ledger_event event_strings is_identifier
    is_reason_code is_sha256_hex ends_with_z join budget_scope_key safe_add settlement_to_usage
    merge_usage add_usage add_number add_cloud add_common add_record_to_totals create_empty_totals
    expected_cost validate_reservation exceeds computed_overrun has_usage validate_disposition
    validate_settlement add_reservation apply_settlement add_settlement replay_event replay_events
    count_record summarize_record summarize recovery_blocking empty_summary empty_replay
    derive_budget_state check_number_limit check_money_limit check_usage_limits required_usage
    check_scope check_provider_limits check_cloud_limits check_retry_limits
    validate_candidate_limits assert_storage_ready current_timestamp validate_provider_request
    check_admission resolve_pricing reservation_limits reserved_usage reservation_event
    build_reservation prepare_reservation assert_unique_event_id assert_unique_settlement_id
    require_active_reservation ledger_append append_and_apply plan_reserve reserve
    pricing_from_reservation settlement_usage settlement_event release_event validated plan_settle
    plan_release append_settlement settle release initialize_from initialize lookup contains insert
    controller text_eq
replayed_ok = refl

-- A quote of the same call.
abbrev pub quoting : BudgetQuoteRequest
quoting = record {
  task_id = text "t1";
  provider = ProviderId.deepseek;
  model = text "chat";
  route = Route.cheap_cloud;
  data_class = DataClass.public;
  automatic = true;
  retry = false;
  estimated_input_tokens = 100;
}

abbrev pub quote_name : QuoteHash
quote_name _ _ _ = text "h"

pub quoted_ok :
    quote quote_name demo clock quoting (controller [])
    ≡ ok (BudgetQuoteResult.allowed (quote_of booked Route.cheap_cloud))
unfolding assert_non_negative_safe_integer safe_bigint_to_number create_money add_money round_up
    calculate_micros_for_tokens find_snapshot resolve_snapshot resolve charge calculate_cost
    valid_reservation valid_settlement valid_event parse_ledger_event event_strings is_identifier
    is_reason_code is_sha256_hex ends_with_z join budget_scope_key safe_add settlement_to_usage
    merge_usage add_usage add_number add_cloud add_common add_record_to_totals create_empty_totals
    expected_cost validate_reservation exceeds computed_overrun has_usage validate_disposition
    validate_settlement add_reservation apply_settlement add_settlement replay_event replay_events
    count_record summarize_record summarize recovery_blocking empty_summary empty_replay
    derive_budget_state check_number_limit check_money_limit check_usage_limits required_usage
    check_scope check_provider_limits check_cloud_limits check_retry_limits
    validate_candidate_limits assert_storage_ready current_timestamp validate_provider_request
    check_admission resolve_pricing reservation_limits reserved_usage reservation_event
    build_reservation prepare_reservation assert_unique_event_id assert_unique_settlement_id
    require_active_reservation ledger_append append_and_apply plan_reserve reserve
    pricing_from_reservation settlement_usage settlement_event release_event validated plan_settle
    plan_release append_settlement settle release initialize_from initialize lookup contains insert
    controller text_eq quote quote_internal quote_request
quoted_ok = refl
