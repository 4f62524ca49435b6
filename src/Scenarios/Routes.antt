-- ===== src/Scenarios/Routes.antt =====
-- The theorems on the cost router, applied to a router with one cloud provider whose health is known.
use ikimetr.Prelude.{true, text, none, ◌≡◌, refl, false, some, [], ◌∷◌, text_Eq, text_eq, ok}
use ikimetr.Prelude.Dict.{lookup, contains, insert}
use ikimetr.Money.{
  assert_non_negative_safe_integer, safe_bigint_to_number, create_money, add_money, round_up,
  calculate_micros_for_tokens,
}
use ikimetr.Config.{provider_id_Eq, risk_class_Eq, capability_id_Eq, data_class_Eq, route_Eq}
use ikimetr.Pricing.{find_snapshot, resolve_snapshot, resolve, charge, calculate_cost}
use ikimetr.LedgerEvents.{
  valid_reservation, valid_settlement, valid_event, parse_ledger_event, LedgerEvent, event_strings,
  is_identifier, is_reason_code, is_sha256_hex, ends_with_z,
}
use ikimetr.Budget.Usage.{
  join, budget_scope_key, safe_add, settlement_to_usage, merge_usage, add_usage, add_number,
  add_cloud, add_common, add_record_to_totals, create_empty_totals,
}
use ikimetr.Budget.Replay.{
  expected_cost, validate_reservation, exceeds, computed_overrun, has_usage, validate_disposition,
  validate_settlement, add_reservation, apply_settlement, add_settlement, replay_event,
  replay_events, count_record, summarize_record, summarize, recovery_blocking, empty_summary,
  empty_replay, derive_budget_state,
}
use ikimetr.Budget.Limits.{
  check_number_limit, check_money_limit, check_usage_limits, required_usage, check_scope,
  check_provider_limits, check_cloud_limits, check_retry_limits, validate_candidate_limits,
}
use ikimetr.Budget.Prepare.{
  assert_storage_ready, current_timestamp, validate_provider_request, check_admission,
  resolve_pricing, reservation_limits, reserved_usage, reservation_event, build_reservation,
  prepare_reservation,
}
use ikimetr.Budget.Controller.{
  AppendOutcome, assert_unique_event_id, assert_unique_settlement_id, require_active_reservation,
  ledger_append, append_and_apply, plan_reserve, reserve, pricing_from_reservation,
  settlement_usage, settlement_event, release_event, validated, plan_settle, plan_release,
  append_settlement, settle, release, initialize_from, initialize,
}
use ikimetr.Config.{ProviderId, Route, DataClass}
use ikimetr.Budget.Controller.{BudgetQuoteRequest}
use ikimetr.Budget.Controller.Quote.{quote, quote_internal, quote_request}
use ikimetr.Scenarios.Runs.{quote_name}
use ikimetr.Scenarios.{demo, demo_config, hash, clock, controller}
use ikimetr.Budget.Controller.Quote.{Quote, Quoted}
use ikimetr.Prelude.{◌≤◌, List, arith, Result, err, length}
use ikimetr.LedgerEvents.{CacheAction, CacheNamespace, HealthStatus, valid_routing_decision}
use ikimetr.Config.{RiskClass, CapabilityId}
use ikimetr.Routing.Codes.{
  Decision, ReasonCode, CacheStatus, BudgetStatus, PricingCheck, DataPolicyStatus, ApprovalStatus,
}
use ikimetr.Routing.Policy.{
  RequestDataClass, TaskRoutingRequest, is_deterministic_capability, evaluate_route_policy,
  evaluate_provider_policy,
}
use ikimetr.Routing.State.{
  health_key, derive_routing_state, collect, collect_event, collect_attempts, attempt_of,
  sort_record, insert_sorted, text_lt, get_provider_health, get_approval_state,
  has_route_insufficiency, has_repeated_failure,
}
use ikimetr.Routing.Draft.{
  DecisionError, validate_transition_order, validate_decision_semantics,
  parse_routing_decision_draft,
}
use ikimetr.Routing.Decision.{
  Hashing, RoutingDecision, parse_routing_decision, create_routing_decision,
}
use ikimetr.Routing.Router.{
  ProviderRoute, to_route, selected_draft, stop_draft, stop_draft_with, can_escalate,
}
use ikimetr.Routing.Router.Approval.{required_scopes, check_scopes, evaluate_approval}
use ikimetr.Routing.Router.Provider.{
  CostRouter, evaluate_provider, exhausted, try_providers, evaluate_provider_route,
}
use ikimetr.Routing.Router.Cache.{
  RoutingRuntimeContext, is_cache_context_compatible, evaluate_cache,
}
use ikimetr.Routing.Router.Evaluate.{
  skip_route, evaluate_routes, evaluate_after_cache, evaluate_draft,
}
use ikimetr.Routing.Router.Audit.{
  AuditAnswers, after_lookups, with_final_transition, append_decision, audit,
  create_stop_without_audit, evaluate_internal,
}
use ikimetr.Routing.Router.Grounds.{Chosen}
use ikimetr.Routing.Router.Ends.{Configured}
use ikimetr.Budget.Controller.Quote.{BudgetQuoteResult}
use ikimetr.Routing.Router.Cache.{CacheCompatibilityContext, VerifiedCacheLookup, cache_events}
use ikimetr.Routing.Router.Guarantees.{
  Asked, evaluate_internal_valid, evaluate_internal-Chosen, evaluate_internal_secret,
  evaluate_internal-Quoted,
}

-- Every hash is the same text here.
abbrev demo_hashing : Hashing
unfolding is_sha256_hex
demo_hashing = record {
  hash_request = λ r. hash;
  hash_decision = λ d summary config request. hash;
  hash_trace = λ t. hash;
  request_hex = λ r. refl;
  decision_hex = λ d summary config request. refl;
}

abbrev demo_router : CostRouter
demo_router = record {
  config = demo_config;
  config_valid = true;
  effective_config_hash = hash;
  pricing = demo_config;
  quote = λ q. quote quote_name demo clock q (controller []);
  hashing = demo_hashing;
  schema = demo.schema;
}

abbrev asked : TaskRoutingRequest
asked = record {
  task_id = text "t1";
  task_type = text "docs";
  purpose = text "notes";
  risk_class = RiskClass.low;
  data_class = RequestDataClass.allowable DataClass.public;
  requested_capability = CapabilityId.documentation;
  task_spec_hash = hash;
  input_hashes = [];
  current_diff_hash = none;
  error_fingerprint = none;
  verification_profile = text "default";
  allowed_routes = Route.local ∷ Route.cheap_cloud ∷ [];
  max_route = Route.cheap_cloud;
  requested_scopes = [];
  manual_primary_agent = none;
}

abbrev cached : CacheCompatibilityContext
cached = record {
  cache_key = hash;
  task_id = text "t1";
  task_type = text "docs";
  policy_version = demo_config.policy_version;
  config_hash = demo_config.config_hash;
  verification_profile_hash = demo_config.verification_hash;
  task_spec_hash = hash;
  input_hashes = [];
  diff_hash = none;
  error_fingerprint = none;
  data_class = DataClass.public;
}

-- An event that a lookup appends.
abbrev looked_up : LedgerEvent
looked_up = LedgerEvent.cache (record {
  event_id = text "cache-1";
  occurred_at = text "2026-01-02T03:04:05Z";
  cache_key = hash;
  action = CacheAction.lookup;
  namespace = some CacheNamespace.verified_artifact;
  entry_hash = none;
  state = none;
  result_hash = none;
  reason_code = none;
})

abbrev situation : RoutingRuntimeContext
situation = record {
  cache_candidates = (cached, some VerifiedCacheLookup.miss, looked_up ∷ []) ∷ [];
  estimated_input_tokens = 100;
  retry = false;
}

abbrev answers : AuditAnswers
answers = record {
  readable = true;
  event_id = text "routing-1";
  now = clock;
  outcome = AppendOutcome.appended;
}

abbrev health_file : List LedgerEvent
health_file =
    LedgerEvent.provider_health (record {
      event_id = text "e1";
      occurred_at = text "2026-01-02T03:04:05Z";
      provider = ProviderId.deepseek;
      model = text "chat";
      status = HealthStatus.healthy;
      latency_ms = none;
      reason_code = text "probe";
    })
    ∷ []

demo-Configured : Configured demo_router
unfolding is_sha256_hex
demo-Configured = record { providers = at_most_two; hash = refl }
  where
    at_most_two :
        (route : ProviderRoute) → length (demo_config.routes (to_route route)).providers ≤ 2
    at_most_two ProviderRoute.local = omega arith
    at_most_two ProviderRoute.cheap_cloud = omega arith
    at_most_two ProviderRoute.strong = omega arith

abbrev stopped : RoutingDecision
stopped = record {
  draft = record {
    decision = Decision.stop;
    route = none;
    provider_candidate = none;
    reason_code = ReasonCode.config_invalid;
    cache_status = CacheStatus.skipped;
    budget_status = BudgetStatus.not_applicable;
    pricing_status = PricingCheck.not_applicable;
    data_policy_status = DataPolicyStatus.allowed;
    approval_status = ApprovalStatus.not_required;
    escalation_allowed = false;
    transition_trace = [];
  };
  reason_summary = [];
  config_hash = [];
  request_hash = [];
  decision_hash = [];
}

abbrev decision_of : Result DecisionError RoutingDecision → RoutingDecision
decision_of (ok r) = r
decision_of (err e) = stopped

abbrev decided : RoutingDecision
decided = decision_of (evaluate_internal demo_router asked situation answers health_file).1

selected_ok :
    ((evaluate_internal demo_router asked situation answers health_file).1 ≡ ok decided)
    × (decided.draft.decision ≡ Decision.cheap_cloud)
unfolding assert_non_negative_safe_integer safe_bigint_to_number create_money add_money round_up
    calculate_micros_for_tokens find_snapshot resolve_snapshot resolve charge calculate_cost
    valid_reservation valid_settlement valid_event parse_ledger_event event_strings is_identifier
    is_reason_code is_sha256_hex ends_with_z join budget_scope_key safe_add settlement_to_usage
    merge_usage add_usage add_number add_cloud add_common add_record_to_totals create_empty_totals
    expected_cost validate_reservation exceeds computed_overrun has_usage validate_disposition
    validate_settlement add_reservation apply_settlement add_settlement replay_event replay_events
    count_record summarize_record summarize recovery_blocking empty_summary empty_replay
    derive_budget_state check_number_limit check_money_limit check_usage_limits required_usage
    check_scope check_provider_limits check_cloud_limits check_retry_limits
    validate_candidate_limits assert_storage_ready current_timestamp validate_provider_request
    check_admission resolve_pricing reservation_limits reserved_usage reservation_event
    build_reservation prepare_reservation assert_unique_event_id assert_unique_settlement_id
    require_active_reservation ledger_append append_and_apply plan_reserve reserve
    pricing_from_reservation settlement_usage settlement_event release_event validated plan_settle
    plan_release append_settlement settle release initialize_from initialize lookup contains insert
    controller text_eq quote quote_internal quote_request evaluate_internal after_lookups
    cache_events evaluate_draft evaluate_cache is_cache_context_compatible evaluate_after_cache
    is_deterministic_capability has_repeated_failure evaluate_routes skip_route
    has_route_insufficiency evaluate_route_policy evaluate_provider_route try_providers exhausted
    evaluate_provider evaluate_provider_policy get_provider_health health_key derive_routing_state
    collect collect_event collect_attempts attempt_of sort_record insert_sorted text_lt
    evaluate_approval required_scopes check_scopes get_approval_state can_escalate selected_draft
    stop_draft stop_draft_with audit append_decision create_stop_without_audit with_final_transition
    create_routing_decision parse_routing_decision parse_routing_decision_draft
    validate_transition_order validate_decision_semantics valid_routing_decision
selected_ok = (refl, refl)

evaluate_internal_valid_example :
    (r : RoutingDecision) × ((evaluate_internal demo_router asked situation answers health_file).1
      ≡ ok r)
    × (parse_routing_decision demo_router.hashing r ≡ ok r)
    × (r.config_hash ≡ demo_router.effective_config_hash)
    × (r.request_hash ≡ demo_router.hashing.hash_request asked)
evaluate_internal_valid_example =
    evaluate_internal_valid demo_router asked situation answers health_file demo-Configured

evaluate_internal-Chosen_example :
    Chosen demo_router asked situation health_file decided.draft ProviderRoute.cheap_cloud
evaluate_internal-Chosen_example =
    evaluate_internal-Chosen demo_router asked situation answers health_file decided
      ProviderRoute.cheap_cloud demo-Configured selected_ok.0 selected_ok.1

abbrev secret_request : TaskRoutingRequest
secret_request = record asked { data_class = RequestDataClass.secret }

evaluate_internal_secret_example :
    (r : RoutingDecision) × ((evaluate_internal demo_router secret_request situation answers
        health_file).1
      ≡ ok r)
    × (r.draft.decision ≡ Decision.stop)
    × (r.draft.provider_candidate ≡ none)
evaluate_internal_secret_example =
    evaluate_internal_secret demo_router secret_request situation answers health_file
      demo-Configured refl

evaluate_internal-Quoted_example :
    (q : BudgetQuoteRequest) × (offer : Quote) × (decided.draft.provider_candidate
      ≡ some q.provider)
    × Asked demo_router asked situation ProviderRoute.cheap_cloud q
    × (quote quote_name demo clock q (controller []) ≡ ok (BudgetQuoteResult.allowed offer))
    × Quoted demo (quote_request quote_name demo q (controller [])) q.route (controller []) offer
evaluate_internal-Quoted_example =
    evaluate_internal-Quoted demo_router asked situation answers health_file quote_name demo clock
      (controller []) decided ProviderRoute.cheap_cloud demo-Configured refl selected_ok.0
      selected_ok.1
