-- ===== src/Routing/Router.antt =====
-- cost-router.ts: the evaluation of a request, from the cache to the strongest route. Each function
-- returns the decision with the trace so far, which the code pushes to.
pub mod Approval
pub mod Provider
pub mod Cache
pub mod Evaluate
pub mod Audit
pub mod Trace
pub mod Outcomes
pub mod Granted
pub mod Selected
pub mod Choice
pub mod Decided
pub mod Valid
pub mod Accepted
pub mod Evaluated
pub mod Ends
pub mod Grounds
pub mod Guarantees
use ikimetr.Prelude.{
  ℕ, Bool, true, false, ◌&&◌, ◌||◌, not, Option, none, some, List, [], ◌∷◌, ◌++◌, leb, ltb, keep,
  any, if◌then◌else◌, Eq, ◌==◌, Text, text, text_Eq, text_eq, Result, ok, err, ◌>>=◌,
}
use ikimetr.Config.{
  ProviderId, DataClass, Route, InvocationMode, PricingStatus, PricingSnapshot, RouteConfig,
  ProviderConfig, ConfigSnapshot, provider_id_Eq, data_class_Eq,
}
use ikimetr.Pricing.{find_snapshot, resolve}
use ikimetr.LedgerEvents.{ApprovalDecision, RoutingDecisionEvent, LedgerEvent, Schema}
use ikimetr.Budget.Replay.{is_local}
use ikimetr.Budget.Limits.{ErrorCode, BudgetError}
use ikimetr.Budget.Prepare.{is_automatic}
use ikimetr.Budget.Controller.{BudgetQuoteRequest, AppendOutcome, ledger_append}
use ikimetr.Budget.Controller.Quote.{BudgetQuoteResult}
use ikimetr.Routing.Codes.{
  Decision, DecisionRoute, ReasonCode, CacheStatus, BudgetStatus, PricingCheck, DataPolicyStatus,
  ApprovalStatus, ApprovalScope,
}
use ikimetr.Routing.Policy.{
  RequestDataClass, PrimaryAgent, TaskRoutingRequest, PolicyReason, route_rank,
  is_deterministic_capability, evaluate_route_policy, evaluate_provider_policy,
}
use ikimetr.Routing.State.{
  ProviderHealthState, EffectiveApprovalState, RoutingState, derive_routing_state,
  get_provider_health, get_approval_state, has_route_insufficiency, has_repeated_failure,
}
use ikimetr.Routing.Draft.{
  RoutingStage, TransitionOutcome, RoutingTransition, RoutingDecisionDraft, is_final, last,
  DecisionError,
}
use ikimetr.Routing.Decision.{Hashing, RoutingDecision, create_routing_decision}

-- The routes that have providers.
pub data ProviderRoute : Type 0 where
  local cheap_cloud strong : ProviderRoute

abbrev pub to_route : ProviderRoute → Route
to_route ProviderRoute.local = Route.local
to_route ProviderRoute.cheap_cloud = Route.cheap_cloud
to_route ProviderRoute.strong = Route.strong

abbrev pub to_decision_route : ProviderRoute → DecisionRoute
to_decision_route ProviderRoute.local = DecisionRoute.local
to_decision_route ProviderRoute.cheap_cloud = DecisionRoute.cheap_cloud
to_decision_route ProviderRoute.strong = DecisionRoute.strong

abbrev pub to_decision : ProviderRoute → Decision
to_decision ProviderRoute.local = Decision.local
to_decision ProviderRoute.cheap_cloud = Decision.cheap_cloud
to_decision ProviderRoute.strong = Decision.strong

-- `stageByRoute`
abbrev pub stage_by_route : ProviderRoute → RoutingStage
stage_by_route ProviderRoute.local = RoutingStage.local
stage_by_route ProviderRoute.cheap_cloud = RoutingStage.cheap_cloud
stage_by_route ProviderRoute.strong = RoutingStage.strong

-- The reason of a policy result, as a reason of the router.
abbrev pub to_reason : PolicyReason → ReasonCode
to_reason PolicyReason.route_allowed = ReasonCode.route_allowed
to_reason PolicyReason.route_not_allowed = ReasonCode.route_not_allowed
to_reason PolicyReason.max_route_exceeded = ReasonCode.max_route_exceeded
to_reason PolicyReason.provider_disabled = ReasonCode.provider_disabled
to_reason PolicyReason.data_class_denied = ReasonCode.data_class_denied
to_reason PolicyReason.risk_class_denied = ReasonCode.risk_class_denied
to_reason PolicyReason.capability_denied = ReasonCode.capability_denied
to_reason PolicyReason.local_task_not_allowed = ReasonCode.local_task_not_allowed
to_reason PolicyReason.data_policy_allowed = ReasonCode.data_policy_allowed

abbrev pub transition : RoutingStage → TransitionOutcome → ReasonCode → RoutingTransition
transition stage outcome reason = record { stage = stage; outcome = outcome; reason_code = reason }

abbrev pub denied : RoutingStage → ReasonCode → RoutingTransition
denied stage reason = transition stage TransitionOutcome.denied reason

abbrev pub skipped : RoutingStage → ReasonCode → RoutingTransition
skipped stage reason = transition stage TransitionOutcome.skipped reason

-- `selectedDraft`, for the argument `'ALLOWED'` that every call gives the data policy.
unfoldable pub selected_draft :
    Decision
    → DecisionRoute
    → Option ProviderId
    → ReasonCode
    → CacheStatus
    → BudgetStatus
    → PricingCheck
    → ApprovalStatus
    → Bool
    → List RoutingTransition
    → RoutingDecisionDraft
selected_draft decision route provider reason cache budget pricing approval escalation trace =
    record {
      decision = decision;
      route = some route;
      provider_candidate = provider;
      reason_code = reason;
      cache_status = cache;
      budget_status = budget;
      pricing_status = pricing;
      data_policy_status = DataPolicyStatus.allowed;
      approval_status = approval;
      escalation_allowed = escalation;
      transition_trace = trace;
    }

-- The data policy status of `stopDraft`
abbrev pub stop_data_policy : ReasonCode → DataPolicyStatus
stop_data_policy ReasonCode.data_class_denied = DataPolicyStatus.denied
stop_data_policy ReasonCode.risk_class_denied = DataPolicyStatus.denied
stop_data_policy ReasonCode.capability_denied = DataPolicyStatus.denied
stop_data_policy ReasonCode.secret_data_denied = DataPolicyStatus.denied
stop_data_policy _ = DataPolicyStatus.allowed

-- `stopDraft`; no call gives it an escalation.
unfoldable pub stop_draft_with :
    ReasonCode
    → CacheStatus
    → List RoutingTransition
    → PricingCheck
    → BudgetStatus
    → Option ProviderId
    → Option DecisionRoute
    → ApprovalStatus
    → RoutingDecisionDraft
stop_draft_with reason cache trace pricing budget provider route approval = record {
  decision = Decision.stop;
  route = route;
  provider_candidate = provider;
  reason_code = reason;
  cache_status = cache;
  budget_status = budget;
  pricing_status = pricing;
  data_policy_status = stop_data_policy reason;
  approval_status = approval;
  escalation_allowed = false;
  transition_trace = trace;
}

unfoldable pub stop_draft : ReasonCode → CacheStatus → List RoutingTransition → RoutingDecisionDraft
unfolding stop_draft_with
stop_draft reason cache trace =
    stop_draft_with reason cache trace PricingCheck.not_applicable BudgetStatus.not_applicable none
      none ApprovalStatus.not_required

abbrev pub health_reason : ProviderHealthState → ReasonCode
health_reason ProviderHealthState.healthy = ReasonCode.provider_healthy
health_reason ProviderHealthState.degraded = ReasonCode.provider_degraded
health_reason ProviderHealthState.unavailable = ReasonCode.provider_unavailable
health_reason ProviderHealthState.unknown = ReasonCode.provider_health_unknown

abbrev pub unavailable_reason : ProviderRoute → ReasonCode
unavailable_reason ProviderRoute.local = ReasonCode.local_unavailable
unavailable_reason ProviderRoute.cheap_cloud = ReasonCode.cheap_unavailable
unavailable_reason ProviderRoute.strong = ReasonCode.strong_unavailable

unfoldable pub can_escalate : TaskRoutingRequest → ProviderRoute → Bool
can_escalate request route =
    any
      (λ candidate.
        ltb (route_rank (to_route route)) (route_rank candidate)
        && leb (route_rank candidate) (route_rank request.max_route))
      request.allowed_routes

-- `budgetStatusFor`
abbrev pub budget_status_for : ErrorCode → BudgetStatus
budget_status_for ErrorCode.not_configured = BudgetStatus.not_configured
budget_status_for ErrorCode.provider_disabled = BudgetStatus.not_configured
budget_status_for ErrorCode.invalid_request = BudgetStatus.not_configured
budget_status_for _ = BudgetStatus.denied

abbrev pub budget_reason : BudgetStatus → ReasonCode
budget_reason BudgetStatus.not_configured = ReasonCode.budget_not_configured
budget_reason _ = ReasonCode.budget_denied
