-- ===== src/Routing/Router/Evaluate.antt =====
-- cost-router.ts: `evaluateInternal`, up to the draft that it audits.
use ikimetr.Prelude.{
  Bool, true, false, ◌&&◌, not, Option, none, some, List, [], ◌∷◌, ◌++◌, text_Eq, if◌then◌else◌,
}
use ikimetr.Config.{data_class_Eq}
use ikimetr.LedgerEvents.{LedgerEvent}
use ikimetr.Routing.Codes.{
  Decision, DecisionRoute, ReasonCode, CacheStatus, BudgetStatus, PricingCheck, ApprovalStatus,
}
use ikimetr.Routing.Policy.{
  TaskRoutingRequest, is_secret, is_deterministic_capability, evaluate_route_policy,
}
use ikimetr.Routing.State.{
  RoutingState, derive_routing_state, has_route_insufficiency, has_repeated_failure,
}
use ikimetr.Routing.Draft.{RoutingStage, TransitionOutcome, RoutingTransition, RoutingDecisionDraft}
use ikimetr.Routing.Router.{
  ProviderRoute, to_route, stage_by_route, to_reason, transition, denied, skipped, selected_draft,
  stop_draft_with, stop_draft,
}
use ikimetr.Routing.Router.Provider.{CostRouter, ProviderOutcome, evaluate_provider_route}
use ikimetr.Routing.Router.Cache.{RoutingRuntimeContext, CacheOutcome, evaluate_cache}

abbrev pub insufficient_reason : ProviderRoute → ReasonCode
insufficient_reason ProviderRoute.local = ReasonCode.local_insufficient
insufficient_reason _ = ReasonCode.cheap_insufficient

abbrev pub is_strong : ProviderRoute → Bool
is_strong ProviderRoute.strong = true
is_strong _ = false

abbrev pub is_pricing_stop : ProviderRoute → ReasonCode → Bool
is_pricing_stop ProviderRoute.local reason = false
is_pricing_stop _ ReasonCode.pricing_unknown = true
is_pricing_stop _ ReasonCode.pricing_stale = true
is_pricing_stop _ _ = false

abbrev pub final_stop :
    CacheStatus → ReasonCode → PricingCheck → List RoutingTransition → RoutingDecisionDraft
final_stop cache reason pricing trace =
    stop_draft_with reason cache (trace ++ denied RoutingStage.final reason ∷ []) pricing
      BudgetStatus.not_applicable none none ApprovalStatus.not_required

-- Why a route is not tried, if it is not.
unfoldable pub skip_route :
    CostRouter → TaskRoutingRequest → RoutingState → ProviderRoute → Option ReasonCode
skip_route router request state route =
    let policy = evaluate_route_policy request (to_route route) in
    if not (is_strong route)
      && has_route_insufficiency state (to_route route) (some (router.hashing.hash_request request))
    then some (insufficient_reason route)
    else if not policy.allowed
    then some (to_reason policy.reason_code)
    else none

module _ (router : CostRouter) (request : TaskRoutingRequest) (context : RoutingRuntimeContext)
    (state : RoutingState) (cache : CacheStatus) where
  -- The loop over the routes.
  unfoldable pub evaluate_routes :
      List ProviderRoute → ReasonCode → List RoutingTransition → RoutingDecisionDraft
  evaluate_routes [] last_reason trace =
      final_stop cache last_reason PricingCheck.not_applicable trace
  evaluate_routes (route ∷ routes) last_reason trace =
      elim (skip_route router request state route) [
        | some reason ↦
            evaluate_routes routes reason (trace ++ skipped (stage_by_route route) reason ∷ [])
        | none ↦
            elim (evaluate_provider_route router request context.retry
              context.estimated_input_tokens state route cache request.data_class trace) [
                | ProviderOutcome.decided d ↦ d
                | ProviderOutcome.passed reason pricing next ↦ elim (is_pricing_stop route reason) [
                  | true ↦ final_stop cache reason pricing next
                  | false ↦ evaluate_routes routes reason next
                ]
              ]
      ]

abbrev pub provider_routes : List ProviderRoute
provider_routes = ProviderRoute.local ∷ ProviderRoute.cheap_cloud ∷ ProviderRoute.strong ∷ []

abbrev pub deterministic_draft : CacheStatus → List RoutingTransition → RoutingDecisionDraft
deterministic_draft cache trace =
    selected_draft Decision.deterministic DecisionRoute.deterministic none
      ReasonCode.deterministic_capability cache BudgetStatus.not_applicable
      PricingCheck.not_applicable ApprovalStatus.not_required false
      (trace
        ++ transition RoutingStage.deterministic TransitionOutcome.selected
            ReasonCode.deterministic_capability
          ∷ [])

-- What follows the cache.
unfoldable pub evaluate_after_cache :
    CostRouter
    → TaskRoutingRequest
    → RoutingRuntimeContext
    → RoutingState
    → CacheStatus
    → List RoutingTransition
    → RoutingDecisionDraft
evaluate_after_cache router request context state cache trace =
    if is_deterministic_capability request
    then deterministic_draft cache trace
    else let next =
        trace
        ++ transition RoutingStage.deterministic TransitionOutcome.continue
            ReasonCode.deterministic_unresolved
          ∷ [] in
      if has_repeated_failure state request.error_fingerprint request.current_diff_hash
        (some (router.hashing.hash_request request))
      then final_stop cache ReasonCode.repeated_request PricingCheck.not_applicable next
      else evaluate_routes router request context state cache provider_routes
          ReasonCode.no_provider_available next

-- The draft that is audited, for the events that the ledger holds.
unfoldable pub evaluate_draft :
    CostRouter
    → TaskRoutingRequest
    → RoutingRuntimeContext
    → List LedgerEvent
    → RoutingDecisionDraft
evaluate_draft router request context events = elim (is_secret request.data_class) [
  | true ↦
      stop_draft ReasonCode.secret_data_denied CacheStatus.skipped
        (denied RoutingStage.cache ReasonCode.secret_data_denied ∷ [])
  | false ↦
      elim (evaluate_cache request router.config [] context.cache_candidates CacheStatus.miss) [
        | CacheOutcome.decided d ↦ d
        | CacheOutcome.passed status trace ↦
            evaluate_after_cache router request context
              (derive_routing_state events request.task_id) status trace
      ]
]
