-- ===== src/Routing/Router/Provider.antt =====
-- cost-router.ts: `evaluateProviderRoute`, which tries the providers of a route in turn.
use ikimetr.Prelude.{
  ℕ, Bool, true, false, not, Option, none, some, List, [], ◌∷◌, ◌++◌, Text, Result, ok, err, ◌>>=◌,
  ◌>>◌, throw_if, map_err, if◌then◌else◌,
}
use ikimetr.Config.{ProviderId, DataClass, PricingStatus, PricingSnapshot, ConfigSnapshot}
use ikimetr.Pricing.{find_snapshot, resolve}
use ikimetr.LedgerEvents.{Schema}
use ikimetr.Budget.Replay.{is_local}
use ikimetr.Budget.Limits.{BudgetError}
use ikimetr.Budget.Prepare.{is_automatic}
use ikimetr.Budget.Controller.{BudgetQuoteRequest}
use ikimetr.Budget.Controller.Quote.{BudgetQuoteResult}
use ikimetr.Routing.Codes.{
  Decision, ReasonCode, CacheStatus, BudgetStatus, PricingCheck, ApprovalStatus,
}
use ikimetr.Routing.Policy.{RequestDataClass, TaskRoutingRequest, evaluate_provider_policy}
use ikimetr.Routing.State.{ProviderHealthState, RoutingState, get_provider_health}
use ikimetr.Routing.Draft.{TransitionOutcome, RoutingTransition, RoutingDecisionDraft}
use ikimetr.Routing.Decision.{Hashing}
use ikimetr.Routing.Router.{
  ProviderRoute, to_route, to_decision_route, to_decision, stage_by_route, to_reason, transition,
  denied, skipped, selected_draft, stop_draft_with, stop_draft, health_reason, unavailable_reason,
  can_escalate, budget_status_for, budget_reason,
}
use ikimetr.Routing.Router.Approval.{evaluate_approval}

-- The fields of a router. `pricing` is the configuration that the pricing resolver holds, and
-- `quote` is what the budget controller answers.
pub record CostRouter : Type 0 where
  pub config : ConfigSnapshot
  pub config_valid : Bool
  pub effective_config_hash : Text
  pub pricing : ConfigSnapshot
  pub quote : BudgetQuoteRequest → Result BudgetError BudgetQuoteResult
  pub hashing : Hashing
  pub schema : Schema

-- What ends the evaluation of one provider without selecting it.
pub data Rejection : Type 0 where
  skip : ReasonCode → Rejection
  unpriced : ReasonCode → PricingCheck → Rejection
  decided : RoutingDecisionDraft → Rejection

pub data ProviderOutcome : Type 0 where
  decided : RoutingDecisionDraft → ProviderOutcome
  passed : ReasonCode → PricingCheck → List RoutingTransition → ProviderOutcome

abbrev pub or_reject {ℓ} : {A : Type ℓ} → Rejection → Option A → Result Rejection A
or_reject e none = err e
or_reject e (some a) = ok a

abbrev pub check_health : ProviderHealthState → Result Rejection (Unit {0})
check_health ProviderHealthState.healthy = ok tt
check_health h = err (Rejection.skip (health_reason h))

abbrev pub check_status : PricingStatus → Result Rejection (Unit {0})
check_status PricingStatus.known = ok tt
check_status PricingStatus.stale =
    err (Rejection.unpriced ReasonCode.pricing_stale PricingCheck.stale)
check_status PricingStatus.unknown =
    err (Rejection.unpriced ReasonCode.pricing_unknown PricingCheck.unknown)

abbrev pub check_snapshot : Option PricingSnapshot → Result Rejection (Unit {0})
check_snapshot none = err (Rejection.unpriced ReasonCode.pricing_unknown PricingCheck.unknown)
check_snapshot (some s) = check_status s.status

module _ (route : ProviderRoute) (cache : CacheStatus) (trace : List RoutingTransition)
    (id : ProviderId) where
  -- A denial of the route, after the price is known.
  abbrev pub stop_at : ReasonCode → BudgetStatus → ApprovalStatus → RoutingDecisionDraft
  stop_at reason budget approval =
      stop_draft_with reason cache (trace ++ denied (stage_by_route route) reason ∷ [])
        PricingCheck.known budget (some id) (some (to_decision_route route)) approval

  abbrev pub check_quote : BudgetQuoteResult → Result Rejection (Unit {0})
  check_quote (BudgetQuoteResult.allowed q) = ok tt
  check_quote (BudgetQuoteResult.denied code) = err (
      Rejection.decided (
        stop_at (budget_reason (budget_status_for code)) (budget_status_for code)
          ApprovalStatus.not_required))

  -- What is still selected when an approval is missing: a decision to ask for it.
  abbrev pub ask_approval : RoutingDecisionDraft
  ask_approval =
      selected_draft Decision.approval_required (to_decision_route route) (some id)
        ReasonCode.approval_required cache BudgetStatus.allowed PricingCheck.known
        ApprovalStatus.required false
        (trace ++ denied (stage_by_route route) ReasonCode.approval_required ∷ [])

  abbrev pub check_approval : ApprovalStatus → Result Rejection (Unit {0})
  check_approval ApprovalStatus.denied = err (
      Rejection.decided
        (stop_at ReasonCode.approval_denied BudgetStatus.allowed ApprovalStatus.denied))
  check_approval ApprovalStatus.required = err (Rejection.decided ask_approval)
  check_approval _ = ok tt

-- The argument of `quote`
abbrev pub quote_request_of :
    CostRouter
    → TaskRoutingRequest
    → Bool
    → ℕ
    → ProviderRoute
    → DataClass
    → ProviderId
    → Text
    → BudgetQuoteRequest
quote_request_of router request retry tokens route data_class id model = record {
  task_id = request.task_id;
  provider = id;
  model = model;
  route = to_route route;
  data_class = data_class;
  automatic = is_automatic (router.config.providers id).invocation_mode;
  retry = retry;
  estimated_input_tokens = tokens;
}

module _ (router : CostRouter) (request : TaskRoutingRequest) (retry : Bool) (tokens : ℕ)
    (state : RoutingState) (route : ProviderRoute) (cache : CacheStatus) where
  abbrev pub selection : List RoutingTransition → ProviderId → RoutingDecisionDraft
  selection trace id =
      selected_draft (to_decision route) (to_decision_route route) (some id)
        ReasonCode.route_selected cache BudgetStatus.allowed PricingCheck.known
        (evaluate_approval router.config state request route id) (can_escalate request route)
        (trace
          ++ transition (stage_by_route route) TransitionOutcome.selected ReasonCode.route_selected
            ∷ [])

  -- The body of the loop over the providers. A value is the draft that selects the provider.
  unfoldable pub evaluate_provider :
      DataClass → List RoutingTransition → ProviderId → Result Rejection RoutingDecisionDraft
  evaluate_provider data_class trace id = do
    let provider = router.config.providers id
    let policy = evaluate_provider_policy router.config request id
    throw_if (not policy.allowed) (Rejection.skip (to_reason policy.reason_code))
    model ← or_reject (Rejection.skip ReasonCode.provider_disabled) provider.model
    check_health (get_provider_health state id model)
    check_snapshot (find_snapshot id router.config.pricing_snapshots)
    resolved ←
        map_err (λ _. Rejection.unpriced ReasonCode.pricing_unknown PricingCheck.error)
          (resolve router.pricing (record {
            provider = id;
            model = model;
            automatic = is_automatic provider.invocation_mode;
            cloud = not (is_local id);
          }))
    answer ←
        map_err
          (λ _. Rejection.decided (
            stop_at route cache trace id ReasonCode.budget_denied BudgetStatus.error
              ApprovalStatus.not_required))
          (router.quote (quote_request_of router request retry tokens route data_class id model))
    check_quote route cache trace id answer
    check_approval route cache trace id (evaluate_approval router.config state request route id)
    ok (selection trace id)

  -- After the loop.
  unfoldable pub exhausted :
      Bool → ReasonCode → PricingCheck → List RoutingTransition → ProviderOutcome
  exhausted saw_pricing_failure last_reason pricing trace =
      if saw_pricing_failure
      then ProviderOutcome.passed last_reason pricing trace
      else ProviderOutcome.passed (unavailable_reason route) pricing
          (trace ++ skipped (stage_by_route route) (unavailable_reason route) ∷ [])

  -- The loop, from the reason, the pricing status, the flag and the trace that it has reached.
  unfoldable pub try_providers :
      DataClass
      → List ProviderId
      → ReasonCode
      → PricingCheck
      → Bool
      → List RoutingTransition
      → ProviderOutcome
  try_providers data_class [] last_reason pricing saw trace =
      exhausted saw last_reason pricing trace
  try_providers data_class (id ∷ ids) last_reason pricing saw trace =
      elim (evaluate_provider data_class trace id) [
        | ok d ↦ ProviderOutcome.decided d
        | err r ↦ elim r [
          | Rejection.decided d ↦ ProviderOutcome.decided d
          | Rejection.skip reason ↦
              try_providers data_class ids reason pricing saw
                (trace ++ skipped (stage_by_route route) reason ∷ [])
          | Rejection.unpriced reason status ↦
              try_providers data_class ids reason status true
                (trace ++ skipped (stage_by_route route) reason ∷ [])
        ]
      ]

  unfoldable pub evaluate_provider_route :
      RequestDataClass → List RoutingTransition → ProviderOutcome
  evaluate_provider_route RequestDataClass.secret trace = ProviderOutcome.decided (
      stop_draft ReasonCode.secret_data_denied cache
        (trace ++ denied (stage_by_route route) ReasonCode.secret_data_denied ∷ []))
  evaluate_provider_route (RequestDataClass.allowable data_class) trace =
      try_providers data_class (router.config.routes (to_route route)).providers
        (unavailable_reason route) PricingCheck.not_applicable false trace
