-- ===== src/Routing/Router/Outcomes.antt =====
-- cost-router.ts: the ways in which the evaluation of one provider ends, for a predicate on drafts.
use ikimetr.Prelude.{
  ℕ, Bool, true, false, not, Option, none, some, List, Result, ok, err, ◌>>=◌, throw_if, map_err,
}
use ikimetr.Config.{DataClass, ProviderId, PricingStatus, PricingSnapshot}
use ikimetr.Pricing.{find_snapshot, resolve}
use ikimetr.Budget.Replay.{is_local}
use ikimetr.Budget.Prepare.{is_automatic}
use ikimetr.Budget.Controller.Quote.{BudgetQuoteResult}
use ikimetr.Routing.Codes.{ReasonCode, CacheStatus, BudgetStatus, PricingCheck, ApprovalStatus}
use ikimetr.Routing.Policy.{TaskRoutingRequest, evaluate_provider_policy}
use ikimetr.Routing.State.{ProviderHealthState, RoutingState, get_provider_health}
use ikimetr.Routing.Draft.{RoutingTransition, RoutingDecisionDraft}
use ikimetr.Routing.Router.{ProviderRoute, to_reason}
use ikimetr.Routing.Router.Approval.{evaluate_approval}
use ikimetr.Routing.Router.Provider.{
  CostRouter, Rejection, or_reject, check_health, check_status, check_snapshot, stop_at,
  check_quote, ask_approval, check_approval, quote_request_of, evaluate_provider,
}

abbrev pub Rejects : (RoutingDecisionDraft → Type 0) → Rejection → Type 0
Rejects P (Rejection.decided d) = P d
Rejects P _ = Unit

-- Of an error that decides, the draft satisfies the predicate.
pub data Errs {κ} {X : Type κ} (P : RoutingDecisionDraft → Type 0)
    : Result Rejection X → Type κ where
  value : (x : X) → Errs P (ok x)
  rejected : (e : Rejection) → Rejects P e → Errs P (err e)

>>=-Errs {κ μ} :
    {X : Type κ} {Y : Type μ} {P : RoutingDecisionDraft → Type 0} {m : Result Rejection X}
    {next : X → Result Rejection Y}
    → Errs P m
    → ((x : X) → Errs P (next x))
    → Errs P (m >>= next)
>>=-Errs (Errs.value x) g = g x
>>=-Errs (Errs.rejected e h) g = Errs.rejected e h

throw_if-Errs :
    (P : RoutingDecisionDraft → Type 0) (b : Bool) (reason : ReasonCode)
    → Errs P (throw_if b (Rejection.skip reason))
throw_if-Errs P true reason = Errs.rejected _ tt
throw_if-Errs P false reason = Errs.value tt

or_reject-Errs {ℓ} :
    {A : Type ℓ} (P : RoutingDecisionDraft → Type 0) (reason : ReasonCode) (o : Option A)
    → Errs P (or_reject (Rejection.skip reason) o)
or_reject-Errs P reason none = Errs.rejected _ tt
or_reject-Errs P reason (some a) = Errs.value a

check_health-Errs :
    (P : RoutingDecisionDraft → Type 0) (h : ProviderHealthState) → Errs P (check_health h)
check_health-Errs P ProviderHealthState.healthy = Errs.value tt
check_health-Errs P ProviderHealthState.degraded = Errs.rejected _ tt
check_health-Errs P ProviderHealthState.unavailable = Errs.rejected _ tt
check_health-Errs P ProviderHealthState.unknown = Errs.rejected _ tt

check_status-Errs :
    (P : RoutingDecisionDraft → Type 0) (s : PricingStatus) → Errs P (check_status s)
check_status-Errs P PricingStatus.known = Errs.value tt
check_status-Errs P PricingStatus.stale = Errs.rejected _ tt
check_status-Errs P PricingStatus.unknown = Errs.rejected _ tt

check_snapshot-Errs :
    (P : RoutingDecisionDraft → Type 0) (s : Option PricingSnapshot) → Errs P (check_snapshot s)
check_snapshot-Errs P none = Errs.rejected _ tt
check_snapshot-Errs P (some s) = check_status-Errs P s.status

map_err-Errs {ℓ κ} :
    {E : Type ℓ} {A : Type κ} (P : RoutingDecisionDraft → Type 0) (r : Rejection) (m : Result E A)
    → Rejects P r
    → Errs P (map_err (λ _. r) m)
map_err-Errs P r (ok a) h = Errs.value a
map_err-Errs P r (err e) h = Errs.rejected r h

module _ (P : RoutingDecisionDraft → Type 0) (route : ProviderRoute) (cache : CacheStatus)
    (trace : List RoutingTransition) (id : ProviderId)
    (stops : (reason : ReasonCode) (budget : BudgetStatus) (approval : ApprovalStatus)
      → P (stop_at route cache trace id reason budget approval))
    (asks : P (ask_approval route cache trace id)) where
  check_quote-Errs : (a : BudgetQuoteResult) → Errs P (check_quote route cache trace id a)
  check_quote-Errs (BudgetQuoteResult.allowed q) = Errs.value tt
  check_quote-Errs (BudgetQuoteResult.denied code) = Errs.rejected _ (stops _ _ _)

  check_approval-Errs : (a : ApprovalStatus) → Errs P (check_approval route cache trace id a)
  check_approval-Errs ApprovalStatus.not_required = Errs.value tt
  check_approval-Errs ApprovalStatus.approved = Errs.value tt
  check_approval-Errs ApprovalStatus.required = Errs.rejected _ asks
  check_approval-Errs ApprovalStatus.denied = Errs.rejected _ (stops _ _ _)

  -- A predicate of the denials and of the request for approval is one of every rejection.
  pub evaluate_provider-Errs :
      (router : CostRouter) (request : TaskRoutingRequest) (retry : Bool) (tokens : ℕ)
      (state : RoutingState) (data_class : DataClass)
      → Errs P (evaluate_provider router request retry tokens state route cache data_class trace id)
  unfolding evaluate_provider
  evaluate_provider-Errs router request retry tokens state data_class =
      let provider = router.config.providers id in
      let policy = evaluate_provider_policy router.config request id in
      >>=-Errs (throw_if-Errs P (not policy.allowed) (to_reason policy.reason_code)) λ _.
        >>=-Errs (or_reject-Errs P ReasonCode.provider_disabled provider.model) λ model.
          >>=-Errs (check_health-Errs P (get_provider_health state id model)) λ _.
            >>=-Errs (check_snapshot-Errs P (find_snapshot id router.config.pricing_snapshots)) λ _.
              >>=-Errs
                (map_err-Errs P (Rejection.unpriced ReasonCode.pricing_unknown PricingCheck.error)
                  (resolve router.pricing (record {
                    provider = id;
                    model = model;
                    automatic = is_automatic provider.invocation_mode;
                    cloud = not (is_local id);
                  }))
                  tt)
                λ resolved.
                  >>=-Errs
                    (map_err-Errs P
                      (Rejection.decided (
                        stop_at route cache trace id ReasonCode.budget_denied BudgetStatus.error
                          ApprovalStatus.not_required))
                      (router.quote
                        (quote_request_of router request retry tokens route data_class id model))
                      (stops _ _ _))
                    λ answer. >>=-Errs (check_quote-Errs answer) λ _.
                      >>=-Errs
                        (check_approval-Errs
                          (evaluate_approval router.config state request route id))
                        λ _. Errs.value _
