-- ===== src/Routing/Router/Selected.antt =====
-- cost-router.ts: what held of the provider that the router selects.
use ikimetr.Prelude.{
  not-false, ℕ, ◌≡◌, ◌≢◌, refl, sym, ◌∙◌, ap, Bool, not, Option, none, some, List, Text, Result, ok,
  err, >>=-eq-ok, throw_if, throw_if-eq_ok, ok_injective, All, map_err,
}
use ikimetr.Config.{ProviderId, DataClass, PricingStatus, PricingSnapshot, provider_id_Eq}
use ikimetr.Pricing.{PricingRequest, ResolvedPricing, find_snapshot, resolve}
use ikimetr.Budget.Replay.{is_local}
use ikimetr.Budget.Prepare.{is_automatic}
use ikimetr.Budget.Controller.Quote.{Quote, BudgetQuoteResult}
use ikimetr.Routing.Codes.{ReasonCode, CacheStatus, BudgetStatus, PricingCheck, ApprovalStatus}
use ikimetr.Routing.Policy.{
  RequestDataClass, TaskRoutingRequest, Permitted, evaluate_provider_policy,
  evaluate_provider_policy-Permitted,
}
use ikimetr.Routing.State.{ProviderHealthState, RoutingState, get_provider_health}
use ikimetr.Routing.Draft.{RoutingTransition, RoutingDecisionDraft}
use ikimetr.Routing.Router.{ProviderRoute, to_reason}
use ikimetr.Routing.Router.Approval.{required_scopes, evaluate_approval}
use ikimetr.Routing.Router.Provider.{
  CostRouter, Rejection, or_reject, check_health, check_status, check_snapshot, check_quote,
  check_approval, stop_at, quote_request_of, selection, evaluate_provider,
}
use ikimetr.Routing.Router.Granted.{Granted, evaluate_approval-Granted}

pub record Selected (router : CostRouter) (request : TaskRoutingRequest) (retry : Bool) (tokens : ℕ)
    (state : RoutingState) (route : ProviderRoute) (id : ProviderId) : Type 0 where
  pub permitted : Permitted (router.config.providers id) request id
  pub model : Text
  pub has_model : (router.config.providers id).model ≡ some model
  pub healthy : get_provider_health state id model ≡ ProviderHealthState.healthy
  pub snapshot : PricingSnapshot
  pub listed_price : find_snapshot id router.config.pricing_snapshots ≡ some snapshot
  pub known_price : snapshot.status ≡ PricingStatus.known
  pub pricing : ResolvedPricing
  pub resolved :
      resolve router.pricing (record {
        provider = id;
        model = model;
        automatic = is_automatic (router.config.providers id).invocation_mode;
        cloud = not (is_local id);
      })
      ≡ ok pricing
  pub data_class : DataClass
  pub not_secret : request.data_class ≡ RequestDataClass.allowable data_class
  pub quoted : Quote
  pub budget :
      router.quote (quote_request_of router request retry tokens route data_class id model)
      ≡ ok (BudgetQuoteResult.allowed quoted)
  pub approvals : All (Granted state) (required_scopes router.config request route id)

or_reject-eq_ok {ℓ} :
    {A : Type ℓ} (r : Rejection) (o : Option A) {a : A} → or_reject r o ≡ ok a → o ≡ some a
or_reject-eq_ok r none h = cc
or_reject-eq_ok r (some b) h = cc

check_health-eq_ok :
    (h : ProviderHealthState) {u : Unit {0}}
    → check_health h ≡ ok u
    → h ≡ ProviderHealthState.healthy
check_health-eq_ok ProviderHealthState.healthy e = refl
check_health-eq_ok ProviderHealthState.degraded e = cc
check_health-eq_ok ProviderHealthState.unavailable e = cc
check_health-eq_ok ProviderHealthState.unknown e = cc

check_status-eq_ok :
    (s : PricingStatus) {u : Unit {0}} → check_status s ≡ ok u → s ≡ PricingStatus.known
check_status-eq_ok PricingStatus.known e = refl
check_status-eq_ok PricingStatus.stale e = cc
check_status-eq_ok PricingStatus.unknown e = cc

check_snapshot-eq_ok :
    (o : Option PricingSnapshot) {u : Unit {0}}
    → check_snapshot o ≡ ok u
    → (s : PricingSnapshot) × (o ≡ some s) × (s.status ≡ PricingStatus.known)
check_snapshot-eq_ok none e = cc
check_snapshot-eq_ok (some s) e = (s, refl, check_status-eq_ok s.status e)

map_err-const_ok {ℓ κ} :
    {E : Type ℓ} {A : Type κ} (r : Rejection) (m : Result E A) {a : A}
    → map_err (λ _. r) m ≡ ok a
    → m ≡ ok a
map_err-const_ok r (ok b) e = ap ok (ok_injective e)
map_err-const_ok r (err x) e = cc

module _ (route : ProviderRoute) (cache : CacheStatus) (trace : List RoutingTransition)
    (id : ProviderId) where
  check_quote-eq_ok :
      (a : BudgetQuoteResult) {u : Unit {0}}
      → check_quote route cache trace id a ≡ ok u
      → (q : Quote) × (a ≡ BudgetQuoteResult.allowed q)
  check_quote-eq_ok (BudgetQuoteResult.allowed q) e = (q, refl)
  check_quote-eq_ok (BudgetQuoteResult.denied code) e = cc

  check_approval-eq_ok :
      (a : ApprovalStatus) {u : Unit {0}}
      → check_approval route cache trace id a ≡ ok u
      → (a ≢ ApprovalStatus.required) × (a ≢ ApprovalStatus.denied)
  check_approval-eq_ok ApprovalStatus.not_required e = (λ h. cc, λ h. cc)
  check_approval-eq_ok ApprovalStatus.approved e = (λ h. cc, λ h. cc)
  check_approval-eq_ok ApprovalStatus.required e = cc
  check_approval-eq_ok ApprovalStatus.denied e = cc

-- A selected provider passed every test of its evaluation.
pub evaluate_provider-Selected :
    (router : CostRouter) (request : TaskRoutingRequest) (retry : Bool) (tokens : ℕ)
    (state : RoutingState) (route : ProviderRoute) (cache : CacheStatus) (data_class : DataClass)
    (trace : List RoutingTransition) (id : ProviderId) (d : RoutingDecisionDraft)
    → request.data_class ≡ RequestDataClass.allowable data_class
    → evaluate_provider router request retry tokens state route cache data_class trace id ≡ ok d
    → Selected router request retry tokens state route id
      × (d ≡ selection router request retry tokens state route cache trace id)
unfolding evaluate_provider
evaluate_provider-Selected router request retry tokens state route cache data_class trace id d class
      h =
    let policy = evaluate_provider_policy router.config request id in
    let (_, h0, r0) =
      >>=-eq-ok (throw_if (not policy.allowed) (Rejection.skip (to_reason policy.reason_code))) _
        h in
    let (model, h1, r1) =
      >>=-eq-ok
        (or_reject (Rejection.skip ReasonCode.provider_disabled) (router.config.providers id).model)
        _ r0 in
    let (_, h2, r2) = >>=-eq-ok (check_health (get_provider_health state id model)) _ r1 in
    let (_, h3, r3) =
      >>=-eq-ok (check_snapshot (find_snapshot id router.config.pricing_snapshots)) _ r2 in
    let (s, known, status) =
      check_snapshot-eq_ok (find_snapshot id router.config.pricing_snapshots) h3 in
    let asked : PricingRequest = record {
      provider = id;
      model = model;
      automatic = is_automatic (router.config.providers id).invocation_mode;
      cloud = not (is_local id);
    } in
    let (pricing, h4, r4) =
      >>=-eq-ok
        (map_err (λ _. Rejection.unpriced ReasonCode.pricing_unknown PricingCheck.error)
          (resolve router.pricing asked))
        _ r3 in
    let quote_request = quote_request_of router request retry tokens route data_class id model in
    let failed =
      stop_at route cache trace id ReasonCode.budget_denied BudgetStatus.error
        ApprovalStatus.not_required in
    let (answer, h5, r5) =
      >>=-eq-ok (map_err (λ _. Rejection.decided failed) (router.quote quote_request)) _ r4 in
    let (_, h6, r6) = >>=-eq-ok (check_quote route cache trace id answer) _ r5 in
    let approval = evaluate_approval router.config state request route id in
    let (_, h7, r7) = >>=-eq-ok (check_approval route cache trace id approval) _ r6 in
    let (quoted, allowed) = check_quote-eq_ok route cache trace id answer h6 in
    let (not_required, not_denied) = check_approval-eq_ok route cache trace id approval h7 in
    (
      record {
        permitted =
            evaluate_provider_policy-Permitted router.config request id
              (not-false (throw_if-eq_ok (not policy.allowed) _ h0));
        model = model;
        has_model = or_reject-eq_ok _ _ h1;
        healthy = check_health-eq_ok _ h2;
        snapshot = s;
        listed_price = known;
        known_price = status;
        pricing = pricing;
        resolved = map_err-const_ok _ (resolve router.pricing asked) h4;
        data_class = data_class;
        not_secret = class;
        quoted = quoted;
        budget =
            map_err-const_ok (Rejection.decided failed) (router.quote quote_request) h5
            ∙ ap ok allowed;
        approvals = evaluate_approval-Granted router request state route id not_required not_denied;
      },
      sym (ok_injective r7),
    )
