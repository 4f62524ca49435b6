-- ===== src/Routing/Router/Grounds.antt =====
-- cost-router.ts: the grounds of a decision for a route, said of the request, the configuration and the
-- events of the ledger.
use mathlib.Core.Path.{subst}
use ikimetr.Prelude.{
  ◌≤◌, ◌≡◌, ◌≢◌, refl, sym, ◌∙◌, ap, arith, Bool, true, false, ◌&&◌, not, Option, none, some, List,
  [], ◌∷◌, ◌++◌, All, Text, text, ok, ◌==◌,
}
use ikimetr.Config.{
  ProviderId, DataClass, PricingStatus, PricingSnapshot, provider_id_Eq, data_class_Eq, route_Eq,
}
use ikimetr.Pricing.{ResolvedPricing, find_snapshot, resolve}
use ikimetr.LedgerEvents.{ApprovalDecision, LedgerEvent}
use ikimetr.Budget.Replay.{is_local}
use ikimetr.Budget.Prepare.{is_automatic}
use ikimetr.Budget.Controller.Quote.{Quote, BudgetQuoteResult}
use ikimetr.Routing.Codes.{ApprovalScope}
use ikimetr.Routing.Policy.{
  RequestDataClass, PrimaryAgent, TaskRoutingRequest, Permitted, includes, route_rank,
  evaluate_route_policy, evaluate_route_policy_iff,
}
use ikimetr.Routing.State.{
  ProviderHealthState, EffectiveApprovalState, RoutingState, derive_routing_state, or_unknown,
  or_missing, scope_name, insufficiency_reason, has_route_insufficiency, get_approval_state,
}
use ikimetr.Routing.State.Latest.{
  latest_health, latest_approval, get_provider_health-latest, get_approval_state-latest,
}
use ikimetr.Routing.State.Failures.{Insufficient, has_route_insufficiency-none}
use ikimetr.Routing.Draft.{RoutingDecisionDraft}
use ikimetr.Routing.Router.{ProviderRoute, to_route, to_decision_route}
use ikimetr.Routing.Router.Approval.{
  route_scope, is_local_route, is_sensitive, is_claude_agent, scope_if, required_scopes,
}
use ikimetr.Routing.Router.Granted.{Granted}
use ikimetr.Routing.Router.Provider.{CostRouter, quote_request_of}
use ikimetr.Routing.Router.Cache.{RoutingRuntimeContext}
use ikimetr.Routing.Router.Evaluate.{is_strong, skip_route}
use ikimetr.Routing.Router.Choice.{Reached}

-- The last event of the ledger on the task and the scope approves.
abbrev pub Approved : List LedgerEvent → Text → ApprovalScope → Type 0
Approved file task scope =
    latest_approval task (scope_name scope) file ≡ some ApprovalDecision.approved

-- The approvals that a provider on a route takes.
pub record Approvals (router : CostRouter) (request : TaskRoutingRequest) (file : List LedgerEvent)
    (route : ProviderRoute) (provider : ProviderId) : Type 0 where
  pub local :
      route ≡ ProviderRoute.local
      → (router.config.routes (to_route route)).approval_required ≡ false
  pub cheap_cloud :
      route ≡ ProviderRoute.cheap_cloud
      → (router.config.routes (to_route route)).approval_required ≡ true
      → Approved file request.task_id ApprovalScope.cheap_cloud
  pub strong :
      route ≡ ProviderRoute.strong
      → (router.config.routes (to_route route)).approval_required ≡ true
      → Approved file request.task_id ApprovalScope.strong
  pub sensitive :
      request.data_class ≡ RequestDataClass.allowable DataClass.sensitive
      → route ≢ ProviderRoute.local
      → Approved file request.task_id ApprovalScope.sensitive_cloud
  pub secondary :
      provider ≡ ProviderId.claude
      → request.manual_primary_agent ≢ some PrimaryAgent.claude
      → Approved file request.task_id ApprovalScope.secondary_claude

-- The reason that an attempt on a route gives for going to the next.
abbrev pub escalation_text : ProviderRoute → Text
escalation_text ProviderRoute.local = text "local-insufficient"
escalation_text _ = text "cheap-insufficient"

-- What a decision that selects a provider of a route rests on.
pub record Chosen (router : CostRouter) (request : TaskRoutingRequest)
    (context : RoutingRuntimeContext) (file : List LedgerEvent) (d : RoutingDecisionDraft)
    (route : ProviderRoute) : Type 0 where
  pub provider : ProviderId
  pub candidate : d.provider_candidate ≡ some provider
  pub on_route : d.route ≡ some (to_decision_route route)
  pub listed : includes provider (router.config.routes (to_route route)).providers ≡ true
  pub asked : includes (to_route route) request.allowed_routes ≡ true
  pub ranked : route_rank (to_route route) ≤ route_rank request.max_route
  pub sufficient :
      route ≢ ProviderRoute.strong
      → All
          (λ a.
            ¬ Insufficient
              (to_route route)
              (router.hashing.hash_request request)
              (escalation_text route)
              a)
          (derive_routing_state file request.task_id).attempts
  pub permitted : Permitted (router.config.providers provider) request provider
  pub model : Text
  pub has_model : (router.config.providers provider).model ≡ some model
  pub healthy : or_unknown (latest_health provider model file) ≡ ProviderHealthState.healthy
  pub snapshot : PricingSnapshot
  pub listed_price : find_snapshot provider router.config.pricing_snapshots ≡ some snapshot
  pub known_price : snapshot.status ≡ PricingStatus.known
  pub pricing : ResolvedPricing
  pub resolved :
      resolve router.pricing (record {
        provider = provider;
        model = model;
        automatic = is_automatic (router.config.providers provider).invocation_mode;
        cloud = not (is_local provider);
      })
      ≡ ok pricing
  pub data_class : DataClass
  pub not_secret : request.data_class ≡ RequestDataClass.allowable data_class
  pub quoted : Quote
  pub budget :
      router.quote (
        quote_request_of router request context.retry context.estimated_input_tokens route
          data_class provider model)
      ≡ ok (BudgetQuoteResult.allowed quoted)
  pub approvals : Approvals router request file route provider

All-append {ℓ κ} : {A : Type ℓ} (P : A → Type κ) (l r : List A) → All P (l ++ r) → All P l × All P r
All-append P [] r h = (tt, h)
All-append P (x ∷ l) r (h, t) = let (a, b) = All-append P l r t in ((h, a), b)

scope_of :
    (file : List LedgerEvent) (task : Text) (b : Bool) (scope : ApprovalScope)
    → All (Granted (derive_routing_state file task)) (scope_if b (some scope))
    → b ≡ true
    → Approved file task scope
scope_of file task false scope h e = cc
scope_of file task true scope (g, _) e =
    let same : g.scope ≡ scope = cc (g.is_scope) in
    decided (latest_approval task (scope_name scope) file) (
      sym (get_approval_state-latest file task scope)
      ∙ ap (get_approval_state (derive_routing_state file task)) (sym same)
      ∙ g.approved)
  where
    decided :
        (o : Option ApprovalDecision)
        → or_missing o ≡ EffectiveApprovalState.decided ApprovalDecision.approved
        → o ≡ some ApprovalDecision.approved
    decided none q = cc
    decided (some d) q = cc

no_scope : (state : RoutingState) (b : Bool) → All (Granted state) (scope_if b none) → b ≡ false
no_scope state false h = refl
no_scope state true (g, _) = absurd (cc (g.is_scope))

not_local : (route : ProviderRoute) → route ≢ ProviderRoute.local → is_local_route route ≡ false
not_local ProviderRoute.local h = absurd (h refl)
not_local ProviderRoute.cheap_cloud h = refl
not_local ProviderRoute.strong h = refl

not_claude : (o : Option PrimaryAgent) → o ≢ some PrimaryAgent.claude → is_claude_agent o ≡ false
not_claude none h = refl
not_claude (some PrimaryAgent.claude) h = absurd (h refl)
not_claude (some PrimaryAgent.codex) h = refl

required_scopes-Approvals :
    (router : CostRouter) (request : TaskRoutingRequest) (file : List LedgerEvent)
    (route : ProviderRoute) (provider : ProviderId)
    → All
        (Granted (derive_routing_state file request.task_id))
        (required_scopes router.config request route provider)
    → Approvals router request file route provider
unfolding required_scopes
required_scopes-Approvals router request file route provider h =
    let task = request.task_id in
    let state = derive_routing_state file task in
    let required = (router.config.routes (to_route route)).approval_required in
    let class = is_sensitive request.data_class && not (is_local_route route) in
    let other =
      provider == ProviderId.claude && not (is_claude_agent request.manual_primary_agent) in
    let (own, rest) = All-append (Granted state) (scope_if required (route_scope route)) _ h in
    let (cloud, second) =
      All-append (Granted state) (scope_if class (some ApprovalScope.sensitive_cloud)) _ rest in
    record {
      local = λ e.
          no_scope state required
            (subst (λ r. All (Granted state) (scope_if required (route_scope r))) e own);
      cheap_cloud = λ e.
          scope_of file task required ApprovalScope.cheap_cloud
            (subst (λ r. All (Granted state) (scope_if required (route_scope r))) e own);
      strong = λ e.
          scope_of file task required ApprovalScope.strong
            (subst (λ r. All (Granted state) (scope_if required (route_scope r))) e own);
      sensitive = λ e n.
          scope_of file task class ApprovalScope.sensitive_cloud cloud
            (rw (e, not_local route n) refl);
      secondary = λ e n.
          scope_of file task other ApprovalScope.secondary_claude second
            (rw (e, not_claude request.manual_primary_agent n) refl);
    }

-- A route that is tried is admitted, and not known to be insufficient.
tried_lem :
    (router : CostRouter) (request : TaskRoutingRequest) (state : RoutingState)
    (route : ProviderRoute)
    → skip_route router request state route ≡ none
    → ((evaluate_route_policy request (to_route route)).allowed ≡ true)
      × (is_strong route ≡ false
          → has_route_insufficiency state
              (to_route route)
              (some (router.hashing.hash_request request))
            ≡ false)
unfolding skip_route
tried_lem router request state route h = (ground arith, λ e. ground arith)

not_strong : (route : ProviderRoute) → route ≢ ProviderRoute.strong → is_strong route ≡ false
not_strong ProviderRoute.local h = refl
not_strong ProviderRoute.cheap_cloud h = refl
not_strong ProviderRoute.strong h = absurd (h refl)

escalation_lem :
    (route : ProviderRoute)
    → route ≢ ProviderRoute.strong
    → insufficiency_reason (to_route route) ≡ escalation_text route
escalation_lem ProviderRoute.local h = refl
escalation_lem ProviderRoute.cheap_cloud h = refl
escalation_lem ProviderRoute.strong h = absurd (h refl)

pub Reached-Chosen :
    (router : CostRouter) (request : TaskRoutingRequest) (context : RoutingRuntimeContext)
    (file : List LedgerEvent) (d : RoutingDecisionDraft) (route : ProviderRoute)
    → Reached router request context (derive_routing_state file request.task_id) d route
    → Chosen router request context file d route
Reached-Chosen router request context file d route r =
    let state = derive_routing_state file request.task_id in
    let s = r.selected in
    let (admitted, tried) = tried_lem router request state route r.tried in
    let (asked, ranked) = (evaluate_route_policy_iff request (to_route route)).0 admitted in
    record {
      provider = r.provider;
      candidate = r.candidate;
      on_route = r.on_route;
      listed = r.listed;
      asked = asked;
      ranked = ranked;
      sufficient = λ n.
          has_route_insufficiency-none state (to_route route) (router.hashing.hash_request request)
            (escalation_text route) (escalation_lem route n) (tried (not_strong route n));
      permitted = s.permitted;
      model = s.model;
      has_model = s.has_model;
      healthy =
          sym (get_provider_health-latest file request.task_id r.provider s.model) ∙ s.healthy;
      snapshot = s.snapshot;
      listed_price = s.listed_price;
      known_price = s.known_price;
      pricing = s.pricing;
      resolved = s.resolved;
      data_class = s.data_class;
      not_secret = s.not_secret;
      quoted = s.quoted;
      budget = s.budget;
      approvals = required_scopes-Approvals router request file route r.provider s.approvals;
    }
