-- ===== src/Routing/Router/Guarantees.antt =====
-- cost-router.ts: what the decisions of `evaluateInternal` guarantee.
use mathlib.Core.Path.{subst}
use ikimetr.Prelude.{
  ◌≡◌, ◌≢◌, refl, sym, ◌∙◌, ap, Option, none, some, List, [], ◌∷◌, ◌++◌, Text, ok, ok_injective,
}
use ikimetr.LedgerEvents.{LedgerEvent}
use ikimetr.Budget.Controller.Quote.{
  QuoteHash, Quote, BudgetQuoteResult, quote, quote_request, Quoted, quote-Quoted,
}
use ikimetr.Budget.Controller.{BudgetQuoteRequest}
use ikimetr.Budget.Prepare.{Setup, BudgetController, is_automatic}
use ikimetr.Routing.Codes.{Decision, ReasonCode, CacheStatus}
use ikimetr.Routing.Policy.{RequestDataClass, TaskRoutingRequest}
use ikimetr.Routing.State.{derive_routing_state}
use ikimetr.Routing.Draft.{RoutingDecisionDraft, RoutingStage, RoutingTransition}
use ikimetr.Routing.Decision.{RoutingDecision, parse_routing_decision, Keeps}
use ikimetr.Routing.Router.{
  ProviderRoute, to_route, to_decision, denied, stop_draft, stop_draft_with,
}
use ikimetr.Routing.Router.Provider.{CostRouter, quote_request_of}
use ikimetr.Routing.Router.Cache.{RoutingRuntimeContext}
use ikimetr.Routing.Router.Evaluate.{evaluate_draft}
use ikimetr.Routing.Router.Audit.{
  AuditAnswers, after_lookups, with_final_transition, decision_event, Evaluated, evaluate_internal,
}
use ikimetr.Routing.Router.Choice.{Reached}
use ikimetr.Routing.Router.Grounds.{Chosen, Reached-Chosen}
use ikimetr.Routing.Router.Decided.{evaluate_draft-Reached}
use ikimetr.Routing.Router.Evaluated.{SameChoice, with_final_transition-SameChoice, Audited}
use ikimetr.Routing.Router.Ends.{Configured, Run, evaluate_internal-Run}

module _ (router : CostRouter) (request : TaskRoutingRequest) (context : RoutingRuntimeContext)
    (answers : AuditAnswers) (file : List LedgerEvent) where
  abbrev Valid : Evaluated → Type 0
  Valid p =
      (r : RoutingDecision) × (p.1 ≡ ok r)
      × (parse_routing_decision router.hashing r ≡ ok r)
      × (r.config_hash ≡ router.effective_config_hash)
      × (r.request_hash ≡ router.hashing.hash_request request)

  Keeps-Valid :
      (next : List LedgerEvent) (d : RoutingDecisionDraft) (r : RoutingDecision)
      → Keeps router.hashing request d router.effective_config_hash r
      → Valid (next, ok r)
  Keeps-Valid next d r k = (r, refl, k.valid, k.config_hash, k.request_hash)

  Run-Valid : (p : Evaluated) → Run router request context answers file p → Valid p
  Run-Valid _ (Run.unaudited reason r k) = Keeps-Valid file _ r k
  Run-Valid _ (Run.audited _ (Audited.logged now r k)) =
      Keeps-Valid
        (after_lookups router request context file
          ++ LedgerEvent.routing_decision (decision_event router request answers.event_id now r)
            ∷ [])
        _ r k
  Run-Valid _ (Run.audited _ (Audited.refused next r s k l)) = Keeps-Valid next _ s l

  -- A decision in the ledger.
  pub record Logged (p : Evaluated) (r : RoutingDecision) : Type 0 where
    pub now : Text
    pub appended :
        p.0
        ≡ after_lookups router request context file
          ++ LedgerEvent.routing_decision (decision_event router request answers.event_id now r)
            ∷ []
    pub same_choice : SameChoice r.draft (evaluate_draft router request context file)

  stopped_here :
      (d : RoutingDecisionDraft) (r s : RoutingDecision)
      → Keeps router.hashing request d router.effective_config_hash s
      → d.decision ≡ Decision.stop
      → s ≡ r
      → r.draft.decision ≡ Decision.stop
  stopped_here d r s k stop same =
      ap (λ (x : RoutingDecision). x.draft.decision) (sym same)
      ∙ ap (λ (x : RoutingDecisionDraft). x.decision) k.draft
      ∙ stop

  first_stop :
      (reason : ReasonCode)
      → (with_final_transition
          (stop_draft reason CacheStatus.skipped (denied RoutingStage.cache reason ∷ []))).decision
        ≡ Decision.stop
  unfolding stop_draft stop_draft_with
  first_stop reason =
      (with_final_transition-SameChoice
        (stop_draft reason CacheStatus.skipped (denied RoutingStage.cache reason ∷ []))).decision

  Run-Logged :
      (p : Evaluated) (r : RoutingDecision)
      → Run router request context answers file p
      → p.1 ≡ ok r
      → r.draft.decision ≢ Decision.stop
      → Logged p r
  Run-Logged _ r (Run.unaudited reason s k) h n =
      absurd (n (stopped_here _ r s k (first_stop reason) (ok_injective h)))
  Run-Logged _ r (Run.audited _ (Audited.refused next x s k l)) h n =
      absurd (n (stopped_here _ r s l refl (ok_injective h)))
  Run-Logged _ r (Run.audited _ (Audited.logged now s k)) h n =
      let e = ok_injective h in
      let kept =
        subst
          (Keeps router.hashing request
            (with_final_transition (evaluate_draft router request context file))
            router.effective_config_hash)
          e k in
      record {
        now = now;
        appended =
            ap
              (λ x.
                after_lookups router request context file
                ++ LedgerEvent.routing_decision
                    (decision_event router request answers.event_id now x)
                  ∷ [])
              e;
        same_choice =
            subst (λ x. SameChoice x (evaluate_draft router request context file)) (sym kept.draft)
              (with_final_transition-SameChoice (evaluate_draft router request context file));
      }

  -- An evaluation always returns a decision, and one that passes its own validation: the trace
  -- is in order and ends at the final stage with the reason of the decision, and the hashes are
  -- those of the request, of the configuration and of the decision. The routes have at most two
  -- providers each, and the hash of the configuration is a SHA-256.
  pub evaluate_internal_valid :
      Configured router
      → (r : RoutingDecision) × ((evaluate_internal router request context answers file).1 ≡ ok r)
        × (parse_routing_decision router.hashing r ≡ ok r)
        × (r.config_hash ≡ router.effective_config_hash)
        × (r.request_hash ≡ router.hashing.hash_request request)
  evaluate_internal_valid configured =
      Run-Valid _ (evaluate_internal-Run router request context answers file configured)

  pub evaluate_internal-Logged :
      (r : RoutingDecision)
      → Configured router
      → (evaluate_internal router request context answers file).1 ≡ ok r
      → r.draft.decision ≢ Decision.stop
      → Logged (evaluate_internal router request context answers file) r
  evaluate_internal-Logged r configured h n =
      Run-Logged _ r (evaluate_internal-Run router request context answers file configured) h n

  to_decision-not_stop : (route : ProviderRoute) → to_decision route ≢ Decision.stop
  to_decision-not_stop ProviderRoute.local = λ h. cc
  to_decision-not_stop ProviderRoute.cheap_cloud = λ h. cc
  to_decision-not_stop ProviderRoute.strong = λ h. cc

  evaluate_internal-Reached :
      (r : RoutingDecision) (route : ProviderRoute)
      → Configured router
      → (evaluate_internal router request context answers file).1 ≡ ok r
      → r.draft.decision ≡ to_decision route
      → Reached router request context (derive_routing_state file request.task_id) r.draft route
  evaluate_internal-Reached r route configured h same =
      let logged =
        evaluate_internal-Logged r configured h
          (λ stop. to_decision-not_stop route (sym same ∙ stop)) in
      let choice = logged.same_choice in
      let chosen =
        evaluate_draft-Reached router request context file route (sym choice.decision ∙ same) in
      record {
        provider = chosen.provider;
        candidate = choice.provider ∙ chosen.candidate;
        on_route = choice.route ∙ chosen.on_route;
        listed = chosen.listed;
        tried = chosen.tried;
        selected = chosen.selected;
      }

  -- A returned decision for a route names a provider that is listed for the route. The request
  -- lists the route and ranks it no higher than its highest one, and, but for the strong route,
  -- no failed attempt of the request on it asked to escalate. The policy permits the provider,
  -- it has a model, the last event of the ledger on both reports it healthy, its price is known
  -- and resolved, and the budget controller allowed a quote for the task. The last event of the
  -- ledger on each approval that the route, sensitive data off the local route and a secondary
  -- claude take approves. The routes have at most two providers each, and the hash of the
  -- configuration is a SHA-256.
  pub evaluate_internal-Chosen :
      (r : RoutingDecision) (route : ProviderRoute)
      → Configured router
      → (evaluate_internal router request context answers file).1 ≡ ok r
      → r.draft.decision ≡ to_decision route
      → Chosen router request context file r.draft route
  evaluate_internal-Chosen r route configured h same =
      Reached-Chosen router request context file r.draft route
        (evaluate_internal-Reached r route configured h same)

  -- A decision that stops and names no provider.
  abbrev Stopped : RoutingDecisionDraft → Type 0
  Stopped d = (d.decision ≡ Decision.stop) × (d.provider_candidate ≡ none)

  stop_draft-Stopped :
      (reason : ReasonCode) (trace : List RoutingTransition)
      → Stopped (with_final_transition (stop_draft reason CacheStatus.skipped trace))
  unfolding stop_draft stop_draft_with
  stop_draft-Stopped reason trace =
      let same = with_final_transition-SameChoice (stop_draft reason CacheStatus.skipped trace) in
      (same.decision, same.provider)

  secret-Stopped :
      request.data_class ≡ RequestDataClass.secret
      → Stopped (with_final_transition (evaluate_draft router request context file))
  unfolding evaluate_draft
  secret-Stopped h =
      rw (h, evaluate_draft)
        (stop_draft-Stopped ReasonCode.secret_data_denied
          (denied RoutingStage.cache ReasonCode.secret_data_denied ∷ []))

  Run-Stopped :
      (p : Evaluated)
      → Run router request context answers file p
      → request.data_class ≡ RequestDataClass.secret
      → (r : RoutingDecision) × (p.1 ≡ ok r) × Stopped r.draft
  Run-Stopped _ (Run.unaudited reason r k) h =
      (r, refl, subst Stopped (sym k.draft) (stop_draft-Stopped reason _))
  Run-Stopped _ (Run.audited _ (Audited.logged now r k)) h =
      (r, refl, subst Stopped (sym k.draft) (secret-Stopped h))
  Run-Stopped _ (Run.audited _ (Audited.refused next r s k l)) h =
      (s, refl, subst Stopped (sym l.draft) (refl, refl))

  -- The evaluation of a request with secret data returns a stop that names no provider, whatever
  -- the ledger holds and however the audit ends. The routes have at most two providers each, and
  -- the hash of the configuration is a SHA-256.
  pub evaluate_internal_secret :
      Configured router
      → request.data_class ≡ RequestDataClass.secret
      → (r : RoutingDecision) × ((evaluate_internal router request context answers file).1 ≡ ok r)
        × (r.draft.decision ≡ Decision.stop)
        × (r.draft.provider_candidate ≡ none)
  evaluate_internal_secret configured h =
      let (r, e, (stop, provider)) =
        Run-Stopped _ (evaluate_internal-Run router request context answers file configured) h in
      (r, e, stop, provider)

-- What the budget controller is asked for a route.
pub record Asked (router : CostRouter) (request : TaskRoutingRequest)
    (context : RoutingRuntimeContext) (route : ProviderRoute) (q : BudgetQuoteRequest)
    : Type 0 where
  pub task_id : q.task_id ≡ request.task_id
  pub asked_route : q.route ≡ to_route route
  pub model : (router.config.providers q.provider).model ≡ some q.model
  pub data_class : request.data_class ≡ RequestDataClass.allowable q.data_class
  pub automatic : q.automatic ≡ is_automatic (router.config.providers q.provider).invocation_mode
  pub retry : q.retry ≡ context.retry
  pub tokens : q.estimated_input_tokens ≡ context.estimated_input_tokens

-- Where the router asks the budget controller for its quotes, a returned decision for a route
-- comes with a quote that the controller allowed for the task, the route, the provider and its
-- model, the data class, the retry and the tokens of the request. The quote describes a
-- reservation that carries the request, passes every admission check and would keep the sums
-- over the ledger within every limit, with the whole of a cost in the currency of its limit. The
-- routes have at most two providers each, and the hash of the configuration is a SHA-256.
pub evaluate_internal-Quoted :
    (router : CostRouter) (request : TaskRoutingRequest) (context : RoutingRuntimeContext)
    (answers : AuditAnswers) (file : List LedgerEvent) (hash : QuoteHash) (setup : Setup)
    (now : Option Text) (c : BudgetController) (r : RoutingDecision) (route : ProviderRoute)
    → Configured router
    → router.quote ≡ (λ q. quote hash setup now q c)
    → (evaluate_internal router request context answers file).1 ≡ ok r
    → r.draft.decision ≡ to_decision route
    → (q : BudgetQuoteRequest) × (offer : Quote) × (r.draft.provider_candidate ≡ some q.provider)
      × Asked router request context route q
      × (quote hash setup now q c ≡ ok (BudgetQuoteResult.allowed offer))
      × Quoted setup (quote_request hash setup q c) q.route c offer
evaluate_internal-Quoted router request context answers file hash setup now c r route configured
      same h d =
    let chosen =
      evaluate_internal-Chosen router request context answers file r route configured h d in
    let q =
      quote_request_of router request context.retry context.estimated_input_tokens route
        chosen.data_class chosen.provider chosen.model in
    let offered = ap (λ f. f q) (sym same) ∙ chosen.budget in
    (
      q,
      chosen.quoted,
      chosen.candidate,
      record {
        task_id = refl;
        asked_route = refl;
        model = chosen.has_model;
        data_class = chosen.not_secret;
        automatic = refl;
        retry = refl;
        tokens = refl;
      },
      offered,
      quote-Quoted hash setup now q c chosen.quoted offered,
    )
