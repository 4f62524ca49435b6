-- ===== src/Routing/Router/Choice.antt =====
-- cost-router.ts: the choice of a provider over the routes and over their providers.
use mathlib.Core.Path.{subst}
use ikimetr.Prelude.{
  ◌≡◌, refl, sym, ◌∙◌, ap, arith, inl, inr, Bool, true, false, none, some, List, [], ◌∷◌, ◌++◌, ok,
  err, Result-cases,
}
use ikimetr.Config.{ProviderId, DataClass, provider_id_Eq, provider_id_eq_iff}
use ikimetr.Routing.Codes.{Decision, ReasonCode, CacheStatus, PricingCheck}
use ikimetr.Routing.Policy.{RequestDataClass, TaskRoutingRequest, includes}
use ikimetr.Routing.State.{RoutingState}
use ikimetr.Routing.Draft.{RoutingTransition, RoutingDecisionDraft}
use ikimetr.Routing.Router.{
  ProviderRoute, to_route, to_decision, to_decision_route, stage_by_route, skipped, selected_draft,
  stop_draft_with, stop_draft,
}
use ikimetr.Routing.Router.Provider.{
  CostRouter, Rejection, ProviderOutcome, evaluate_provider, exhausted, try_providers,
  evaluate_provider_route,
}
use ikimetr.Routing.Router.Cache.{RoutingRuntimeContext}
use ikimetr.Routing.Router.Evaluate.{skip_route}
use ikimetr.Routing.Router.Outcomes.{Errs, evaluate_provider-Errs}
use ikimetr.Routing.Router.Selected.{Selected, evaluate_provider-Selected}

-- What a draft that selects a provider of a route rests on.
pub record Reached (router : CostRouter) (request : TaskRoutingRequest)
    (context : RoutingRuntimeContext) (state : RoutingState) (d : RoutingDecisionDraft)
    (route : ProviderRoute) : Type 0 where
  pub provider : ProviderId
  pub candidate : d.provider_candidate ≡ some provider
  pub on_route : d.route ≡ some (to_decision_route route)
  pub listed : includes provider (router.config.routes (to_route route)).providers ≡ true
  pub tried : skip_route router request state route ≡ none
  pub selected :
      Selected router request context.retry context.estimated_input_tokens state route provider

to_decision_injective : (r s : ProviderRoute) → to_decision r ≡ to_decision s → r ≡ s
to_decision_injective ProviderRoute.local ProviderRoute.local h = refl
to_decision_injective ProviderRoute.local ProviderRoute.cheap_cloud h = cc
to_decision_injective ProviderRoute.local ProviderRoute.strong h = cc
to_decision_injective ProviderRoute.cheap_cloud ProviderRoute.local h = cc
to_decision_injective ProviderRoute.cheap_cloud ProviderRoute.cheap_cloud h = refl
to_decision_injective ProviderRoute.cheap_cloud ProviderRoute.strong h = cc
to_decision_injective ProviderRoute.strong ProviderRoute.local h = cc
to_decision_injective ProviderRoute.strong ProviderRoute.cheap_cloud h = cc
to_decision_injective ProviderRoute.strong ProviderRoute.strong h = refl

abbrev selects_none : Decision → Bool
selects_none Decision.local = false
selects_none Decision.cheap_cloud = false
selects_none Decision.strong = false
selects_none _ = true

to_decision-selects : (r : ProviderRoute) → selects_none (to_decision r) ≡ false
to_decision-selects ProviderRoute.local = refl
to_decision-selects ProviderRoute.cheap_cloud = refl
to_decision-selects ProviderRoute.strong = refl

module _ (router : CostRouter) (request : TaskRoutingRequest) (context : RoutingRuntimeContext)
    (state : RoutingState) where
  abbrev pub Justified : RoutingDecisionDraft → Type 0
  Justified d =
      (route : ProviderRoute)
      → d.decision ≡ to_decision route
      → Reached router request context state d route

  pub none_selected : (d : RoutingDecisionDraft) → selects_none d.decision ≡ true → Justified d
  none_selected d h route e = absurd (cc (h, ap selects_none e, to_decision-selects route))

  abbrev pub Decides : ProviderOutcome → Type 0
  Decides (ProviderOutcome.decided d) = Justified d
  Decides (ProviderOutcome.passed reason pricing trace) = Unit

  module _ (route : ProviderRoute) (cache : CacheStatus) (data_class : DataClass)
      (class : request.data_class ≡ RequestDataClass.allowable data_class)
      (tried : skip_route router request state route ≡ none) where
    selection-Justified :
        (trace : List RoutingTransition) (id : ProviderId) (d : RoutingDecisionDraft)
        → includes id (router.config.routes (to_route route)).providers ≡ true
        → evaluate_provider router request context.retry context.estimated_input_tokens state route
            cache data_class trace id
          ≡ ok d
        → Justified d
    unfolding selected_draft
    selection-Justified trace id d listed h other same =
        let (selected, e) =
          evaluate_provider-Selected router request context.retry context.estimated_input_tokens
            state route cache data_class trace id d class h in
        subst (Reached router request context state d)
          (to_decision_injective route other
            (sym (ap (λ (x : RoutingDecisionDraft). x.decision) e) ∙ same))
          (record {
            provider = id;
            candidate = ap (λ (x : RoutingDecisionDraft). x.provider_candidate) e;
            on_route = ap (λ (x : RoutingDecisionDraft). x.route) e;
            listed = listed;
            tried = tried;
            selected = selected;
          })

    exhausted-Decides :
        (saw : Bool) (last_reason : ReasonCode) (pricing : PricingCheck)
        (trace : List RoutingTransition)
        → Decides (
            exhausted router request context.retry context.estimated_input_tokens state route cache
              saw last_reason pricing trace)
    unfolding exhausted
    exhausted-Decides true last_reason pricing trace = tt
    exhausted-Decides false last_reason pricing trace = tt

    rejection-Justified :
        (trace : List RoutingTransition) (id : ProviderId) (d : RoutingDecisionDraft)
        → evaluate_provider router request context.retry context.estimated_input_tokens state route
            cache data_class trace id
          ≡ err (Rejection.decided d)
        → Justified d
    unfolding selected_draft stop_draft_with
    rejection-Justified trace id d h = decided (
        subst (Errs Justified) h (
          evaluate_provider-Errs Justified route cache trace id
            (λ reason budget approval. none_selected _ refl) (none_selected _ refl) router request
            context.retry context.estimated_input_tokens state data_class))
      where
        decided :
            Errs {X = RoutingDecisionDraft} Justified (err (Rejection.decided d)) → Justified d
        decided (Errs.rejected e j) = j

    module _ (id : ProviderId) (ids : List ProviderId) (last_reason : ReasonCode)
        (pricing : PricingCheck) (saw : Bool) (trace : List RoutingTransition)
        (listed : includes id (router.config.routes (to_route route)).providers ≡ true)
        (rest : (reason : ReasonCode) (status : PricingCheck) (failed : Bool)
          → Decides (
              try_providers router request context.retry context.estimated_input_tokens state route
                cache data_class ids reason status failed
                (trace ++ skipped (stage_by_route route) reason ∷ []))) where
      rejected-Decides :
          (r : Rejection)
          → evaluate_provider router request context.retry context.estimated_input_tokens state
              route cache data_class trace id
            ≡ err r
          → Decides (
              try_providers router request context.retry context.estimated_input_tokens state route
                cache data_class
                (id ∷ ids)
                last_reason
                pricing
                saw
                trace)
      unfolding try_providers
      rejected-Decides (Rejection.decided d) h =
          rw (h, try_providers) (rejection-Justified trace id d h)
      rejected-Decides (Rejection.skip reason) h = rw (h, try_providers) (rest reason pricing saw)
      rejected-Decides (Rejection.unpriced reason status) h =
          rw (h, try_providers) (rest reason status true)

      provider-Decides : Decides (
          try_providers router request context.retry context.estimated_input_tokens state route
            cache data_class
            (id ∷ ids)
            last_reason
            pricing
            saw
            trace)
      unfolding try_providers
      provider-Decides =
          elim (Result-cases (
            evaluate_provider router request context.retry context.estimated_input_tokens state
              route cache data_class trace id)) [
                | inl (d, h) ↦ rw (h, try_providers) (selection-Justified trace id d listed h)
                | inr (r, h) ↦ rejected-Decides r h
              ]

    try_providers-Decides :
        (ids : List ProviderId) (last_reason : ReasonCode) (pricing : PricingCheck) (saw : Bool)
        (trace : List RoutingTransition)
        → ((id : ProviderId)
            → includes id ids ≡ true
            → includes id (router.config.routes (to_route route)).providers ≡ true)
        → Decides (
            try_providers router request context.retry context.estimated_input_tokens state route
              cache data_class ids last_reason pricing saw trace)
    unfolding try_providers
    try_providers-Decides [] last_reason pricing saw trace sub =
        exhausted-Decides saw last_reason pricing trace
    try_providers-Decides (id ∷ ids) last_reason pricing saw trace sub =
        provider-Decides id ids last_reason pricing saw trace
          (sub id (ground (arith, (provider_id_eq_iff id id).1 refl)))
          (λ reason status failed.
            try_providers-Decides ids reason status failed _ (λ x e. sub x (ground arith)))

  pub evaluate_provider_route-Decides :
      (route : ProviderRoute) (cache : CacheStatus) (trace : List RoutingTransition)
      → skip_route router request state route ≡ none
      → (class : RequestDataClass) → request.data_class ≡ class
      → Decides (
          evaluate_provider_route router request context.retry context.estimated_input_tokens state
            route cache class trace)
  unfolding evaluate_provider_route stop_draft stop_draft_with
  evaluate_provider_route-Decides route cache trace tried RequestDataClass.secret e =
      none_selected _ refl
  evaluate_provider_route-Decides route cache trace tried (RequestDataClass.allowable c) e =
      try_providers-Decides route cache c e tried _ _ _ _ _ (λ id h. h)
