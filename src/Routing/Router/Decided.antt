-- ===== src/Routing/Router/Decided.antt =====
-- cost-router.ts: the draft that an evaluation makes, from the cache to the last route.
use ikimetr.Prelude.{
  ◌≡◌, refl, inl, inr, true, false, Option, none, some, List, [], ◌∷◌, ◌++◌, Bool-cases,
  Option-cases,
}
use ikimetr.Config.{provider_id_Eq}
use ikimetr.LedgerEvents.{LedgerEvent}
use ikimetr.Routing.Codes.{ReasonCode, CacheStatus, PricingCheck}
use ikimetr.Routing.Policy.{TaskRoutingRequest, is_secret, is_deterministic_capability}
use ikimetr.Routing.State.{RoutingState, derive_routing_state, has_repeated_failure}
use ikimetr.Routing.Draft.{RoutingTransition}
use ikimetr.Routing.Router.{
  ProviderRoute, to_decision, stage_by_route, skipped, selected_draft, stop_draft_with, stop_draft,
}
use ikimetr.Routing.Router.Provider.{CostRouter, ProviderOutcome, evaluate_provider_route}
use ikimetr.Routing.Router.Cache.{
  CacheCompatibilityContext, hit_draft, RoutingRuntimeContext, VerifiedCacheLookup, Candidate,
  CacheOutcome, is_cache_context_compatible, evaluate_cache,
}
use ikimetr.Routing.Router.Evaluate.{
  skip_route, is_pricing_stop, final_stop, evaluate_routes, provider_routes, deterministic_draft,
  evaluate_after_cache, evaluate_draft,
}
use ikimetr.Routing.Router.Choice.{
  Reached, Justified, none_selected, Decides, evaluate_provider_route-Decides,
}

module _ (router : CostRouter) (request : TaskRoutingRequest) (context : RoutingRuntimeContext)
    (state : RoutingState) where
  final-Justified :
      (reason : ReasonCode) (pricing : PricingCheck) (cache : CacheStatus)
      (trace : List RoutingTransition)
      → Justified router request context state (final_stop cache reason pricing trace)
  unfolding stop_draft_with
  final-Justified reason pricing cache trace = none_selected router request context state _ refl

  module _ (route : ProviderRoute) (routes : List ProviderRoute) (last_reason : ReasonCode)
      (cache : CacheStatus) (trace : List RoutingTransition)
      (rest : (reason : ReasonCode) (next : List RoutingTransition)
        → Justified router request context state
            (evaluate_routes router request context state cache routes reason next)) where
    outcome-Justified :
        (o : ProviderOutcome)
        → evaluate_provider_route router request context.retry context.estimated_input_tokens state
            route cache request.data_class trace
          ≡ o
        → skip_route router request state route ≡ none
        → Decides router request context state o
        → Justified router request context state
            (evaluate_routes router request context state cache (route ∷ routes) last_reason trace)
    unfolding evaluate_routes
    outcome-Justified (ProviderOutcome.decided d) h tried j = rw (tried, h, evaluate_routes) j
    outcome-Justified (ProviderOutcome.passed reason pricing next) h tried j =
        elim (Bool-cases (is_pricing_stop route reason)) [
          | inl stop ↦
              rw (tried, h, stop, evaluate_routes) (final-Justified reason pricing cache next)
          | inr go ↦ rw (tried, h, go, evaluate_routes) (rest reason next)
        ]

    route-Justified :
        Justified router request context state
          (evaluate_routes router request context state cache (route ∷ routes) last_reason trace)
    unfolding evaluate_routes
    route-Justified = elim (Option-cases (skip_route router request state route)) [
      | inl tried ↦ outcome-Justified _ refl tried (
          evaluate_provider_route-Decides router request context state route cache trace tried
            request.data_class refl)
      | inr (reason, skip) ↦
          rw (skip, evaluate_routes)
            (rest reason (trace ++ skipped (stage_by_route route) reason ∷ []))
    ]

  evaluate_routes-Justified :
      (routes : List ProviderRoute) (last_reason : ReasonCode) (cache : CacheStatus)
      (trace : List RoutingTransition)
      → Justified router request context state
          (evaluate_routes router request context state cache routes last_reason trace)
  unfolding evaluate_routes
  evaluate_routes-Justified [] last_reason cache trace =
      final-Justified last_reason PricingCheck.not_applicable cache trace
  evaluate_routes-Justified (route ∷ routes) last_reason cache trace =
      route-Justified route routes last_reason cache trace
        (λ reason next. evaluate_routes-Justified routes reason cache next)

  evaluate_after_cache-Justified :
      (cache : CacheStatus) (trace : List RoutingTransition)
      → Justified router request context state
          (evaluate_after_cache router request context state cache trace)
  unfolding evaluate_after_cache selected_draft
  evaluate_after_cache-Justified cache trace =
      elim (Bool-cases (is_deterministic_capability request)) [
        | inl e ↦
            rw (e)
              (none_selected router request context state (deterministic_draft cache trace) refl)
        | inr e ↦
            elim (Bool-cases (
              has_repeated_failure state request.error_fingerprint request.current_diff_hash
                (some (router.hashing.hash_request request)))) [
                  | inl f ↦ rw (e, f) (final-Justified _ _ cache _)
                  | inr f ↦ rw (e, f) (evaluate_routes-Justified provider_routes _ cache _)
                ]
      ]

  abbrev CacheDecides : CacheOutcome → Type 0
  CacheDecides (CacheOutcome.decided d) = Justified router request context state d
  CacheDecides (CacheOutcome.passed status trace) = Unit

  answered-Decides :
      (trace : List RoutingTransition) (candidate : CacheCompatibilityContext)
      (rest : List Candidate) (status : CacheStatus) (answer : Option VerifiedCacheLookup)
      (events : List LedgerEvent)
      → ((next : CacheStatus) → CacheDecides (evaluate_cache request router.config trace rest next))
      → is_cache_context_compatible candidate request router.config ≡ true
      → CacheDecides
          (evaluate_cache request router.config trace ((candidate, answer, events) ∷ rest) status)
  unfolding evaluate_cache selected_draft stop_draft stop_draft_with
  answered-Decides trace candidate rest status none events next e =
      rw (e, evaluate_cache) (none_selected router request context state _ refl)
  answered-Decides trace candidate rest status (some (VerifiedCacheLookup.hit provider)) events next
        e =
      rw (e, evaluate_cache)
        (none_selected router request context state (hit_draft provider trace) refl)
  answered-Decides trace candidate rest status (some VerifiedCacheLookup.quarantined) events next
        e =
      rw (e, evaluate_cache) (none_selected router request context state _ refl)
  answered-Decides trace candidate rest status (some VerifiedCacheLookup.invalidated) events next
        e =
      rw (e, evaluate_cache) (next CacheStatus.invalidated)
  answered-Decides trace candidate rest status (some VerifiedCacheLookup.miss) events next e =
      rw (e, evaluate_cache) (next status)

  evaluate_cache-Decides :
      (trace : List RoutingTransition) (candidates : List Candidate) (status : CacheStatus)
      → CacheDecides (evaluate_cache request router.config trace candidates status)
  unfolding evaluate_cache stop_draft stop_draft_with
  evaluate_cache-Decides trace [] status = tt
  evaluate_cache-Decides trace ((candidate, answer, events) ∷ rest) status =
      elim (Bool-cases (is_cache_context_compatible candidate request router.config)) [
        | inl e ↦
            answered-Decides trace candidate rest status answer events
              (λ next. evaluate_cache-Decides trace rest next) e
        | inr e ↦ rw (e, evaluate_cache) (none_selected router request context state _ refl)
      ]

  outcome-Decides :
      (o : CacheOutcome) (events : List LedgerEvent)
      → state ≡ derive_routing_state events request.task_id
      → is_secret request.data_class ≡ false
      → evaluate_cache request router.config [] context.cache_candidates CacheStatus.miss ≡ o
      → CacheDecides o
      → Justified router request context state (evaluate_draft router request context events)
  unfolding evaluate_draft
  outcome-Decides (CacheOutcome.decided d) events same allowed h j =
      rw (allowed, h, evaluate_draft) j
  outcome-Decides (CacheOutcome.passed status trace) events same allowed h j =
      rw (allowed, h, evaluate_draft, ← same) (evaluate_after_cache-Justified status trace)

-- A draft that selects a provider of a route rests on the tests of that provider.
pub evaluate_draft-Reached :
    (router : CostRouter) (request : TaskRoutingRequest) (context : RoutingRuntimeContext)
    (events : List LedgerEvent) (route : ProviderRoute)
    → (evaluate_draft router request context events).decision ≡ to_decision route
    → Reached router request context
        (derive_routing_state events request.task_id)
        (evaluate_draft router request context events)
        route
unfolding evaluate_draft stop_draft stop_draft_with
evaluate_draft-Reached router request context events route =
    elim (Bool-cases (is_secret request.data_class)) [
      | inl e ↦ rw (e, evaluate_draft) (none_selected router request context _ _ refl route)
      | inr e ↦
          outcome-Decides router request context (derive_routing_state events request.task_id) _
            events refl e refl
            (evaluate_cache-Decides router request context _ [] context.cache_candidates
              CacheStatus.miss)
            route
    ]
