-- ===== src/Routing/Router/Accepted.antt =====
-- cost-router.ts: every draft that an evaluation makes may be audited.
use ikimetr.Prelude.{
  ℕ, ◌+◌, ◌*◌, ◌≤◌, ◌≡◌, refl, arith, inl, inr, true, false, Option, none, some, List, [], ◌∷◌,
  ◌++◌, length, Bool-cases, Option-cases,
}
use ikimetr.Config.{ConfigSnapshot}
use ikimetr.LedgerEvents.{LedgerEvent}
use ikimetr.Routing.Codes.{ReasonCode, CacheStatus, PricingCheck}
use ikimetr.Routing.Policy.{TaskRoutingRequest, is_secret, is_deterministic_capability}
use ikimetr.Routing.State.{RoutingState, derive_routing_state, has_repeated_failure}
use ikimetr.Routing.Draft.{RoutingStage, TransitionOutcome, RoutingTransition}
use ikimetr.Routing.Router.{
  ProviderRoute, to_route, transition, denied, selected_draft, stop_draft_with, stop_draft,
}
use ikimetr.Routing.Router.Provider.{CostRouter, ProviderOutcome, evaluate_provider_route}
use ikimetr.Routing.Router.Cache.{
  CacheCompatibilityContext, RoutingRuntimeContext, VerifiedCacheLookup, Candidate, CacheOutcome,
  hit_draft, is_cache_context_compatible, evaluate_cache, cache_reason, cache_stop,
}
use ikimetr.Routing.Router.Evaluate.{
  skip_route, is_pricing_stop, final_stop, evaluate_routes, provider_routes, deterministic_draft,
  evaluate_after_cache, evaluate_draft,
}
use ikimetr.Routing.Router.Trace.{Good, Good-mono, no_trace-Good, push, Ready}
use ikimetr.Routing.Router.Valid.{
  route_stage, route_stage-le, Ready-push, Good-skipped, ReadyOutcome,
  evaluate_provider_route-Ready,
}

module _ (router : CostRouter) (request : TaskRoutingRequest) (context : RoutingRuntimeContext)
    (state : RoutingState) (cache : CacheStatus) where
  final-Ready :
      (reason : ReasonCode) (pricing : PricingCheck) (trace : List RoutingTransition)
      → Good 4 31 trace
      → Ready (final_stop cache reason pricing trace)
  unfolding stop_draft_with
  final-Ready reason pricing trace g = Ready.finished trace refl g refl

  module _ (route : ProviderRoute) (routes : List ProviderRoute) (last_reason : ReasonCode)
      (trace : List RoutingTransition) (m : ℕ) (short : m ≤ 31)
      (rest : (reason : ReasonCode) (next : List RoutingTransition)
        → Good (route_stage route) m next
        → Ready (evaluate_routes router request context state cache routes reason next)) where
    outcome-Ready :
        (o : ProviderOutcome)
        → evaluate_provider_route router request context.retry context.estimated_input_tokens state
            route cache request.data_class trace
          ≡ o
        → skip_route router request state route ≡ none
        → ReadyOutcome route m o
        → Ready
            (evaluate_routes router request context state cache (route ∷ routes) last_reason trace)
    unfolding evaluate_routes
    outcome-Ready (ProviderOutcome.decided d) h tried j = rw (tried, h, evaluate_routes) j
    outcome-Ready (ProviderOutcome.passed reason pricing next) h tried j =
        elim (Bool-cases (is_pricing_stop route reason)) [
          | inl stop ↦
              rw (tried, h, stop, evaluate_routes)
                (final-Ready reason pricing next (Good-mono j (route_stage-le route) short))
          | inr go ↦ rw (tried, h, go, evaluate_routes) (rest reason next j)
        ]

  -- The routes come in the order of their stages.
  abbrev Ascending : ℕ → List ProviderRoute → Type 0
  Ascending k [] = k ≤ 4
  Ascending k (route ∷ routes) = (k ≤ route_stage route) × Ascending (route_stage route) routes

  evaluate_routes-Ready :
      ((route : ProviderRoute) → length (router.config.routes (to_route route)).providers ≤ 2)
      → (routes : List ProviderRoute) (last_reason : ReasonCode) (trace : List RoutingTransition)
        (k n : ℕ)
      → Ascending k routes
      → Good k n trace
      → n + 3 * length routes ≤ 31
      → Ready (evaluate_routes router request context state cache routes last_reason trace)
  unfolding evaluate_routes
  evaluate_routes-Ready two [] last_reason trace k n asc g b =
      final-Ready last_reason PricingCheck.not_applicable trace (Good-mono g asc (omega arith))
  evaluate_routes-Ready two (route ∷ routes) last_reason trace k n (a, asc) g b =
      let rest =
        λ (reason : ReasonCode) (next : List RoutingTransition)
            (h : Good (route_stage route) (3 + n) next).
          evaluate_routes-Ready two routes reason next (route_stage route) (3 + n) asc h
            (omega arith) in
      elim (Option-cases (skip_route router request state route)) [
        | inl tried ↦
            outcome-Ready route routes last_reason trace (3 + n) (omega arith) rest _ refl tried (
              evaluate_provider_route-Ready router request context state cache route trace k n
                (3 + n) (two route) g a (omega arith) (omega arith) request.data_class refl)
        | inr (reason, skip) ↦
            rw (skip, evaluate_routes)
              (rest reason _ (Good-skipped route reason k n (3 + n) trace g a (omega arith)))
      ]

  after_cache-Ready :
      ((route : ProviderRoute) → length (router.config.routes (to_route route)).providers ≤ 2)
      → (trace : List RoutingTransition) → Good 0 1 trace
      → Ready (evaluate_after_cache router request context state cache trace)
  unfolding evaluate_after_cache selected_draft
  after_cache-Ready two trace g =
      let unresolved =
        transition RoutingStage.deterministic TransitionOutcome.continue
          ReasonCode.deterministic_unresolved in
      let next : Good 1 2 (trace ++ unresolved ∷ []) = push unresolved g (omega arith) in
      elim (Bool-cases (is_deterministic_capability request)) [
        | inl e ↦ rw (e) (
            Ready-push (deterministic_draft cache trace) 0 1 trace
              (transition RoutingStage.deterministic TransitionOutcome.selected
                ReasonCode.deterministic_capability)
              refl g (omega arith) (omega arith) (omega arith) refl)
        | inr e ↦
            elim (Bool-cases (
              has_repeated_failure state request.error_fingerprint request.current_diff_hash
                (some (router.hashing.hash_request request)))) [
                  | inl f ↦
                      rw (e, f) (final-Ready _ _ _ (Good-mono next (omega arith) (omega arith)))
                  | inr f ↦
                      rw (e, f)
                        (evaluate_routes-Ready two provider_routes _ _ 1 2
                          (omega arith, (omega arith, (omega arith, omega arith))) next
                          (omega arith))
                ]
      ]

abbrev ReadyCache : CacheOutcome → Type 0
ReadyCache (CacheOutcome.decided d) = Ready d
ReadyCache (CacheOutcome.passed status trace) = Good 0 1 trace

pub first_stop-Ready :
    (reason : ReasonCode) (cache : CacheStatus)
    → Ready (stop_draft reason cache (denied RoutingStage.cache reason ∷ []))
unfolding stop_draft stop_draft_with
first_stop-Ready reason cache =
    Ready-push (stop_draft reason cache (denied RoutingStage.cache reason ∷ [])) 0 0 []
      (denied RoutingStage.cache reason) refl no_trace-Good (omega arith) (omega arith)
      (omega arith) refl

cache_stop-Ready :
    (reason : ReasonCode) (status : CacheStatus) → ReadyCache (cache_stop reason status [])
cache_stop-Ready reason status = first_stop-Ready reason status

module _ (request : TaskRoutingRequest) (config : ConfigSnapshot) where
  answered-Ready :
      (candidate : CacheCompatibilityContext) (rest : List Candidate) (status : CacheStatus)
      (answer : Option VerifiedCacheLookup) (events : List LedgerEvent)
      → ((next : CacheStatus) → ReadyCache (evaluate_cache request config [] rest next))
      → is_cache_context_compatible candidate request config ≡ true
      → ReadyCache (evaluate_cache request config [] ((candidate, answer, events) ∷ rest) status)
  unfolding evaluate_cache selected_draft
  answered-Ready candidate rest status none events next e =
      rw (e, evaluate_cache) (cache_stop-Ready _ _)
  answered-Ready candidate rest status (some (VerifiedCacheLookup.hit provider)) events next e =
      rw (e, evaluate_cache)
        (Ready-push (hit_draft provider []) 0 0 []
          (transition RoutingStage.cache TransitionOutcome.selected ReasonCode.cache_hit) refl
          no_trace-Good (omega arith) (omega arith) (omega arith) refl)
  answered-Ready candidate rest status (some VerifiedCacheLookup.quarantined) events next e =
      rw (e, evaluate_cache) (cache_stop-Ready _ _)
  answered-Ready candidate rest status (some VerifiedCacheLookup.invalidated) events next e =
      rw (e, evaluate_cache) (next CacheStatus.invalidated)
  answered-Ready candidate rest status (some VerifiedCacheLookup.miss) events next e =
      rw (e, evaluate_cache) (next status)

  evaluate_cache-Ready :
      (candidates : List Candidate) (status : CacheStatus)
      → ReadyCache (evaluate_cache request config [] candidates status)
  unfolding evaluate_cache
  evaluate_cache-Ready [] status =
      push (transition RoutingStage.cache TransitionOutcome.continue (cache_reason status))
        no_trace-Good (omega arith)
  evaluate_cache-Ready ((candidate, answer, events) ∷ rest) status =
      elim (Bool-cases (is_cache_context_compatible candidate request config)) [
        | inl e ↦
            answered-Ready candidate rest status answer events
              (λ next. evaluate_cache-Ready rest next) e
        | inr e ↦ rw (e, evaluate_cache) (cache_stop-Ready _ _)
      ]

-- Every draft that an evaluation makes may be audited.
module _ (router : CostRouter) (request : TaskRoutingRequest) (context : RoutingRuntimeContext)
    (events : List LedgerEvent)
    (two : (route : ProviderRoute)
      → length (router.config.routes (to_route route)).providers ≤ 2) where
  outcome_of_cache-Ready :
      (o : CacheOutcome)
      → is_secret request.data_class ≡ false
      → evaluate_cache request router.config [] context.cache_candidates CacheStatus.miss ≡ o
      → ReadyCache o
      → Ready (evaluate_draft router request context events)
  unfolding evaluate_draft
  outcome_of_cache-Ready (CacheOutcome.decided d) allowed h j = rw (allowed, h, evaluate_draft) j
  outcome_of_cache-Ready (CacheOutcome.passed status trace) allowed h j =
      rw (allowed, h, evaluate_draft)
        (after_cache-Ready router request context (derive_routing_state events request.task_id)
          status two trace j)

  pub evaluate_draft-Ready : Ready (evaluate_draft router request context events)
  unfolding evaluate_draft stop_draft stop_draft_with
  evaluate_draft-Ready = elim (Bool-cases (is_secret request.data_class)) [
    | inl e ↦
        rw (e, evaluate_draft) (first_stop-Ready ReasonCode.secret_data_denied CacheStatus.skipped)
    | inr e ↦
        outcome_of_cache-Ready _ e refl
          (evaluate_cache-Ready request router.config context.cache_candidates CacheStatus.miss)
  ]
