-- ===== src/Routing/Router/Valid.antt =====
-- cost-router.ts: the drafts of an evaluation are the ones that may be audited.
use mathlib.Core.Path.{subst}
use ikimetr.Prelude.{
  ℕ, suc, ◌+◌, ◌≤◌, ◌≡◌, refl, sym, arith, inl, inr, Bool, true, false, List, [], ◌∷◌, ◌++◌, length,
  ok, err, Result-cases,
}
use ikimetr.Config.{ProviderId, DataClass}
use ikimetr.Routing.Codes.{ReasonCode, CacheStatus, PricingCheck}
use ikimetr.Routing.Policy.{RequestDataClass, TaskRoutingRequest}
use ikimetr.Routing.State.{RoutingState}
use ikimetr.Routing.Draft.{TransitionOutcome, RoutingTransition, RoutingDecisionDraft, stage_rank}
use ikimetr.Routing.Router.{
  ProviderRoute, to_route, stage_by_route, transition, denied, skipped, selected_draft,
  stop_draft_with, stop_draft, unavailable_reason,
}
use ikimetr.Routing.Router.Provider.{
  CostRouter, Rejection, ProviderOutcome, stop_at, ask_approval, selection, evaluate_provider,
  exhausted, try_providers, evaluate_provider_route,
}
use ikimetr.Routing.Router.Cache.{RoutingRuntimeContext}
use ikimetr.Routing.Router.Trace.{Good, Good-mono, push, fits, Ready}
use ikimetr.Routing.Router.Outcomes.{Errs, evaluate_provider-Errs}
use ikimetr.Routing.Router.Selected.{evaluate_provider-Selected}

abbrev pub route_stage : ProviderRoute → ℕ
route_stage route = stage_rank (stage_by_route route)

pub route_stage-le : (route : ProviderRoute) → route_stage route ≤ 4
route_stage-le ProviderRoute.local = omega arith
route_stage-le ProviderRoute.cheap_cloud = omega arith
route_stage-le ProviderRoute.strong = omega arith

-- A draft that adds one transition to a trace.
pub Ready-push :
    (d : RoutingDecisionDraft) (k n : ℕ) (t : List RoutingTransition) (x : RoutingTransition)
    → fits d ≡ true
    → Good k n t
    → k ≤ stage_rank x.stage
    → stage_rank x.stage ≤ 4
    → n ≤ 30
    → d.transition_trace ≡ t ++ x ∷ []
    → Ready d
Ready-push d k n t x f g a b c e =
    Ready.unfinished f (subst (Good 4 31) (sym e) (Good-mono (push x g a) b (omega arith)))

pub Good-skipped :
    (route : ProviderRoute) (reason : ReasonCode) (k n m : ℕ) (t : List RoutingTransition)
    → Good k n t
    → k ≤ route_stage route
    → suc n ≤ m
    → Good (route_stage route) m (t ++ skipped (stage_by_route route) reason ∷ [])
Good-skipped route reason k n m t g a b =
    Good-mono (push (skipped (stage_by_route route) reason) g a) (omega arith) b

selection-fits :
    (router : CostRouter) (request : TaskRoutingRequest) (retry : Bool) (tokens : ℕ)
    (state : RoutingState) (route : ProviderRoute) (cache : CacheStatus)
    (trace : List RoutingTransition) (id : ProviderId)
    → fits (selection router request retry tokens state route cache trace id) ≡ true
unfolding selected_draft
selection-fits router request retry tokens state ProviderRoute.local cache trace id = refl
selection-fits router request retry tokens state ProviderRoute.cheap_cloud cache trace id = refl
selection-fits router request retry tokens state ProviderRoute.strong cache trace id = refl

asking-fits :
    (route : ProviderRoute) (cache : CacheStatus) (trace : List RoutingTransition) (id : ProviderId)
    → fits (ask_approval route cache trace id) ≡ true
unfolding selected_draft
asking-fits ProviderRoute.local cache trace id = refl
asking-fits ProviderRoute.cheap_cloud cache trace id = refl
asking-fits ProviderRoute.strong cache trace id = refl

-- A decided draft is ready; otherwise the trace goes on, at most `m` long.
abbrev pub ReadyOutcome : ProviderRoute → ℕ → ProviderOutcome → Type 0
ReadyOutcome route m (ProviderOutcome.decided d) = Ready d
ReadyOutcome route m (ProviderOutcome.passed reason pricing next) = Good (route_stage route) m next

module _ (router : CostRouter) (request : TaskRoutingRequest) (context : RoutingRuntimeContext)
    (state : RoutingState) (cache : CacheStatus) where
  module _ (route : ProviderRoute) (data_class : DataClass)
      (class : request.data_class ≡ RequestDataClass.allowable data_class) where
    selection-Ready :
        (trace : List RoutingTransition) (id : ProviderId) (d : RoutingDecisionDraft) (k n : ℕ)
        → evaluate_provider router request context.retry context.estimated_input_tokens state route
            cache data_class trace id
          ≡ ok d
        → Good k n trace
        → k ≤ route_stage route
        → n ≤ 30
        → Ready d
    unfolding selected_draft
    selection-Ready trace id d k n h g a b =
        let (_, e) =
          evaluate_provider-Selected router request context.retry context.estimated_input_tokens
            state route cache data_class trace id d class h in
        let made =
          selection router request context.retry context.estimated_input_tokens state route cache
            trace id in
        subst Ready (sym e) (
          Ready-push made k n trace
            (transition (stage_by_route route) TransitionOutcome.selected ReasonCode.route_selected)
            (selection-fits router request context.retry context.estimated_input_tokens state route
              cache trace id)
            g a (route_stage-le route) b refl)

    rejection-Ready :
        (trace : List RoutingTransition) (id : ProviderId) (d : RoutingDecisionDraft) (k n : ℕ)
        → evaluate_provider router request context.retry context.estimated_input_tokens state route
            cache data_class trace id
          ≡ err (Rejection.decided d)
        → Good k n trace
        → k ≤ route_stage route
        → n ≤ 30
        → Ready d
    unfolding selected_draft stop_draft_with
    rejection-Ready trace id d k n h g a b = decided (
        subst (Errs Ready) h (
          evaluate_provider-Errs Ready route cache trace id
            (λ reason budget approval.
              Ready-push (stop_at route cache trace id reason budget approval) k n trace
                (denied (stage_by_route route) reason) refl g a (route_stage-le route) b refl)
            (Ready-push (ask_approval route cache trace id) k n trace
              (denied (stage_by_route route) ReasonCode.approval_required)
              (asking-fits route cache trace id) g a (route_stage-le route) b refl)
            router request context.retry context.estimated_input_tokens state data_class))
      where
        decided : Errs {X = RoutingDecisionDraft} Ready (err (Rejection.decided d)) → Ready d
        decided (Errs.rejected e j) = j

    exhausted-Ready :
        (saw : Bool) (last_reason : ReasonCode) (pricing : PricingCheck)
        (trace : List RoutingTransition) (k n m : ℕ)
        → Good k n trace
        → k ≤ route_stage route
        → suc n ≤ m
        → ReadyOutcome route m (
            exhausted router request context.retry context.estimated_input_tokens state route cache
              saw last_reason pricing trace)
    unfolding exhausted
    exhausted-Ready true last_reason pricing trace k n m g a b = Good-mono g a (omega arith)
    exhausted-Ready false last_reason pricing trace k n m g a b =
        Good-skipped route (unavailable_reason route) k n m trace g a b

    module _ (id : ProviderId) (ids : List ProviderId) (last_reason : ReasonCode)
        (pricing : PricingCheck) (saw : Bool) (trace : List RoutingTransition) (k n m : ℕ)
        (g : Good k n trace) (a : k ≤ route_stage route) (b : n ≤ 30)
        (rest : (reason : ReasonCode) (status : PricingCheck) (failed : Bool)
          → ReadyOutcome route m (
              try_providers router request context.retry context.estimated_input_tokens state route
                cache data_class ids reason status failed
                (trace ++ skipped (stage_by_route route) reason ∷ []))) where
      rejected-Ready :
          (r : Rejection)
          → evaluate_provider router request context.retry context.estimated_input_tokens state
              route cache data_class trace id
            ≡ err r
          → ReadyOutcome route m (
              try_providers router request context.retry context.estimated_input_tokens state route
                cache data_class
                (id ∷ ids)
                last_reason
                pricing
                saw
                trace)
      unfolding try_providers
      rejected-Ready (Rejection.decided d) h =
          rw (h, try_providers) (rejection-Ready trace id d k n h g a b)
      rejected-Ready (Rejection.skip reason) h = rw (h, try_providers) (rest reason pricing saw)
      rejected-Ready (Rejection.unpriced reason status) h =
          rw (h, try_providers) (rest reason status true)

      provider-Ready : ReadyOutcome route m (
          try_providers router request context.retry context.estimated_input_tokens state route
            cache data_class
            (id ∷ ids)
            last_reason
            pricing
            saw
            trace)
      unfolding try_providers
      provider-Ready =
          elim (Result-cases (
            evaluate_provider router request context.retry context.estimated_input_tokens state
              route cache data_class trace id)) [
                | inl (d, h) ↦ rw (h, try_providers) (selection-Ready trace id d k n h g a b)
                | inr (r, h) ↦ rejected-Ready r h
              ]

    try_providers-Ready :
        (ids : List ProviderId) (last_reason : ReasonCode) (pricing : PricingCheck) (saw : Bool)
        (trace : List RoutingTransition) (k n m : ℕ)
        → Good k n trace
        → k ≤ route_stage route
        → suc (n + length ids) ≤ m
        → m ≤ 31
        → ReadyOutcome route m (
            try_providers router request context.retry context.estimated_input_tokens state route
              cache data_class ids last_reason pricing saw trace)
    unfolding try_providers
    try_providers-Ready [] last_reason pricing saw trace k n m g a b c =
        exhausted-Ready saw last_reason pricing trace k n m g a (omega arith)
    try_providers-Ready (id ∷ ids) last_reason pricing saw trace k n m g a b c =
        provider-Ready id ids last_reason pricing saw trace k n m g a (omega arith)
          (λ reason status failed.
            try_providers-Ready ids reason status failed _ (route_stage route) (suc n) m
              (Good-skipped route reason k n (suc n) trace g a (omega arith)) (omega arith)
              (omega arith) c)

  pub evaluate_provider_route-Ready :
      (route : ProviderRoute) (trace : List RoutingTransition) (k n m : ℕ)
      → length (router.config.routes (to_route route)).providers ≤ 2
      → Good k n trace
      → k ≤ route_stage route
      → 3 + n ≤ m
      → m ≤ 31
      → (class : RequestDataClass) → request.data_class ≡ class
      → ReadyOutcome route m (
          evaluate_provider_route router request context.retry context.estimated_input_tokens state
            route cache class trace)
  unfolding evaluate_provider_route stop_draft stop_draft_with
  evaluate_provider_route-Ready route trace k n m two g a b c RequestDataClass.secret e =
      Ready-push
        (stop_draft ReasonCode.secret_data_denied cache
          (trace ++ denied (stage_by_route route) ReasonCode.secret_data_denied ∷ []))
        k n trace (denied (stage_by_route route) ReasonCode.secret_data_denied) refl g a
        (route_stage-le route) (omega arith) refl
  evaluate_provider_route-Ready route trace k n m two g a b c (RequestDataClass.allowable d) e =
      try_providers-Ready route d e _ _ _ _ trace k n m g a (omega arith) c
