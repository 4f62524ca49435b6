-- ===== src/Routing/Router/Ends.antt =====
-- cost-router.ts: the ways in which `evaluateInternal` ends.
use ikimetr.Prelude.{◌≤◌, ◌≡◌, inl, inr, true, false, List, [], ◌∷◌, length, ok, Bool-cases}
use ikimetr.LedgerEvents.{LedgerEvent, is_sha256_hex}
use ikimetr.Routing.Codes.{ReasonCode, CacheStatus}
use ikimetr.Routing.Policy.{TaskRoutingRequest}
use ikimetr.Routing.Draft.{RoutingStage}
use ikimetr.Routing.Decision.{
  RoutingDecision, create_routing_decision-ok, Keeps, create_routing_decision-Keeps,
}
use ikimetr.Routing.Router.{ProviderRoute, to_route, denied, stop_draft}
use ikimetr.Routing.Router.Provider.{CostRouter}
use ikimetr.Routing.Router.Cache.{RoutingRuntimeContext}
use ikimetr.Routing.Router.Evaluate.{evaluate_draft}
use ikimetr.Routing.Router.Audit.{
  AuditAnswers, with_final_transition, after_lookups, Evaluated, audit, create_stop_without_audit,
  evaluate_internal,
}
use ikimetr.Routing.Router.Trace.{with_final_transition-ok}
use ikimetr.Routing.Router.Accepted.{evaluate_draft-Ready, first_stop-Ready}
use ikimetr.Routing.Router.Evaluated.{Audited, audit-Audited}

-- The configurations that the schema admits: no route has more than two providers; and the hash
-- that the router puts into its decisions is one.
pub record Configured (router : CostRouter) : Type 0 where
  pub providers :
      (route : ProviderRoute) → length (router.config.routes (to_route route)).providers ≤ 2
  pub hash : is_sha256_hex router.effective_config_hash ≡ true

module _ (router : CostRouter) (request : TaskRoutingRequest) (context : RoutingRuntimeContext)
    (answers : AuditAnswers) (file : List LedgerEvent) where
  pub data Run : Evaluated → Type 0 where
    unaudited :
        (reason : ReasonCode) (r : RoutingDecision)
        → Keeps router.hashing request
            (with_final_transition
              (stop_draft reason CacheStatus.skipped (denied RoutingStage.cache reason ∷ [])))
            router.effective_config_hash
            r
        → Run (file, ok r)
    audited :
        (p : Evaluated)
        → Audited router request answers.event_id
            (after_lookups router request context file)
            (evaluate_draft router request context file)
            p
        → Run p

  stop-Run :
      Configured router
      → (reason : ReasonCode) → Run (file, create_stop_without_audit router request reason)
  unfolding create_stop_without_audit
  stop-Run configured reason =
      let d = stop_draft reason CacheStatus.skipped (denied RoutingStage.cache reason ∷ []) in
      let (r, e, _, _, _) =
        create_routing_decision-ok router.hashing request (with_final_transition d)
          router.effective_config_hash
          (with_final_transition-ok d (first_stop-Ready reason CacheStatus.skipped))
          configured.hash in
      rw (e) (
        Run.unaudited reason r (
          create_routing_decision-Keeps router.hashing request (with_final_transition d)
            router.effective_config_hash r e))

  unconfigured :
      router.config_valid ≡ false
      → evaluate_internal router request context answers file
        ≡ (file, create_stop_without_audit router request ReasonCode.config_invalid)
  unfolding evaluate_internal
  unconfigured e = simp (e, evaluate_internal)

  unreadable :
      router.config_valid ≡ true
      → answers.readable ≡ false
      → evaluate_internal router request context answers file
        ≡ (file, create_stop_without_audit router request ReasonCode.ledger_invalid)
  unfolding evaluate_internal
  unreadable e f = simp (e, f, evaluate_internal)

  evaluated :
      router.config_valid ≡ true
      → answers.readable ≡ true
      → evaluate_internal router request context answers file
        ≡ audit router request answers
            (evaluate_draft router request context file)
            (after_lookups router request context file)
  unfolding evaluate_internal
  evaluated e f = simp (e, f, evaluate_internal)

  pub evaluate_internal-Run :
      Configured router → Run (evaluate_internal router request context answers file)
  evaluate_internal-Run configured = elim (Bool-cases router.config_valid) [
    | inr e ↦ rw (unconfigured e) (stop-Run configured ReasonCode.config_invalid)
    | inl e ↦ elim (Bool-cases answers.readable) [
      | inr f ↦ rw (unreadable e f) (stop-Run configured ReasonCode.ledger_invalid)
      | inl f ↦ rw (evaluated e f) (
          Run.audited _ (
            audit-Audited router request answers (after_lookups router request context file)
              (evaluate_draft router request context file)
              (evaluate_draft-Ready router request context file configured.providers)
              configured.hash))
    ]
  ]
