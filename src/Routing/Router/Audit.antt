-- ===== src/Routing/Router/Audit.antt =====
-- cost-router.ts: `evaluateInternal`, with `audit` and `createStopWithoutAudit`.
use ikimetr.Prelude.{
  Bool, true, false, not, Option, none, some, List, [], ◌∷◌, ◌++◌, keep, Text, Result, ok, err,
  if◌then◌else◌,
}
use ikimetr.LedgerEvents.{RoutingDecisionEvent, LedgerEvent}
use ikimetr.Budget.Controller.{AppendOutcome, ledger_append}
use ikimetr.Routing.Codes.{Decision, ReasonCode, CacheStatus}
use ikimetr.Routing.Policy.{TaskRoutingRequest, is_secret}
use ikimetr.Routing.Draft.{
  RoutingStage, TransitionOutcome, RoutingTransition, RoutingDecisionDraft, last, ends_at_final,
  is_final, DecisionError,
}
use ikimetr.Routing.Decision.{RoutingDecision, create_routing_decision}
use ikimetr.Routing.Router.{transition, denied, stop_draft}
use ikimetr.Routing.Router.Provider.{CostRouter}
use ikimetr.Routing.Router.Cache.{RoutingRuntimeContext, cache_events}
use ikimetr.Routing.Router.Evaluate.{evaluate_draft}

-- What the calls of one evaluation return: whether the ledger file could be read, the name and the
-- time of the event, and how its write ended.
pub record AuditAnswers : Type 0 where
  pub readable : Bool
  pub event_id : Text
  pub now : Option Text
  pub outcome : AppendOutcome

abbrev pub final_outcome : Decision → TransitionOutcome
final_outcome Decision.stop = TransitionOutcome.denied
final_outcome _ = TransitionOutcome.selected

unfoldable pub with_final_transition : RoutingDecisionDraft → RoutingDecisionDraft
with_final_transition d = if ends_at_final (last d.transition_trace) then d else record d {
  transition_trace =
      d.transition_trace
      ++ transition RoutingStage.final (final_outcome d.decision) d.reason_code ∷ [];
}

abbrev pub decision_event :
    CostRouter → TaskRoutingRequest → Text → Text → RoutingDecision → RoutingDecisionEvent
decision_event router request id now r = record {
  event_id = id;
  occurred_at = now;
  task_id = request.task_id;
  request_hash = r.request_hash;
  decision_hash = r.decision_hash;
  config_hash = r.config_hash;
  decision = r.draft.decision;
  route = r.draft.route;
  provider_candidate = r.draft.provider_candidate;
  reason_code = r.draft.reason_code;
  cache_status = r.draft.cache_status;
  budget_status = r.draft.budget_status;
  pricing_status = r.draft.pricing_status;
  data_policy_status = r.draft.data_policy_status;
  approval_status = r.draft.approval_status;
  escalation_allowed = r.draft.escalation_allowed;
  transition_trace_hash = router.hashing.hash_trace r.draft.transition_trace;
}

-- What is returned when the append throws.
abbrev pub unaudited_draft : RoutingDecisionDraft → RoutingDecisionDraft
unaudited_draft d = record d {
  decision = Decision.stop;
  route = none;
  provider_candidate = none;
  reason_code = ReasonCode.audit_append_failed;
  escalation_allowed = false;
  transition_trace =
      keep (λ (t : RoutingTransition). not (is_final t.stage)) d.transition_trace
      ++ denied RoutingStage.final ReasonCode.audit_append_failed ∷ [];
}

-- The `try` of `audit`: the file after it, and whether it returned.
unfoldable pub append_decision :
    CostRouter
    → TaskRoutingRequest
    → AuditAnswers
    → RoutingDecision
    → List LedgerEvent
    → List LedgerEvent × Bool
append_decision router request answers r file = elim answers.now [
  | none ↦ (file, false)
  | some now ↦
      ledger_append router.schema answers.outcome
        (LedgerEvent.routing_decision (decision_event router request answers.event_id now r)) file
]

-- A call of the router: the ledger file after it, and the decision or what it throws.
abbrev pub Evaluated : Type 0
Evaluated = List LedgerEvent × Result DecisionError RoutingDecision

abbrev pub after_append :
    CostRouter → TaskRoutingRequest → RoutingDecision → List LedgerEvent × Bool → Evaluated
after_append router request r (file, true) = (file, ok r)
after_append router request r (file, false) = (
  file,
  create_routing_decision router.hashing request (unaudited_draft r.draft)
      router.effective_config_hash,
)

unfoldable pub audit :
    CostRouter
    → TaskRoutingRequest
    → AuditAnswers
    → RoutingDecisionDraft
    → List LedgerEvent
    → Evaluated
audit router request answers d file =
    elim (create_routing_decision router.hashing request (with_final_transition d)
      router.effective_config_hash) [
        | err e ↦ (file, err e)
        | ok r ↦ after_append router request r (append_decision router request answers r file)
      ]

unfoldable pub create_stop_without_audit :
    CostRouter → TaskRoutingRequest → ReasonCode → Result DecisionError RoutingDecision
create_stop_without_audit router request reason =
    create_routing_decision router.hashing request
      (with_final_transition
        (stop_draft reason CacheStatus.skipped (denied RoutingStage.cache reason ∷ [])))
      router.effective_config_hash

-- The ledger file after the lookups of the cache; a request with secret data makes none.
unfoldable pub after_lookups :
    CostRouter → TaskRoutingRequest → RoutingRuntimeContext → List LedgerEvent → List LedgerEvent
after_lookups router request context file =
    if is_secret request.data_class
    then file
    else file ++ cache_events request router.config context.cache_candidates

unfoldable pub evaluate_internal :
    CostRouter
    → TaskRoutingRequest
    → RoutingRuntimeContext
    → AuditAnswers
    → List LedgerEvent
    → Evaluated
evaluate_internal router request context answers file = elim router.config_valid [
  | false ↦ (file, create_stop_without_audit router request ReasonCode.config_invalid)
  | true ↦ elim answers.readable [
    | false ↦ (file, create_stop_without_audit router request ReasonCode.ledger_invalid)
    | true ↦
        audit router request answers (evaluate_draft router request context file)
          (after_lookups router request context file)
  ]
]
