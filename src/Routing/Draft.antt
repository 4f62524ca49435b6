-- ===== src/Routing/Draft.antt =====
-- routing-contracts.ts: the draft of a routing decision, and the decision with its hashes.
use ikimetr.Prelude.{
  ℕ, Bool, true, false, ◌&&◌, ◌||◌, not, Option, none, some, List, [], ◌∷◌, ltb, leb, nat_eq,
  if◌then◌else◌, length, text_Eq, Result, ok, err,
}
use ikimetr.Config.{ProviderId}
use ikimetr.Routing.Codes.{
  Decision, DecisionRoute, ReasonCode, CacheStatus, BudgetStatus, PricingCheck, DataPolicyStatus,
  ApprovalStatus,
}

pub data RoutingStage : Type 0 where
  cache deterministic local cheap_cloud strong final : RoutingStage

pub data TransitionOutcome : Type 0 where
  continue selected denied skipped : TransitionOutcome

pub record RoutingTransition : Type 0 where
  pub stage : RoutingStage
  pub outcome : TransitionOutcome
  pub reason_code : ReasonCode

pub record RoutingDecisionDraft : Type 0 where
  pub decision : Decision
  pub route : Option DecisionRoute
  pub provider_candidate : Option ProviderId
  pub reason_code : ReasonCode
  pub cache_status : CacheStatus
  pub budget_status : BudgetStatus
  pub pricing_status : PricingCheck
  pub data_policy_status : DataPolicyStatus
  pub approval_status : ApprovalStatus
  pub escalation_allowed : Bool
  pub transition_trace : List RoutingTransition

-- `routingStages.indexOf(stage)`
abbrev pub stage_rank : RoutingStage → ℕ
stage_rank RoutingStage.cache = 0
stage_rank RoutingStage.deterministic = 1
stage_rank RoutingStage.local = 2
stage_rank RoutingStage.cheap_cloud = 3
stage_rank RoutingStage.strong = 4
stage_rank RoutingStage.final = 5

abbrev pub is_final : RoutingStage → Bool
is_final RoutingStage.final = true
is_final _ = false

-- `list.at(-1)`
abbrev pub last {ℓ} : {A : Type ℓ} → List A → Option A
last [] = none
last (x ∷ []) = some x
last (x ∷ y ∷ rest) = last (y ∷ rest)

-- The loop of `validateTransitionOrder`. No stage ranks below 0, as none ranks below the -1 that the
-- loop starts at.
abbrev pub in_order : ℕ → List RoutingTransition → Bool
in_order previous [] = true
in_order previous (t ∷ rest) =
    not (ltb (stage_rank t.stage) previous) && in_order (stage_rank t.stage) rest

abbrev pub ends_at_final : Option RoutingTransition → Bool
ends_at_final none = false
ends_at_final (some t) = is_final t.stage

unfoldable pub validate_transition_order : List RoutingTransition → Bool
validate_transition_order trace = in_order 0 trace && ends_at_final (last trace)

abbrev pub reason_index : ReasonCode → ℕ
reason_index ReasonCode.cache_hit = 0
reason_index ReasonCode.cache_miss = 1
reason_index ReasonCode.cache_invalidated = 2
reason_index ReasonCode.cache_quarantined = 3
reason_index ReasonCode.cache_unavailable = 4
reason_index ReasonCode.secret_data_denied = 5
reason_index ReasonCode.deterministic_capability = 6
reason_index ReasonCode.deterministic_unresolved = 7
reason_index ReasonCode.route_allowed = 8
reason_index ReasonCode.route_not_allowed = 9
reason_index ReasonCode.max_route_exceeded = 10
reason_index ReasonCode.provider_disabled = 11
reason_index ReasonCode.provider_healthy = 12
reason_index ReasonCode.provider_degraded = 13
reason_index ReasonCode.provider_unavailable = 14
reason_index ReasonCode.provider_health_unknown = 15
reason_index ReasonCode.data_class_denied = 16
reason_index ReasonCode.risk_class_denied = 17
reason_index ReasonCode.capability_denied = 18
reason_index ReasonCode.data_policy_allowed = 19
reason_index ReasonCode.pricing_known = 20
reason_index ReasonCode.pricing_stale = 21
reason_index ReasonCode.pricing_unknown = 22
reason_index ReasonCode.budget_allowed = 23
reason_index ReasonCode.budget_denied = 24
reason_index ReasonCode.budget_not_configured = 25
reason_index ReasonCode.approval_not_required = 26
reason_index ReasonCode.approval_required = 27
reason_index ReasonCode.approval_granted = 28
reason_index ReasonCode.approval_denied = 29
reason_index ReasonCode.local_unavailable = 30
reason_index ReasonCode.local_insufficient = 31
reason_index ReasonCode.cheap_unavailable = 32
reason_index ReasonCode.cheap_insufficient = 33
reason_index ReasonCode.strong_unavailable = 34
reason_index ReasonCode.no_provider_available = 35
reason_index ReasonCode.repeated_request = 36
reason_index ReasonCode.config_invalid = 37
reason_index ReasonCode.ledger_invalid = 38
reason_index ReasonCode.policy_contradiction = 39
reason_index ReasonCode.route_selected = 40
reason_index ReasonCode.audit_append_failed = 41
reason_index ReasonCode.local_task_not_allowed = 42

abbrev pub decision_route_index : DecisionRoute → ℕ
decision_route_index DecisionRoute.cache = 0
decision_route_index DecisionRoute.deterministic = 1
decision_route_index DecisionRoute.local = 2
decision_route_index DecisionRoute.cheap_cloud = 3
decision_route_index DecisionRoute.strong = 4

-- `expectedRoute`
abbrev pub expected_route : Decision → Option DecisionRoute
expected_route Decision.cache = some DecisionRoute.cache
expected_route Decision.deterministic = some DecisionRoute.deterministic
expected_route Decision.local = some DecisionRoute.local
expected_route Decision.cheap_cloud = some DecisionRoute.cheap_cloud
expected_route Decision.strong = some DecisionRoute.strong
expected_route _ = none

abbrev pub is_route : Option DecisionRoute → DecisionRoute → Bool
is_route none expected = false
is_route (some r) expected = nat_eq (decision_route_index r) (decision_route_index expected)

abbrev pub is_none {ℓ} : {A : Type ℓ} → Option A → Bool
is_none none = true
is_none (some a) = false

abbrev pub is_deterministic : Decision → Bool
is_deterministic Decision.deterministic = true
is_deterministic _ = false

-- `['LOCAL', 'CHEAP_CLOUD', 'STRONG', 'APPROVAL_REQUIRED'].includes(decision)`
abbrev pub needs_provider : Decision → Bool
needs_provider Decision.local = true
needs_provider Decision.cheap_cloud = true
needs_provider Decision.strong = true
needs_provider Decision.approval_required = true
needs_provider _ = false

abbrev pub is_approval : Decision → Bool
is_approval Decision.approval_required = true
is_approval _ = false

-- `['local', 'cheap-cloud', 'strong'].includes(route ?? '')`
abbrev pub is_provider_route : Option DecisionRoute → Bool
is_provider_route (some DecisionRoute.local) = true
is_provider_route (some DecisionRoute.cheap_cloud) = true
is_provider_route (some DecisionRoute.strong) = true
is_provider_route _ = false

abbrev pub has_expected_route : Decision → Option DecisionRoute → Bool
has_expected_route decision route = elim (expected_route decision) [
  | none ↦ true
  | some expected ↦ is_route route expected
]

abbrev pub has_expected_provider : Decision → Option DecisionRoute → Option ProviderId → Bool
has_expected_provider decision route provider = not (
    is_deterministic decision && not (is_none provider)
    || needs_provider decision && is_none provider
    || is_none route && not (is_none provider))

abbrev pub final_reason : Option RoutingTransition → ReasonCode → Bool
final_reason none reason = false
final_reason (some t) reason = nat_eq (reason_index t.reason_code) (reason_index reason)

unfoldable pub validate_decision_semantics : RoutingDecisionDraft → Bool
validate_decision_semantics d =
    has_expected_route d.decision d.route
    && has_expected_provider d.decision d.route d.provider_candidate
    && not (is_approval d.decision && not (is_provider_route d.route))
    && final_reason (last d.transition_trace) d.reason_code

pub data DecisionError : Type 0 where
  invalid_draft summary_mismatch hash_mismatch : DecisionError

-- `parseRoutingDecisionDraft`
unfoldable pub parse_routing_decision_draft :
    RoutingDecisionDraft → Result DecisionError RoutingDecisionDraft
unfolding validate_transition_order validate_decision_semantics
parse_routing_decision_draft d =
    if leb 1 (length d.transition_trace)
      && leb (length d.transition_trace) 32
      && validate_transition_order d.transition_trace
      && validate_decision_semantics d
    then ok d
    else err DecisionError.invalid_draft
