-- ===== src/Scenarios/Requests.antt =====
-- The theorems on routing, applied to concrete requests and ledgers.
use ikimetr.Prelude.{◌≡◌, refl, none, some, List, [], ◌∷◌, text, text_eq}
use ikimetr.Config.{ProviderId, RiskClass, CapabilityId, DataClass, Route, route_Eq}
use ikimetr.LedgerEvents.{AttemptStatus, HealthStatus, ApprovalDecision, LedgerEvent}
use ikimetr.Routing.Codes.{ApprovalScope}
use ikimetr.Routing.Policy.{
  RequestDataClass, TaskRoutingRequest, evaluate_provider_policy, Permitted,
  evaluate_provider_policy-Permitted,
}
use ikimetr.Routing.State.{
  RoutingAttemptEvidence, RoutingState, derive_routing_state, or_unknown, or_missing,
  get_provider_health, scope_name, get_approval_state, same_outcome, has_repeated_failure,
}
use ikimetr.Routing.State.Latest.{
  latest_health, latest_approval, get_provider_health-latest, get_approval_state-latest,
}
use ikimetr.Routing.State.Failures.{Repeated, has_repeated_failure-Repeated}
use ikimetr.Scenarios.{demo_config, hash, cloud_provider}

abbrev asked : TaskRoutingRequest
asked = record {
  task_id = text "t1";
  task_type = text "docs";
  purpose = text "notes";
  risk_class = RiskClass.low;
  data_class = RequestDataClass.allowable DataClass.internal;
  requested_capability = CapabilityId.documentation;
  task_spec_hash = hash;
  input_hashes = [];
  current_diff_hash = none;
  error_fingerprint = none;
  verification_profile = text "default";
  allowed_routes = Route.local ∷ Route.cheap_cloud ∷ [];
  max_route = Route.cheap_cloud;
  requested_scopes = [];
  manual_primary_agent = none;
}

evaluate_provider_policy-Permitted_example : Permitted cloud_provider asked ProviderId.deepseek
unfolding evaluate_provider_policy
evaluate_provider_policy-Permitted_example =
    evaluate_provider_policy-Permitted demo_config asked ProviderId.deepseek refl

abbrev health_events : List LedgerEvent
health_events =
    LedgerEvent.provider_health (record {
      event_id = text "e1";
      occurred_at = text "2026-01-02T03:04:05Z";
      provider = ProviderId.qwen;
      model = text "chat";
      status = HealthStatus.timeout;
      latency_ms = none;
      reason_code = text "probe";
    })
    ∷ LedgerEvent.approval (record {
      event_id = text "e2";
      occurred_at = text "2026-01-02T03:04:06Z";
      approval_id = text "p1";
      task_id = text "t1";
      decision = ApprovalDecision.approved;
      scope = text "strong";
      approver_hash = hash;
      reason_code = text "ok";
    })
    ∷ []

get_provider_health-latest_example :
    get_provider_health
      (derive_routing_state health_events (text "t1"))
      ProviderId.qwen
      (text "chat")
    ≡ or_unknown (latest_health ProviderId.qwen (text "chat") health_events)
get_provider_health-latest_example =
    get_provider_health-latest health_events (text "t1") ProviderId.qwen (text "chat")

get_approval_state-latest_example :
    get_approval_state (derive_routing_state health_events (text "t1")) ApprovalScope.strong
    ≡ or_missing (latest_approval (text "t1") (scope_name ApprovalScope.strong) health_events)
get_approval_state-latest_example =
    get_approval_state-latest health_events (text "t1") ApprovalScope.strong

abbrev attempt : RoutingAttemptEvidence
attempt = record {
  attempt_id = text "a1";
  route = Route.local;
  request_fingerprint = hash;
  status = AttemptStatus.failed;
  patch_hash = some (text "d1");
  error_fingerprint = some (text "f1");
  escalation_reason = none;
  verification_evidence_hashes = [];
}

abbrev failing : RoutingState
failing = record {
  task_id = text "t1";
  provider_health = [];
  approvals = [];
  attempts = attempt ∷ attempt ∷ [];
}

has_repeated_failure-Repeated_example : Repeated failing (text "f1") (text "d1") none
unfolding has_repeated_failure same_outcome text_eq
has_repeated_failure-Repeated_example =
    has_repeated_failure-Repeated failing (text "f1") (text "d1") none refl
