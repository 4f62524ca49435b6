-- ===== src/LedgerEvents/Types.antt =====
-- ledger-events.ts: one record for each kind of event.
use ikimetr.Prelude.{ℕ, Bool, Option, none, some, List, [], ◌∷◌, ◌++◌, Text}
use ikimetr.Config.{ProviderId, DataClass, Route}
use ikimetr.Money.{Money}
use ikimetr.Routing.Codes.{
  Decision, DecisionRoute, ReasonCode, CacheStatus, BudgetStatus, PricingCheck, DataPolicyStatus,
  ApprovalStatus,
}

pub data AttemptStatus : Type 0 where
  completed failed blocked cancelled : AttemptStatus

pub data Disposition : Type 0 where
  settled released : Disposition

pub data HealthStatus : Type 0 where
  healthy unavailable timeout malformed : HealthStatus

pub data ApprovalDecision : Type 0 where
  approved denied revoked : ApprovalDecision

pub data VerificationCommand : Type 0 where
  lint typecheck unit integration build playwright : VerificationCommand

pub data VerificationResult : Type 0 where
  pass fail skipped : VerificationResult

pub record AttemptStarted : Type 0 where
  pub event_id : Text
  pub occurred_at : Text
  pub task_id : Text
  pub attempt_id : Text
  pub parent_attempt_id : Option Text
  pub route : Route
  pub provider : Option ProviderId
  pub model : Option Text
  pub purpose : Text
  pub data_class : DataClass
  pub cache_hit : Bool
  pub request_fingerprint : Text
  pub input_hash : Text
  pub prompt_version : Text
  pub config_hash : Text
  pub pricing_version : Text
  pub estimated_cost : Option Money

pub record AttemptCompleted : Type 0 where
  pub event_id : Text
  pub occurred_at : Text
  pub task_id : Text
  pub attempt_id : Text
  pub status : AttemptStatus
  pub input_tokens : ℕ
  pub output_tokens : ℕ
  pub actual_cost : Option Money
  pub latency_ms : ℕ
  pub result_hash : Option Text
  pub patch_hash : Option Text
  pub error_fingerprint : Option Text
  pub verification_result : Option Text
  pub escalation_reason : Option Text

pub record BudgetReservation : Type 0 where
  pub event_id : Text
  pub occurred_at : Text
  pub reservation_id : Text
  pub task_id : Text
  pub attempt_id : Text
  pub provider : ProviderId
  pub model : Text
  pub route : Route
  pub data_class : DataClass
  pub automatic : Bool
  pub cloud : Bool
  pub retry : Bool
  pub estimated_input_tokens : ℕ
  pub reserved_output_tokens : ℕ
  pub reserved_cost : Money
  pub reserved_local_wall_time_ms : ℕ
  pub pricing_version : Text
  pub input_rate : ℕ
  pub output_rate : ℕ
  pub cache_read_rate : Option ℕ
  pub cache_write_rate : Option ℕ
  pub config_hash : Text

pub record BudgetSettlement : Type 0 where
  pub event_id : Text
  pub occurred_at : Text
  pub settlement_id : Text
  pub reservation_id : Text
  pub task_id : Text
  pub attempt_id : Text
  pub provider : ProviderId
  pub disposition : Disposition
  pub actual_input_tokens : ℕ
  pub actual_output_tokens : ℕ
  pub cache_read_tokens : ℕ
  pub cache_write_tokens : ℕ
  pub actual_cost : Money
  pub actual_local_wall_time_ms : ℕ
  pub overrun : Bool
  pub reason_code : Text

pub record ProviderHealthEvent : Type 0 where
  pub event_id : Text
  pub occurred_at : Text
  pub provider : ProviderId
  pub model : Text
  pub status : HealthStatus
  pub latency_ms : Option ℕ
  pub reason_code : Text

pub record ApprovalEvent : Type 0 where
  pub event_id : Text
  pub occurred_at : Text
  pub approval_id : Text
  pub task_id : Text
  pub decision : ApprovalDecision
  pub scope : Text
  pub approver_hash : Text
  pub reason_code : Text

pub record VerificationEvent : Type 0 where
  pub event_id : Text
  pub occurred_at : Text
  pub attempt_id : Text
  pub command_id : VerificationCommand
  pub result : VerificationResult
  pub evidence_hash : Text
  pub duration_ms : ℕ

pub data CacheAction : Type 0 where
  lookup write invalidate quarantine negative_hit verified_reuse pending unverified : CacheAction
  verified negative quarantined hit miss : CacheAction

pub data CacheNamespace : Type 0 where
  provider_request verified_artifact negative : CacheNamespace

pub data CacheState : Type 0 where
  pending unverified verified negative quarantined : CacheState

pub record CacheEvent : Type 0 where
  pub event_id : Text
  pub occurred_at : Text
  pub cache_key : Text
  pub action : CacheAction
  pub namespace : Option CacheNamespace
  pub entry_hash : Option Text
  pub state : Option CacheState
  pub result_hash : Option Text
  pub reason_code : Option Text

pub record RoutingDecisionEvent : Type 0 where
  pub event_id : Text
  pub occurred_at : Text
  pub task_id : Text
  pub request_hash : Text
  pub decision_hash : Text
  pub config_hash : Text
  pub decision : Decision
  pub route : Option DecisionRoute
  pub provider_candidate : Option ProviderId
  pub reason_code : ReasonCode
  pub cache_status : CacheStatus
  pub budget_status : BudgetStatus
  pub pricing_status : PricingCheck
  pub data_policy_status : DataPolicyStatus
  pub approval_status : ApprovalStatus
  pub escalation_allowed : Bool
  pub transition_trace_hash : Text

pub data LedgerEvent : Type 0 where
  attempt_started : AttemptStarted → LedgerEvent
  attempt_completed : AttemptCompleted → LedgerEvent
  budget_reservation : BudgetReservation → LedgerEvent
  budget_settlement : BudgetSettlement → LedgerEvent
  provider_health : ProviderHealthEvent → LedgerEvent
  approval : ApprovalEvent → LedgerEvent
  verification : VerificationEvent → LedgerEvent
  cache : CacheEvent → LedgerEvent
  routing_decision : RoutingDecisionEvent → LedgerEvent

-- `event.event_id`
abbrev pub event_id : LedgerEvent → Text
event_id (LedgerEvent.attempt_started e) = e.event_id
event_id (LedgerEvent.attempt_completed e) = e.event_id
event_id (LedgerEvent.budget_reservation e) = e.event_id
event_id (LedgerEvent.budget_settlement e) = e.event_id
event_id (LedgerEvent.provider_health e) = e.event_id
event_id (LedgerEvent.approval e) = e.event_id
event_id (LedgerEvent.verification e) = e.event_id
event_id (LedgerEvent.cache e) = e.event_id
event_id (LedgerEvent.routing_decision e) = e.event_id

abbrev given : Option Text → List Text
given none = []
given (some s) = s ∷ []

abbrev money_strings : Option Money → List Text
money_strings none = []
money_strings (some m) = m.currency ∷ []

-- The strings of an event that are no fixed word of its schema.
unfoldable pub event_strings : LedgerEvent → List Text
event_strings (LedgerEvent.attempt_started e) =
    e.event_id
    ∷ e.occurred_at
    ∷ e.task_id
    ∷ e.attempt_id
    ∷ e.purpose
    ∷ e.request_fingerprint
    ∷ e.input_hash
    ∷ e.prompt_version
    ∷ e.config_hash
    ∷ e.pricing_version
    ∷ (given e.parent_attempt_id ++ (given e.model ++ money_strings e.estimated_cost))
event_strings (LedgerEvent.attempt_completed e) =
    e.event_id
    ∷ e.occurred_at
    ∷ e.task_id
    ∷ e.attempt_id
    ∷ (money_strings e.actual_cost
        ++ (given e.result_hash
            ++ (given e.patch_hash
                ++ (given e.error_fingerprint
                    ++ (given e.verification_result ++ given e.escalation_reason)))))
event_strings (LedgerEvent.budget_reservation e) =
    e.event_id ∷ e.occurred_at ∷ e.reservation_id ∷ e.task_id ∷ e.attempt_id ∷ e.model
    ∷ e.reserved_cost.currency ∷ e.pricing_version ∷ e.config_hash ∷ []
event_strings (LedgerEvent.budget_settlement e) =
    e.event_id ∷ e.occurred_at ∷ e.settlement_id ∷ e.reservation_id ∷ e.task_id ∷ e.attempt_id
    ∷ e.actual_cost.currency ∷ e.reason_code ∷ []
event_strings (LedgerEvent.provider_health e) =
    e.event_id ∷ e.occurred_at ∷ e.model ∷ e.reason_code ∷ []
event_strings (LedgerEvent.approval e) =
    e.event_id ∷ e.occurred_at ∷ e.approval_id ∷ e.task_id ∷ e.scope ∷ e.approver_hash
    ∷ e.reason_code ∷ []
event_strings (LedgerEvent.verification e) =
    e.event_id ∷ e.occurred_at ∷ e.attempt_id ∷ e.evidence_hash ∷ []
event_strings (LedgerEvent.cache e) =
    e.event_id
    ∷ e.occurred_at
    ∷ e.cache_key
    ∷ (given e.entry_hash ++ (given e.result_hash ++ given e.reason_code))
event_strings (LedgerEvent.routing_decision e) =
    e.event_id ∷ e.occurred_at ∷ e.task_id ∷ e.request_hash ∷ e.decision_hash ∷ e.config_hash
    ∷ e.transition_trace_hash ∷ []
